-- ===== src/Traffic/RateLimit.antt =====
-- `RateLimitConfig.Validate`.
use backend_v.Base.{
  ◌>>◌, reject_if, err, ok, String, Bool, not, ◌&&◌, Option, none, some, List, [], ◌∷◌, str_eq,
  each, if_set, is_nil,
}
use backend_v.Traffic.Checks.{Std, Check, one_of}
use backend_v.Base.Int.{ltb_ℤ, ℤ, pos}

pub record RateLimitHeaderMatch : Type 0 where
  pub name : String
  pub type : String

-- A source CIDR and a path match have the same two fields.
pub record RateLimitMatch : Type 0 where
  pub value : String
  pub type : String

pub record RateLimitSelector : Type 0 where
  pub headers : List RateLimitHeaderMatch
  pub source_cidr : Option RateLimitMatch
  pub path : Option RateLimitMatch

pub record RateLimitRule : Type 0 where
  pub requests : ℤ
  pub unit : String
  pub client_selectors : List RateLimitSelector

-- `global` is nil, or the list of its rules.
pub record RateLimitConfig : Type 0 where
  pub global : Option (List RateLimitRule)

abbrev pub bad_match_type : String → Bool
bad_match_type t = not (str_eq t "") && (not (str_eq t "Exact") && not (str_eq t "Distinct"))

unfoldable pub validate_header_match : RateLimitHeaderMatch → Check
validate_header_match h = do
  reject_if (str_eq h.name "") "name is required"
  reject_if (bad_match_type h.type) "type must be 'Exact' or 'Distinct'"

unfoldable pub validate_path_match : RateLimitMatch → Check
validate_path_match p = do
  reject_if (str_eq p.value "") "path: value is required"
  reject_if (not (one_of p.type ("Exact" ∷ "PathPrefix" ∷ "RegularExpression" ∷ [])))
      "path: invalid type"

module _ (std : Std) where
  unfoldable pub validate_source_cidr : RateLimitMatch → Check
  validate_source_cidr c = do
    reject_if (str_eq c.value "") "sourceCIDR: value is required"
    reject_if (not (std.parse_cidr c.value) && not (std.parse_ip c.value))
        "sourceCIDR: invalid CIDR or IP format"
    reject_if (bad_match_type c.type) "sourceCIDR: type must be 'Exact' or 'Distinct'"

  unfoldable pub validate_selector : RateLimitSelector → Check
  validate_selector s = do
    each validate_header_match s.headers
    if_set s.source_cidr validate_source_cidr
    if_set s.path validate_path_match

  unfoldable pub validate_rule : RateLimitRule → Check
  validate_rule r = do
    reject_if (not (ltb_ℤ (pos 0) r.requests)) "requests must be > 0"
    reject_if (not (one_of r.unit ("Second" ∷ "Minute" ∷ "Hour" ∷ "Day" ∷ []))) "invalid unit"
    each validate_selector r.client_selectors

  unfoldable pub validate_rules : Option (List RateLimitRule) → Check
  validate_rules none = err "global rate limit configuration is required"
  validate_rules (some rules) = do
    reject_if (is_nil rules) "at least one rate limit rule is required"
    each validate_rule rules

  unfoldable pub validate_rate_limit : Option RateLimitConfig → Check
  unfolding validate_rules
  validate_rate_limit none = ok tt
  validate_rate_limit (some c) = validate_rules c.global
