-- ===== src/Traffic/Valid/Rates.antt =====
-- `RateLimitConfig.Validate` against what a valid rate limit is.
use backend_v.Base.{
  some_inj, Any, All, String, ◌≡◌, refl, sym, subst, ◌≢◌, ◌↔◌, ◌⊎◌, true, false, not, Option, none,
  some, List, [], ◌∷◌, str_eq, eq_iff, not_iff, id_iff, guard_as, each_iff, chain_iff, if_set_iff,
  false_iff, Passes, unless_iff, is_nil_iff, neither_iff,
}
use backend_v.Base.Int.{ℤ, ltb_ℤ, pos, ltb_ℤ_iff, ◌<ℤ◌}
use backend_v.Traffic.Passes.{one_of_iff}
use backend_v.Traffic.Checks.{Std}
use backend_v.Traffic.RateLimit.{
  RateLimitHeaderMatch, validate_selector, validate_source_cidr, validate_path_match,
  RateLimitSelector, RateLimitConfig, bad_match_type, validate_header_match, validate_rate_limit,
  validate_rule, RateLimitMatch, RateLimitRule, validate_rules,
}

abbrev pub MatchType : String → Type 0
MatchType t = (t ≡ "") ⊎ ((t ≡ "Exact") ⊎ (t ≡ "Distinct"))

bad_match_type_iff : (t : String) → (bad_match_type t ≡ false) ↔ MatchType t
bad_match_type_iff t = unless_iff (str_eq t "") _ (eq_iff t "") (neither_iff t "Exact" "Distinct")

abbrev pub IsHeaderMatch : RateLimitHeaderMatch → Type 0
IsHeaderMatch h = (h.name ≢ "") × MatchType h.type

validate_header_match_iff :
    (h : RateLimitHeaderMatch) → Passes (validate_header_match h) ↔ IsHeaderMatch h
unfolding validate_header_match
validate_header_match_iff h =
    chain_iff _ _ (guard_as _ _ (false_iff (str_eq h.name "") (eq_iff h.name "")))
      (guard_as (bad_match_type h.type) _ (bad_match_type_iff h.type))

abbrev pub IsPathMatch : RateLimitMatch → Type 0
IsPathMatch p =
    (p.value ≢ "") × Any (λ n. p.type ≡ n) ("Exact" ∷ "PathPrefix" ∷ "RegularExpression" ∷ [])

validate_path_match_iff : (p : RateLimitMatch) → Passes (validate_path_match p) ↔ IsPathMatch p
unfolding validate_path_match
validate_path_match_iff p =
    chain_iff _ _ (guard_as _ _ (false_iff (str_eq p.value "") (eq_iff p.value "")))
      (guard_as _ _ (one_of_iff p.type ("Exact" ∷ "PathPrefix" ∷ "RegularExpression" ∷ [])))

positive_iff : (n : ℤ) → (not (ltb_ℤ (pos 0) n) ≡ false) ↔ (pos 0 <ℤ n)
positive_iff n = not_iff (ltb_ℤ (pos 0) n) (ltb_ℤ_iff (pos 0) n)

module _ (std : Std) where
  abbrev pub IsSourceCidr : RateLimitMatch → Type 0
  IsSourceCidr c =
      (c.value ≢ "")
      × (((std.parse_cidr c.value ≡ true) ⊎ (std.parse_ip c.value ≡ true)) × MatchType c.type)

  validate_source_cidr_iff :
      (c : RateLimitMatch) → Passes (validate_source_cidr std c) ↔ IsSourceCidr c
  unfolding validate_source_cidr
  validate_source_cidr_iff c =
      chain_iff _ _ (guard_as _ _ (false_iff (str_eq c.value "") (eq_iff c.value ""))) (
        chain_iff _ _
          (guard_as _ _ (
            unless_iff (std.parse_cidr c.value) _ (id_iff _)
              (not_iff (std.parse_ip c.value) (id_iff _))))
          (guard_as (bad_match_type c.type) _ (bad_match_type_iff c.type)))

  abbrev pub IsSelector : RateLimitSelector → Type 0
  IsSelector s =
      All IsHeaderMatch s.headers
      × (((c : RateLimitMatch) → s.source_cidr ≡ some c → IsSourceCidr c)
          × ((p : RateLimitMatch) → s.path ≡ some p → IsPathMatch p))

  validate_selector_iff : (s : RateLimitSelector) → Passes (validate_selector std s) ↔ IsSelector s
  unfolding validate_selector
  validate_selector_iff s =
      chain_iff _ _ (each_iff IsHeaderMatch _ s.headers validate_header_match_iff) (
        chain_iff _ _ (if_set_iff IsSourceCidr s.source_cidr _ validate_source_cidr_iff)
          (if_set_iff IsPathMatch s.path _ validate_path_match_iff))

  abbrev pub IsRule : RateLimitRule → Type 0
  IsRule r =
      (pos 0 <ℤ r.requests)
      × (Any (λ n. r.unit ≡ n) ("Second" ∷ "Minute" ∷ "Hour" ∷ "Day" ∷ [])
          × All IsSelector r.client_selectors)

  validate_rule_iff : (r : RateLimitRule) → Passes (validate_rule std r) ↔ IsRule r
  unfolding validate_rule
  validate_rule_iff r = chain_iff _ _ (guard_as _ _ (positive_iff r.requests)) (
      chain_iff _ _ (guard_as _ _ (one_of_iff r.unit ("Second" ∷ "Minute" ∷ "Hour" ∷ "Day" ∷ [])))
        (each_iff IsSelector _ r.client_selectors validate_selector_iff))

  abbrev pub IsRateLimit : RateLimitConfig → Type 0
  IsRateLimit c =
      (rules : List RateLimitRule) × (c.global ≡ some rules) × ((rules ≢ []) × All IsRule rules)

  validate_rules_iff :
      (o : Option (List RateLimitRule))
      → Passes (validate_rules std o)
        ↔ ((rules : List RateLimitRule) × (o ≡ some rules) × ((rules ≢ []) × All IsRule rules))
  unfolding validate_rules
  validate_rules_iff none = (λ h. absurd (cc h), λ (r, e, p). absurd (cc e))
  validate_rules_iff (some rules) =
      let c =
        chain_iff _ _ (guard_as _ _ (is_nil_iff rules))
          (each_iff IsRule _ rules validate_rule_iff) in
      (
        λ h. (rules, refl, c.0 h),
        λ (q, e, p). c.1 (subst (λ r. (r ≢ []) × All IsRule r) (sym (some_inj e)) p),
      )

  -- A rate limit is accepted exactly when it has global rules, at least one, and each of them asks for
  -- more than 0 requests in a known unit, with selectors whose headers, source range (a CIDR or an IP
  -- address) and path are well formed.
  pub validate_rate_limit_iff :
      (c : RateLimitConfig) → Passes (validate_rate_limit std (some c)) ↔ IsRateLimit c
  unfolding validate_rate_limit
  validate_rate_limit_iff c = validate_rules_iff c.global
