-- ===== src/Traffic/Health.antt =====
-- `HealthCheckConfig.Validate`, with its active and passive parts.
use backend_v.Base.{
  ◌>>◌, reject_if, if◌then◌else◌, ok, err, String, not, ◌&&◌, Option, none, some, List, [], ◌∷◌,
  str_eq, each, if_set,
}
use backend_v.Traffic.Checks.{Std, Check, is_some, any_duration, one_of}
use backend_v.Base.Int.{pos, ℤ, outside}

pub record HttpActiveHealthCheckConfig : Type 0 where
  pub path : String
  pub method : Option String
  pub expected_statuses : List ℤ

pub record ActiveHealthCheckConfig : Type 0 where
  pub timeout : Option String
  pub interval : Option String
  pub type : String
  pub http : Option HttpActiveHealthCheckConfig

pub record PassiveHealthCheckConfig : Type 0 where
  pub interval : Option String
  pub base_ejection_time : Option String

pub record HealthCheckConfig : Type 0 where
  pub active : Option ActiveHealthCheckConfig
  pub passive : Option PassiveHealthCheckConfig

abbrev pub health_methods : List String
health_methods = "GET" ∷ "HEAD" ∷ "POST" ∷ "PUT" ∷ "DELETE" ∷ "OPTIONS" ∷ "PATCH" ∷ []

unfoldable pub validate_http_check : Option HttpActiveHealthCheckConfig → Check
validate_http_check none = err "HTTP health check requires a path"
validate_http_check (some h) = do
  reject_if (str_eq h.path "") "HTTP health check requires a path"
  if_set h.method (λ m. reject_if (not (one_of m health_methods)) "invalid HTTP method")
  each (λ code. reject_if (outside (pos 100) (pos 599) code) "expected status must be 100-599")
      h.expected_statuses

module _ (std : Std) where
  unfoldable pub validate_active : ActiveHealthCheckConfig → Check
  validate_active a = do
    reject_if (str_eq a.type "") "type is required"
    reject_if (not (one_of a.type ("HTTP" ∷ "TCP" ∷ "GRPC" ∷ []))) "type must be HTTP, TCP, or GRPC"
    if str_eq a.type "HTTP" then validate_http_check a.http else ok tt
    if_set a.timeout (any_duration std)
    if_set a.interval (any_duration std)

  unfoldable pub validate_passive : PassiveHealthCheckConfig → Check
  validate_passive p = do
    if_set p.interval (any_duration std)
    if_set p.base_ejection_time (any_duration std)

  unfoldable pub validate_health_check : Option HealthCheckConfig → Check
  validate_health_check none = ok tt
  validate_health_check (some h) = do
    reject_if (not (is_some h.active) && not (is_some h.passive))
        "at least one of active or passive health check must be configured"
    if_set h.active validate_active
    if_set h.passive validate_passive
