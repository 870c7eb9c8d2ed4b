-- ===== src/Traffic/Retry.antt =====
-- `RetryConfig.Validate`.
use backend_v.Base.{
  ◌>>=◌, ◌>>◌, reject_if, if◌then◌else◌, Result, err, ok, String, Bool, not, ◌&&◌, Option, none,
  some, List, [], ◌∷◌, each, if_set,
}
use backend_v.Traffic.Checks.{Std, Check, duration_where, negative, one_of}
use backend_v.Base.Int.{ltb_ℤ, ℤ, pos, outside}

pub record RetryOn : Type 0 where
  pub http_status_codes : List ℤ
  pub triggers : List String

pub record BackOffPolicy : Type 0 where
  pub base_interval : Option String
  pub max_interval : Option String

pub record PerRetryPolicy : Type 0 where
  pub back_off : Option BackOffPolicy
  pub timeout : Option String

pub record RetryConfig : Type 0 where
  pub num_retries : Option ℤ
  pub retry_on : Option RetryOn
  pub per_retry_policy : Option PerRetryPolicy

abbrev pub valid_retry_triggers : List String
valid_retry_triggers =
    "5xx" ∷ "gateway-error" ∷ "reset" ∷ "reset-before-request" ∷ "connect-failure" ∷ "retriable-4xx"
    ∷ "refused-stream" ∷ "retriable-status-codes" ∷ "cancelled" ∷ "deadline-exceeded" ∷ "internal"
    ∷ "resource-exhausted" ∷ "unavailable" ∷ []

unfoldable pub validate_retry_on : RetryOn → Check
validate_retry_on r = do
  each (λ code. reject_if (outside (pos 100) (pos 599) code) "invalid HTTP status code")
      r.http_status_codes
  each (λ t. reject_if (not (one_of t valid_retry_triggers)) "invalid retry trigger") r.triggers

abbrev pub not_positive : ℤ → Bool
not_positive d = not (ltb_ℤ (pos 0) d)

module _ (std : Std) where
  -- The duration of an interval, 0 if it is not set.
  abbrev pub parsed_interval : Option ℤ → String → String → Result String ℤ
  parsed_interval none unparsed refused = err unparsed
  parsed_interval (some d) unparsed refused = if not_positive d then err refused else ok d

  unfoldable pub interval : Option String → String → String → Result String ℤ
  interval none unparsed refused = ok (pos 0)
  interval (some s) unparsed refused = parsed_interval (std.parse_duration s) unparsed refused

  unfoldable pub validate_back_off : BackOffPolicy → Check
  validate_back_off b = do
    base ←
        interval b.base_interval "invalid backoff baseInterval"
          "backoff baseInterval must be positive"
    max ←
        interval b.max_interval "invalid backoff maxInterval" "backoff maxInterval must be positive"
    reject_if ((ltb_ℤ (pos 0) base && ltb_ℤ (pos 0) max) && ltb_ℤ max base)
        "backoff maxInterval must be >= baseInterval"

  unfoldable pub validate_per_retry : PerRetryPolicy → Check
  validate_per_retry p = do
    if_set p.timeout (λ s.
        duration_where (std.parse_duration s) not_positive "invalid per-retry timeout"
          "per-retry timeout must be positive")
    if_set p.back_off validate_back_off

  unfoldable pub validate_retry : Option RetryConfig → Check
  validate_retry none = ok tt
  validate_retry (some r) = do
    if_set r.num_retries (λ n. reject_if (negative n) "numRetries must be >= 0")
    if_set r.retry_on validate_retry_on
    if_set r.per_retry_policy validate_per_retry
