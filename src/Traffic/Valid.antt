-- ===== src/Traffic/Valid.antt =====
-- What a valid policy is, stated apart from the code, and the validators against it.
pub mod Rates
pub mod Retries
pub mod Healths
use backend_v.Base.{
  some_inj, String, ◌≡◌, refl, sym, subst, ◌↔◌, false, Option, none, some, arith, ◌⊎◌, guard_as,
  chain_iff, if_set_iff, Passes, neither_iff, if_eq_iff,
}
use backend_v.Base.Int.{◌≤ℤ◌, ltb_ℤ, pos, ℤ, ltb_ge}
use backend_v.Traffic.Checks.{negative}
use backend_v.Traffic.Balance.{CircuitBreakerConfig, not_negative, validate_circuit_breaker}
use backend_v.Traffic.Faults.{
  StatusCodeRange, no_status, validate_range, StatusCodeMatch, validate_status_code, validate_value,
}

-- A bound that is at least 0, where it is set.
abbrev pub NotNegative : Option ℤ → Type 0
NotNegative o = (n : ℤ) → o ≡ some n → pos 0 ≤ℤ n

pub negative_iff : (n : ℤ) → (negative n ≡ false) ↔ (pos 0 ≤ℤ n)
negative_iff n = ground arith

not_negative_iff : (o : Option ℤ) (e : String) → Passes (not_negative o e) ↔ NotNegative o
not_negative_iff o e =
    if_set_iff (λ n. pos 0 ≤ℤ n) o _ (λ n. guard_as (negative n) e (negative_iff n))

-- A circuit breaker is accepted exactly when every threshold that it sets is at least 0.
pub validate_circuit_breaker_iff :
    (cb : CircuitBreakerConfig)
    → Passes (validate_circuit_breaker (some cb)) ↔ (
        NotNegative cb.max_connections
        × (NotNegative cb.max_pending_requests
            × (NotNegative cb.max_parallel_requests
                × (NotNegative cb.max_parallel_retries
                    × NotNegative cb.max_requests_per_connection))))
unfolding validate_circuit_breaker
validate_circuit_breaker_iff cb = chain_iff _ _ (not_negative_iff cb.max_connections _) (
    chain_iff _ _ (not_negative_iff cb.max_pending_requests _) (
      chain_iff _ _ (not_negative_iff cb.max_parallel_requests _) (
        chain_iff _ _ (not_negative_iff cb.max_parallel_retries _)
          (not_negative_iff cb.max_requests_per_connection _))))

abbrev pub IsStatus : ℤ → Type 0
IsStatus n = (pos 100 ≤ℤ n) × (n ≤ℤ pos 599)

no_status_iff : (n : ℤ) → (no_status n ≡ false) ↔ IsStatus n
no_status_iff n = (λ h. ground (arith, h), λ h. ground (arith, h))

abbrev pub IsRange : StatusCodeRange → Type 0
IsRange r = IsStatus r.start × (IsStatus r.end × (r.start ≤ℤ r.end))

validate_range_iff :
    (o : Option StatusCodeRange)
    → Passes (validate_range o) ↔ ((r : StatusCodeRange) × (o ≡ some r) × IsRange r)
unfolding validate_range
validate_range_iff none = (λ h. absurd (cc h), λ (r, e, p). absurd (cc e))
validate_range_iff (some r) =
    let c = chain_iff _ _ (guard_as _ _ (no_status_iff r.start)) (
      chain_iff _ _ (guard_as _ _ (no_status_iff r.end))
        (guard_as (ltb_ℤ r.end r.start) _ (ltb_ge r.end r.start))) in
    (λ h. (r, refl, c.0 h), λ (q, e, p). c.1 (subst IsRange (sym (some_inj e)) p))

validate_value_iff :
    (o : Option ℤ) → Passes (validate_value o) ↔ ((n : ℤ) × (o ≡ some n) × IsStatus n)
unfolding validate_value
validate_value_iff none = (λ h. absurd (cc h), λ (n, e, p). absurd (cc e))
validate_value_iff (some m) =
    let c = guard_as (no_status m) _ (no_status_iff m) in
    (λ h. (m, refl, c.0 h), λ (n, e, p). c.1 (subst IsStatus (sym (some_inj e)) p))

-- The status codes that an override may match: a value, or a range that is not empty.
abbrev pub IsStatusCodeMatch : StatusCodeMatch → Type 0
IsStatusCodeMatch s =
    ((s.type ≡ "Value") ⊎ (s.type ≡ "Range"))
    × ((s.type ≡ "Value" → (n : ℤ) × (s.value ≡ some n) × IsStatus n)
        × (s.type ≡ "Range" → (r : StatusCodeRange) × (s.range ≡ some r) × IsRange r))

-- A matcher of status codes is accepted exactly when its type is Value or Range and the field that
-- the type asks for is set and lies in 100 to 599, a range with its start at most its end.
pub validate_status_code_iff :
    (s : StatusCodeMatch) → Passes (validate_status_code s) ↔ IsStatusCodeMatch s
unfolding validate_status_code
validate_status_code_iff s = chain_iff _ _ (guard_as _ _ (neither_iff s.type "Value" "Range")) (
    chain_iff _ _ (if_eq_iff s.type "Value" _ (validate_value_iff s.value))
      (if_eq_iff s.type "Range" _ (validate_range_iff s.range)))
