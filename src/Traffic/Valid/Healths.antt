-- ===== src/Traffic/Valid/Healths.antt =====
-- `HealthCheckConfig.Validate` against what a valid health check is.
use backend_v.Base.{
  true, false, some_inj, not_iff, guard_as, chain_iff, false_iff, unless_iff, each_iff, Passes,
  if_set_iff, if_eq_iff, All, Any, String, ◌≡◌, refl, sym, subst, ◌≢◌, ◌↔◌, ◌⊎◌, Option, none, some,
  [], ◌∷◌, arith, str_eq, eq_iff,
}
use backend_v.Base.Int.{ℤ, pos, outside}
use backend_v.Traffic.Passes.{duration_iff, one_of_iff}
use backend_v.Traffic.Checks.{Std, any_duration, is_some}
use backend_v.Traffic.Health.{
  PassiveHealthCheckConfig, HealthCheckConfig, HttpActiveHealthCheckConfig, validate_http_check,
  validate_active, validate_passive, validate_health_check, ActiveHealthCheckConfig, health_methods,
}
use backend_v.Traffic.Valid.{IsStatus}

expected_code_iff : (n : ℤ) → (outside (pos 100) (pos 599) n ≡ false) ↔ IsStatus n
expected_code_iff n = (λ h. ground (arith, h), λ h. ground (arith, h))

abbrev pub IsHttpCheck : HttpActiveHealthCheckConfig → Type 0
IsHttpCheck h =
    (h.path ≢ "")
    × (((m : String) → h.method ≡ some m → Any (λ n. m ≡ n) health_methods)
        × All IsStatus h.expected_statuses)

validate_http_check_iff :
    (o : Option HttpActiveHealthCheckConfig)
    → Passes (validate_http_check o)
      ↔ ((h : HttpActiveHealthCheckConfig) × (o ≡ some h) × IsHttpCheck h)
unfolding validate_http_check
validate_http_check_iff none = (λ h. absurd (cc h), λ (r, e, p). absurd (cc e))
validate_http_check_iff (some h) =
    let c = chain_iff _ _ (guard_as _ _ (false_iff (str_eq h.path "") (eq_iff h.path ""))) (
      chain_iff _ _
        (if_set_iff (λ m. Any (λ n. m ≡ n) health_methods) h.method _
          (λ m. guard_as _ _ (one_of_iff m health_methods)))
        (each_iff IsStatus _ h.expected_statuses (λ n. guard_as _ _ (expected_code_iff n)))) in
    (λ p. (h, refl, c.0 p), λ (q, e, p). c.1 (subst IsHttpCheck (sym (some_inj e)) p))

is_some_iff : {A : Type 0} (o : Option A) → (is_some o ≡ true) ↔ ((a : A) × (o ≡ some a))
is_some_iff none = (λ h. absurd (cc h), λ (a, e). absurd (cc e))
is_some_iff (some a) = (λ h. (a, refl), λ h. refl)

module _ (std : Std) where
  -- A text that parses as a duration, where it is set.
  abbrev pub IsDuration : Option String → Type 0
  IsDuration o = (s : String) → o ≡ some s → (d : ℤ) × (std.parse_duration s ≡ some d)

  any_duration_iff :
      (s : String) → Passes (any_duration std s) ↔ ((d : ℤ) × (std.parse_duration s ≡ some d))
  any_duration_iff s =
      let i =
        duration_iff (λ d. Unit {0}) (std.parse_duration s) (λ d. false) "invalid duration" ""
          (λ d. (λ h. tt, λ h. refl)) in
      (λ h. ((i.0 h).0, (i.0 h).1), λ (d, e). i.1 (d, e, tt))

  abbrev pub IsActiveCheck : ActiveHealthCheckConfig → Type 0
  IsActiveCheck a =
      (a.type ≢ "")
      × (Any (λ n. a.type ≡ n) ("HTTP" ∷ "TCP" ∷ "GRPC" ∷ [])
          × ((a.type ≡ "HTTP"
                → (h : HttpActiveHealthCheckConfig) × (a.http ≡ some h) × IsHttpCheck h)
              × (IsDuration a.timeout × IsDuration a.interval)))

  validate_active_iff :
      (a : ActiveHealthCheckConfig) → Passes (validate_active std a) ↔ IsActiveCheck a
  unfolding validate_active
  validate_active_iff a =
      chain_iff _ _ (guard_as _ _ (false_iff (str_eq a.type "") (eq_iff a.type ""))) (
        chain_iff _ _ (guard_as _ _ (one_of_iff a.type ("HTTP" ∷ "TCP" ∷ "GRPC" ∷ []))) (
          chain_iff _ _ (if_eq_iff a.type "HTTP" _ (validate_http_check_iff a.http)) (
            chain_iff _ _ (if_set_iff _ a.timeout _ any_duration_iff)
              (if_set_iff _ a.interval _ any_duration_iff))))

  abbrev pub IsPassiveCheck : PassiveHealthCheckConfig → Type 0
  IsPassiveCheck p = IsDuration p.interval × IsDuration p.base_ejection_time

  validate_passive_iff :
      (p : PassiveHealthCheckConfig) → Passes (validate_passive std p) ↔ IsPassiveCheck p
  unfolding validate_passive
  validate_passive_iff p =
      chain_iff _ _ (if_set_iff _ p.interval _ any_duration_iff)
        (if_set_iff _ p.base_ejection_time _ any_duration_iff)

  abbrev pub IsHealthCheck : HealthCheckConfig → Type 0
  IsHealthCheck h =
      (((a : ActiveHealthCheckConfig) × (h.active ≡ some a))
        ⊎ ((p : PassiveHealthCheckConfig) × (h.passive ≡ some p)))
      × (((a : ActiveHealthCheckConfig) → h.active ≡ some a → IsActiveCheck a)
          × ((p : PassiveHealthCheckConfig) → h.passive ≡ some p → IsPassiveCheck p))

  -- A health check is accepted exactly when it is active or passive or both; an active one is of a
  -- known type, an HTTP one with a path, a known method and status codes from 100 to 599; and every
  -- duration that is set parses.
  pub validate_health_check_iff :
      (h : HealthCheckConfig) → Passes (validate_health_check std (some h)) ↔ IsHealthCheck h
  unfolding validate_health_check
  validate_health_check_iff h =
      chain_iff _ _
        (guard_as _ _ (
          unless_iff (is_some h.active) _ (is_some_iff h.active)
            (not_iff (is_some h.passive) (is_some_iff h.passive))))
        (chain_iff _ _ (if_set_iff IsActiveCheck h.active _ validate_active_iff)
          (if_set_iff IsPassiveCheck h.passive _ validate_passive_iff))
