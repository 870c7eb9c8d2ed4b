-- ===== src/Traffic/Valid/Retries.antt =====
-- `RetryConfig.Validate` against what a valid retry policy is.
use backend_v.Base.{
  Any, All, ok, ok_inj, String, ◌≡◌, refl, sym, ◌↔◌, false, ◌&&◌, Option, none, some, arith,
  if◌then◌else◌, some_inj, err, ap, subst, Bool, true, not_iff, guard_as, each_iff, bind_iff,
  chain_iff, if_set_iff, Passes, both_imply_iff,
}
use backend_v.Base.Int.{ℤ, ltb_ℤ, pos, ltb_ℤ_iff, ◌≤ℤ◌, ◌<ℤ◌, outside, ltb_ge}
use backend_v.Traffic.Passes.{one_of_iff, duration_iff}
use backend_v.Traffic.Checks.{Std, negative}
use backend_v.Traffic.Retry.{
  validate_retry_on, not_positive, BackOffPolicy, validate_back_off, interval, RetryOn,
  parsed_interval, valid_retry_triggers, validate_per_retry, PerRetryPolicy, RetryConfig,
  validate_retry,
}
use backend_v.Traffic.Valid.{IsStatus, negative_iff, NotNegative}

positive_iff : (n : ℤ) → (not_positive n ≡ false) ↔ (pos 0 <ℤ n)
positive_iff n = not_iff (ltb_ℤ (pos 0) n) (ltb_ℤ_iff (pos 0) n)

outside_iff : (n : ℤ) → (outside (pos 100) (pos 599) n ≡ false) ↔ IsStatus n
outside_iff n = (λ h. ground (arith, h), λ h. ground (arith, h))

abbrev pub IsRetryOn : RetryOn → Type 0
IsRetryOn r =
    All IsStatus r.http_status_codes × All (λ t. Any (λ n. t ≡ n) valid_retry_triggers) r.triggers

validate_retry_on_iff : (r : RetryOn) → Passes (validate_retry_on r) ↔ IsRetryOn r
unfolding validate_retry_on
validate_retry_on_iff r =
    chain_iff _ _ (each_iff IsStatus _ r.http_status_codes (λ n. guard_as _ _ (outside_iff n))) (
      each_iff (λ t. Any (λ n. t ≡ n) valid_retry_triggers) _ r.triggers
        (λ t. guard_as _ _ (one_of_iff t valid_retry_triggers)))

module _ (std : Std) where
  -- The interval that a text stands for: none where it is not set, else a positive duration.
  abbrev pub IsInterval : Option String → ℤ → Type 0
  IsInterval none d = d ≡ pos 0
  IsInterval (some s) d = (std.parse_duration s ≡ some d) × (pos 0 <ℤ d)

  parsed_lem :
      (o : Option ℤ) (u r : String) (d : ℤ)
      → (parsed_interval std o u r ≡ ok d) ↔ ((o ≡ some d) × (pos 0 <ℤ d))
  parsed_lem none u r d = (λ h. absurd (cc h), λ (e, p). absurd (cc e))
  parsed_lem (some n) u r d = choose (not_positive n) (positive_iff n)
    where
      choose :
          (b : Bool)
          → (b ≡ false) ↔ (pos 0 <ℤ n)
          → ((if b then err r else ok n) ≡ ok d) ↔ ((some n ≡ some d) × (pos 0 <ℤ d))
      choose true q = (
        λ h. absurd (cc h),
        λ (e, p). absurd (cc (q.1 (subst (λ m. pos 0 <ℤ m) (sym (some_inj e)) p))),
      )
      choose false q = (
        λ h. (ap some (ok_inj h), subst (λ m. pos 0 <ℤ m) (ok_inj h) (q.0 refl)),
        λ (e, p). ap ok (some_inj e),
      )

  interval_lem :
      (o : Option String) (u r : String) (d : ℤ) → (interval std o u r ≡ ok d) ↔ IsInterval o d
  unfolding interval
  interval_lem none u r d = (λ h. sym (ok_inj h), λ h. rw h refl)
  interval_lem (some s) u r d = parsed_lem (std.parse_duration s) u r d

  -- The two intervals in order, where both are set.
  abbrev pub InOrder : ℤ → ℤ → Type 0
  InOrder base max = pos 0 <ℤ base → pos 0 <ℤ max → base ≤ℤ max

  abbrev pub IsBackOff : BackOffPolicy → Type 0
  IsBackOff b =
      (base : ℤ) × IsInterval b.base_interval base
      × ((max : ℤ) × IsInterval b.max_interval max × InOrder base max)

  order_iff :
      (base max : ℤ)
      → (((ltb_ℤ (pos 0) base && ltb_ℤ (pos 0) max) && ltb_ℤ max base) ≡ false) ↔ InOrder base max
  order_iff base max =
      both_imply_iff (ltb_ℤ (pos 0) base) (ltb_ℤ (pos 0) max) (ltb_ℤ max base)
        (ltb_ℤ_iff (pos 0) base) (ltb_ℤ_iff (pos 0) max) (ltb_ge max base)

  validate_back_off_iff : (b : BackOffPolicy) → Passes (validate_back_off std b) ↔ IsBackOff b
  unfolding validate_back_off
  validate_back_off_iff b = bind_iff _ _ (interval_lem b.base_interval _ _) (λ base.
      bind_iff _ _ (interval_lem b.max_interval _ _) (λ max. guard_as _ _ (order_iff base max)))

  abbrev pub IsPerRetry : PerRetryPolicy → Type 0
  IsPerRetry p =
      ((s : String) → p.timeout ≡ some s → (d : ℤ) × (std.parse_duration s ≡ some d) × (pos 0 <ℤ d))
      × ((b : BackOffPolicy) → p.back_off ≡ some b → IsBackOff b)

  validate_per_retry_iff : (p : PerRetryPolicy) → Passes (validate_per_retry std p) ↔ IsPerRetry p
  unfolding validate_per_retry
  validate_per_retry_iff p =
      chain_iff _ _
        (if_set_iff _ p.timeout _ (λ s. duration_iff _ (std.parse_duration s) _ _ _ positive_iff))
        (if_set_iff IsBackOff p.back_off _ validate_back_off_iff)

  abbrev pub IsRetry : RetryConfig → Type 0
  IsRetry r =
      NotNegative r.num_retries
      × (((o : RetryOn) → r.retry_on ≡ some o → IsRetryOn o)
          × ((p : PerRetryPolicy) → r.per_retry_policy ≡ some p → IsPerRetry p))

  -- A retry policy is accepted exactly when the number of retries, if set, is at least 0; the status
  -- codes lie in 100 to 599 and the triggers are known; and the timeout and the intervals of the
  -- backoff, where set, parse as positive durations, the base interval at most the maximal one.
  pub validate_retry_iff : (r : RetryConfig) → Passes (validate_retry std (some r)) ↔ IsRetry r
  unfolding validate_retry
  validate_retry_iff r =
      chain_iff _ _ (if_set_iff _ r.num_retries _ (λ n. guard_as (negative n) _ (negative_iff n))) (
        chain_iff _ _ (if_set_iff IsRetryOn r.retry_on _ validate_retry_on_iff)
          (if_set_iff IsPerRetry r.per_retry_policy _ validate_per_retry_iff))
