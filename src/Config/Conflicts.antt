-- ===== src/Config/Conflicts.antt =====
-- The two checks for conflicting matchers, and the comparison of matchers that both use
-- (internal/services/route_validation.go).
use backend_v.Base.{
  if◌then◌else◌, false_iff, Passes, ok_inj, ok, err, ℕ, ◌≡◌, refl, sym, ap, ◌≢◌, ◌↔◌, Bool, true,
  false, Option, none, some, List, [], ◌∷◌, arith, eq_iff,
}
use backend_v.Config.Model.{RouteMatch, HeaderMatch, RouteConfig}
use backend_v.Config.Matchers.{
  Key, Folding, check_matcher_conflicts, same_key, conflicts_among, excluded, first_conflict,
  validate_matcher_conflict, first_conflicts, keys_equal, header_matches_equal, header_key,
}
use backend_v.Traffic.Checks.{Check}
use backend_v.Route.Status.{Route}

one_test :
    {B : Type 0} (e b : Bool) (rest : Check) (x : B) (xs : List B)
    → Passes rest ↔ (xs ≡ [])
    → Passes
        (if e then rest else if b then err "route matcher conflicts with existing route" else rest)
      ↔ ((if e then xs else if b then x ∷ xs else xs) ≡ [])
one_test true b rest x xs i = i
one_test false true rest x xs i = (λ h. absurd (cc h), λ h. absurd (cc h))
one_test false false rest x xs i = i

no_conflict_iff :
    (folding : Folding) (m : RouteMatch) (exclude : Option ℕ) (routes : List (Route RouteConfig))
    → Passes (first_conflict folding m exclude routes)
      ↔ (conflicts_among folding m exclude routes ≡ [])
unfolding first_conflict conflicts_among
no_conflict_iff folding m exclude [] = (λ h. refl, λ h. refl)
no_conflict_iff folding m exclude (r ∷ rs) =
    one_test (excluded folding exclude r) (first_conflicts folding m r.config.matches) _ _ _
      (no_conflict_iff folding m exclude rs)

-- For a configuration with a first matcher, `validateMatcherConflict` lets it through exactly when
-- `CheckMatcherConflicts` succeeds with no conflict of that matcher, failed reads included.
pub conflicts_agree :
    (folding : Folding) (listed : Option (List (Route RouteConfig))) (c : RouteConfig)
    (exclude : Option ℕ) (m : RouteMatch) (ms : List RouteMatch)
    → c.matches ≡ m ∷ ms
    → Passes (validate_matcher_conflict folding listed c exclude)
      ↔ (check_matcher_conflicts folding listed m exclude ≡ ok [])
unfolding validate_matcher_conflict check_matcher_conflicts
conflicts_agree folding none c exclude m ms e = rw e (λ h. absurd (cc h), λ h. absurd (cc h))
conflicts_agree folding (some routes) c exclude m ms e =
    let i = no_conflict_iff folding m exclude routes in
    rw e (λ h. ap ok (i.0 h), λ h. i.1 (ok_inj h))

same_key_iff : (k l : Key) → (same_key k l ≡ true) ↔ (k ≡ l)
same_key_iff k l = (
  λ h.
      fields ((eq_iff k.name l.name).0 (ground (arith, h)))
        ((eq_iff k.typ l.typ).0 (ground (arith, h)))
        ((eq_iff k.value l.value).0 (ground (arith, h))),
  λ h. ground (
    arith,
    (eq_iff k.name l.name).1 (ap (λ x. x.name) h),
    (eq_iff k.typ l.typ).1 (ap (λ x. x.typ) h),
    (eq_iff k.value l.value).1 (ap (λ x. x.value) h),
  ),
)
  where
    fields : k.name ≡ l.name → k.typ ≡ l.typ → k.value ≡ l.value → k ≡ l
    fields e f g = λ i. record { name = e i; typ = f i; value = g i }

same_key-false : (k l : Key) → (k ≢ l) → same_key k l ≡ false
same_key-false k l n = (false_iff (same_key k l) (same_key_iff k l)).1 n

-- The comparison of headers is not symmetric: for two headers with different keys, the pair of both
-- equals the pair that repeats the first, but not the other way round.
pub repeated_header :
    (folding : Folding) (h k : HeaderMatch)
    → header_key folding h ≢ header_key folding k
    → (header_matches_equal folding (h ∷ k ∷ []) (h ∷ h ∷ []) ≡ true)
      × (header_matches_equal folding (h ∷ h ∷ []) (h ∷ k ∷ []) ≡ false)
unfolding header_matches_equal keys_equal
repeated_header folding h k n =
    let same = (same_key_iff (header_key folding h) (header_key folding h)).1 refl in
    let other = same_key-false (header_key folding k) (header_key folding h) (λ e. n (sym e)) in
    (rw (same) refl, rw (same, other) refl)
