-- ===== src/Traffic/Passes.antt =====
-- When a test of a text, or of a duration, passes.
use backend_v.Base.{
  some_inj, String, ◌≡◌, refl, sym, subst, ◌↔◌, Bool, false, Option, none, some, List, [], ◌∷◌, Any,
  not, str_eq, eq_iff, guard_iff, Passes, or_iff,
}
use backend_v.Traffic.Checks.{duration_where, one_of}
use backend_v.Base.Int.{ℤ}

pub duration_iff :
    (P : ℤ → Type 0) (o : Option ℤ) (bad : ℤ → Bool) (u r : String)
    → ((d : ℤ) → (bad d ≡ false) ↔ P d)
    → Passes (duration_where o bad u r) ↔ ((d : ℤ) × (o ≡ some d) × P d)
duration_iff P none bad u r p = (λ h. absurd (cc h), λ (d, e, q). absurd (cc e))
duration_iff P (some d) bad u r p = (
  λ h. (d, refl, (p d).0 ((guard_iff (bad d) r).0 h)),
  λ (d', e, q). (guard_iff (bad d) r).1 ((p d).1 (subst P (sym (some_inj e)) q)),
)

-- A test that the text is one of a list.
pub one_of_iff :
    (s : String) (names : List String) → (not (one_of s names) ≡ false) ↔ Any (λ n. s ≡ n) names
one_of_iff s [] = (λ h. absurd (cc h), λ h. absurd h)
one_of_iff s (n ∷ names) = or_iff (str_eq s n) (one_of s names) (eq_iff s n) (one_of_iff s names)
