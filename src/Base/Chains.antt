-- ===== src/Base/Chains.antt =====
-- When a chain of checks passes, one rule for each way to build a chain.
use mathlib.Core.Path.{◌≡◌, refl, subst}
use mathlib.Core.Logic.{◌≢◌, ◌↔◌, ◌⊎◌, inl, inr}
use mathlib.Core.Bool.{Bool, true, false, not, ◌&&◌, ◌||◌}
use mathlib.Core.Option.{Option, none, some}
use mathlib.Core.List.{List, [], ◌∷◌}
use Prim.Native.String.{String}
use text.Mathlib.Text.{◌==◌ as str_eq}
use text.Mathlib.TextEquality.{eq_iff}
use backend_v.Base.Tests.{some_inj, if◌then◌else◌}
use backend_v.Base.Lists.{All}
use backend_v.Base.Results.{Result, ok, err, ◌>>=◌, ◌>>◌, reject_if, with_bind, >>=-pass}

-- `if x != nil { check(*x) }`
abbrev pub if_set : {E A : Type 0} → Option A → (A → Result E (Unit {0})) → Result E (Unit {0})
if_set none f = ok tt
if_set (some a) f = f a

-- `for _, x := range xs { check(x) }`
abbrev pub each : {E A : Type 0} → (A → Result E (Unit {0})) → List A → Result E (Unit {0})
each f [] = ok tt
each f (x ∷ xs) = f x >> each f xs

-- A check passes.
abbrev pub Passes : {E : Type 0} → Result E (Unit {0}) → Type 0
Passes c = c ≡ ok tt

pub chain_iff :
    {E P Q : Type 0} (c k : Result E (Unit {0}))
    → Passes c ↔ P
    → Passes k ↔ Q
    → Passes (c >> k) ↔ (P × Q)
chain_iff (ok tt) k p q = (λ h. (p.0 refl, q.0 h), λ h. q.1 h.1)
chain_iff (err e) k p q = (λ h. absurd (cc h), λ h. absurd (cc (p.1 h.0)))

pub bind_iff :
    {E A : Type 0} {P Q : A → Type 0} (m : Result E A) (f : A → Result E (Unit {0}))
    → ((a : A) → (m ≡ ok a) ↔ P a)
    → ((a : A) → Passes (f a) ↔ Q a)
    → Passes (m >>= f) ↔ ((a : A) × P a × Q a)
bind_iff m f p q = (
  λ h. with_bind m f h (λ a e h. (a, (p a).0 e, (q a).0 h)),
  λ (a, x, y). >>=-pass m f a ((p a).1 x) ((q a).1 y),
)

pub guard_iff : {E : Type 0} (bad : Bool) (e : E) → Passes (reject_if bad e) ↔ (bad ≡ false)
guard_iff true e = (λ h. absurd (cc h), λ h. absurd (cc h))
guard_iff false e = (λ h. refl, λ h. refl)

pub guard_as :
    {E P : Type 0} (bad : Bool) (e : E) → (bad ≡ false) ↔ P → Passes (reject_if bad e) ↔ P
guard_as bad e p = (λ h. p.0 ((guard_iff bad e).0 h), λ h. (guard_iff bad e).1 (p.1 h))

pub if_iff :
    {E P : Type 0} (b : Bool) (c : Result E (Unit {0}))
    → Passes c ↔ P
    → Passes (if b then c else ok tt) ↔ (b ≡ true → P)
if_iff true c p = (λ h e. p.0 h, λ h. p.1 (h refl))
if_iff false c p = (λ h e. absurd (cc e), λ h. refl)

pub if_set_iff :
    {E A : Type 0} (P : A → Type 0) (o : Option A) (f : A → Result E (Unit {0}))
    → ((a : A) → Passes (f a) ↔ P a)
    → Passes (if_set o f) ↔ ((a : A) → o ≡ some a → P a)
if_set_iff P none f p = (λ h a e. absurd (cc e), λ h. refl)
if_set_iff P (some b) f p = (λ h a e. subst P (some_inj e) ((p b).0 h), λ h. (p b).1 (h b refl))

pub each_iff :
    {E A : Type 0} (P : A → Type 0) (f : A → Result E (Unit {0})) (xs : List A)
    → ((a : A) → Passes (f a) ↔ P a)
    → Passes (each f xs) ↔ All P xs
each_iff P f [] p = (λ h. tt, λ h. refl)
each_iff P f (x ∷ xs) p = chain_iff (f x) (each f xs) (p x) (each_iff P f xs p)

pub or_iff :
    {P Q : Type 0} (b r : Bool)
    → (b ≡ true) ↔ P
    → (not r ≡ false) ↔ Q
    → (not (b || r) ≡ false) ↔ (P ⊎ Q)
or_iff true r p q = (λ h. inl (p.0 refl), λ h. refl)
or_iff false r p q = (λ h. inr (q.0 h), λ h. elim h [ inl a ↦ absurd (cc (p.1 a)) | inr a ↦ q.1 a ])

-- A guard that passes when one of two tests holds, the first one negated in it.
pub unless_iff :
    {P Q : Type 0} (x w : Bool)
    → (x ≡ true) ↔ P
    → (w ≡ false) ↔ Q
    → ((not x && w) ≡ false) ↔ (P ⊎ Q)
unless_iff true w p q = (λ h. inl (p.0 refl), λ h. refl)
unless_iff false w p q =
    (λ h. inr (q.0 h), λ h. elim h [ inl a ↦ absurd (cc (p.1 a)) | inr a ↦ q.1 a ])

pub not_iff : {P : Type 0} (x : Bool) → (x ≡ true) ↔ P → (not x ≡ false) ↔ P
not_iff true p = (λ h. p.0 refl, λ h. refl)
not_iff false p = (λ h. absurd (cc h), λ h. absurd (cc (p.1 h)))

pub id_iff : (P : Type 0) → P ↔ P
id_iff P = (λ p. p, λ p. p)

-- A guard on three tests, which passes when the first two imply that the last fails.
pub both_imply_iff :
    {P Q R : Type 0} (x y z : Bool)
    → (x ≡ true) ↔ P
    → (y ≡ true) ↔ Q
    → (z ≡ false) ↔ R
    → (((x && y) && z) ≡ false) ↔ (P → Q → R)
both_imply_iff true true z p q r = (λ h a b. r.0 h, λ h. r.1 (h (p.0 refl) (q.0 refl)))
both_imply_iff true false z p q r = (λ h a b. absurd (cc (q.1 b)), λ h. refl)
both_imply_iff false y z p q r = (λ h a b. absurd (cc (p.1 a)), λ h. refl)

pub false_iff : {P : Type 0} (x : Bool) → (x ≡ true) ↔ P → (x ≡ false) ↔ (P → ⊥)
false_iff true p = (λ h. absurd (cc h), λ h. absurd (h (p.0 refl)))
false_iff false p = (λ h a. absurd (cc (p.1 a)), λ h. refl)

abbrev pub is_nil : {A : Type 0} → List A → Bool
is_nil [] = true
is_nil (x ∷ xs) = false

pub is_nil_iff : {A : Type 0} (xs : List A) → (is_nil xs ≡ false) ↔ (xs ≢ [])
is_nil_iff [] = (λ h. absurd (cc h), λ h. absurd (h refl))
is_nil_iff (x ∷ xs) = (λ h e. absurd (cc e), λ h. refl)

pub neither_iff :
    (s a b : String) → ((not (str_eq s a) && not (str_eq s b)) ≡ false) ↔ ((s ≡ a) ⊎ (s ≡ b))
neither_iff s a b = unless_iff (str_eq s a) _ (eq_iff s a) (not_iff (str_eq s b) (eq_iff s b))

-- A chain that ends in a value.
pub chain_to_iff :
    {E B P Q : Type 0} {x : B} (c : Result E (Unit {0})) (k : Result E B)
    → Passes c ↔ P
    → (k ≡ ok x) ↔ Q
    → ((c >> k) ≡ ok x) ↔ (P × Q)
chain_to_iff (ok tt) k p q = (λ h. (p.0 refl, q.0 h), λ h. q.1 h.1)
chain_to_iff (err e) k p q = (λ h. absurd (cc h), λ h. absurd (cc (p.1 h.0)))

-- `if s == a { check }`
pub if_eq_iff :
    {E P : Type 0} (s a : String) (c : Result E (Unit {0}))
    → Passes c ↔ P
    → Passes (if str_eq s a then c else ok tt) ↔ (s ≡ a → P)
if_eq_iff s a c p = (
  λ h e. (if_iff (str_eq s a) c p).0 h ((eq_iff s a).1 e),
  λ h. (if_iff (str_eq s a) c p).1 (λ e. h ((eq_iff s a).0 e)),
)
