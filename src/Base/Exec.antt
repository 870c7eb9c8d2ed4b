-- ===== src/Base/Exec.antt =====
-- Actions that mutate a world and may fail: what was written before a failure stays written.
use mathlib.Core.Path.{◌≡◌, refl, ap}
use mathlib.Core.Bool.{Bool, true, false}
use mathlib.Core.Option.{Option, none, some}
use backend_v.Base.Results.{Result, ok, err}

abbrev pub Exec : Type 0 → Type 0 → Type 0 → Type 0
Exec E W A = W → Result E A × W

module _ {E W : Type 0} where
  abbrev pub pure : {A : Type 0} → A → Exec E W A
  pure a w = (ok a, w)

  abbrev pub fail : {A : Type 0} → E → Exec E W A
  fail e w = (err e, w)

  -- A call that only reads.
  abbrev pub read : {A : Type 0} → (W → Result E A) → Exec E W A
  read m w = (m w, w)

  -- `if bad { return e }`
  abbrev pub fail_if : Bool → E → Exec E W (Unit {0})
  fail_if true e w = (err e, w)
  fail_if false e w = (ok tt, w)

  -- A call whose error is dropped.
  abbrev pub best_effort : {A : Type 0} → Exec E W A → Exec E W (Unit {0})
  best_effort m w = (ok tt, (m w).1)

  abbrev pub continue : {A B : Type 0} → Result E A × W → (A → Exec E W B) → Result E B × W
  continue (ok a, w) f = f a w
  continue (err e, w) f = (err e, w)

  infixl 5 ◌>>=◌ ◌>>◌
  abbrev pub ◌>>=◌ : {A B : Type 0} → Exec E W A → (A → Exec E W B) → Exec E W B
  ◌>>=◌ m f w = continue (m w) f

  abbrev pub ◌>>◌ : {B : Type 0} → Exec E W (Unit {0}) → Exec E W B → Exec E W B
  m >> k = m >>= λ _. k

-- A value that may be absent, with the error of its absence.
abbrev pub or_fail : {E W A : Type 0} → Option A → E → Exec E W A
or_fail none e w = (err e, w)
or_fail (some a) e w = (ok a, w)

module _ {E W : Type 0} where
  -- What holds of the world after a step, and after whatever follows a successful one.
  pub continue-keeps :
      {A B : Type 0} (P : W → Type 0) (o : Result E A × W) (f : A → Exec E W B)
      → P o.1
      → ((a : A) → o.0 ≡ ok a → P (f a o.1).1)
      → P (continue o f).1
  continue-keeps P (ok a, w) f h k = k a refl
  continue-keeps P (err e, w) f h k = h

  -- The same for a step whose success proves more.
  pub step-keeps :
      {A : Type 0} (P : W → Type 0) (o : Result E A × W)
      → ((a : A) → o.0 ≡ ok a → P o.1)
      → ((e : E) → o.0 ≡ err e → P o.1)
      → P o.1
  step-keeps P (ok a, w) h k = h a refl
  step-keeps P (err e, w) h k = k e refl

  -- Two ways to go on that agree after a step.
  pub continue-same :
      {A B : Type 0} (o : Result E A × W) (f g : A → Exec E W B)
      → ((a : A) → o.0 ≡ ok a → f a o.1 ≡ g a o.1)
      → continue o f ≡ continue o g
  continue-same (ok a, w) f g h = h a refl
  continue-same (err e, w) f g h = refl

  -- The same after a guard.
  pub unless-same :
      {B : Type 0} (bad : Bool) (e : E) (w : W) (f g : Exec E W B)
      → f w ≡ g w
      → continue (fail_if bad e w) (λ u. f) ≡ continue (fail_if bad e w) (λ u. g)
  unless-same true e w f g h = refl
  unless-same false e w f g h = h

  -- A chain that returned, with what its first step returned.
  pub with_step :
      {A B C : Type 0} (o : Result E A × W) (f : A → Exec E W B) {b : B} {w : W}
      → continue o f ≡ (ok b, w)
      → ((a : A) → o.0 ≡ ok a → f a o.1 ≡ (ok b, w) → C)
      → C
  with_step (ok a, v) f h k = k a refl h
  with_step (err e, v) f h k = absurd (cc (ap (λ o. o.0) h))

  -- The same past a guard, and past a step that only reads.
  pub with_unless :
      {B C : Type 0} (bad : Bool) (e : E) (v : W) (f : Exec E W B) {b : B} {w : W}
      → continue (fail_if bad e v) (λ u. f) ≡ (ok b, w)
      → (f v ≡ (ok b, w) → C)
      → C
  with_unless true e v f h k = absurd (cc (ap (λ o. o.0) h))
  with_unless false e v f h k = k h

  -- What a guard that was passed tells.
  pub unless-passed :
      {B : Type 0} (bad : Bool) (e : E) (v : W) (f : Exec E W B) {b : B} {w : W}
      → continue (fail_if bad e v) (λ u. f) ≡ (ok b, w)
      → bad ≡ false
  unless-passed true e v f h = absurd (cc (ap (λ o. o.0) h))
  unless-passed false e v f h = refl
