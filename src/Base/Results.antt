-- ===== src/Base/Results.antt =====
-- A Go result: a value or an error.
use mathlib.Core.Path.{◌≡◌, refl}
use mathlib.Core.Bool.{Bool, true, false}

pub data Result (E A : Type 0) : Type 0 where
  err : E → Result E A
  ok : A → Result E A

-- The rest of a Go function after `if err != nil { return err }`.
infixl 5 ◌>>=◌
abbrev pub ◌>>=◌ : {E A B : Type 0} → Result E A → (A → Result E B) → Result E B
err failure >>= rest = err failure
ok value >>= rest = rest value

infixl 5 ◌>>◌
abbrev pub ◌>>◌ : {E B : Type 0} → Result E (Unit {0}) → Result E B → Result E B
first >> rest = first >>= λ _. rest

-- `if bad { return e }`
abbrev pub reject_if : {E : Type 0} → Bool → E → Result E (Unit {0})
reject_if true e = err e
reject_if false e = ok tt

pub >>=-eq-ok :
    {E A B : Type 0} (call : Result E A) (rest : A → Result E B) {b : B}
    → (call >>= rest) ≡ ok b
    → (a : A) × (call ≡ ok a) × (rest a ≡ ok b)
>>=-eq-ok (err e) rest h = cc
>>=-eq-ok (ok a) rest h = (a, refl, h)

-- What is left of a chain whose guard has passed.
pub reject_if-eq-ok :
    {E B : Type 0} (bad : Bool) (e : E) (k : Result E B) {x : B}
    → (reject_if bad e >> k) ≡ ok x
    → (bad ≡ false) × (k ≡ ok x)
reject_if-eq-ok true e k h = cc
reject_if-eq-ok false e k h = (refl, h)

-- A chain goes on past a guard that passes, and past a step that returns.
pub reject_if-pass :
    {E B : Type 0} (bad : Bool) (e : E) (k : Result E B) {x : B}
    → bad ≡ false
    → k ≡ ok x
    → (reject_if bad e >> k) ≡ ok x
reject_if-pass true e k b h = cc
reject_if-pass false e k b h = h

pub >>=-pass :
    {E A B : Type 0} (m : Result E A) (f : A → Result E B) (a : A) {x : B}
    → m ≡ ok a
    → f a ≡ ok x
    → (m >>= f) ≡ ok x
>>=-pass m f a e h = rw e h

-- The same inversions with what they yield as variables.
pub with_bind :
    {E A B C : Type 0} (m : Result E A) (f : A → Result E B) {x : B}
    → (m >>= f) ≡ ok x
    → ((a : A) → m ≡ ok a → f a ≡ ok x → C)
    → C
with_bind (ok a) f h k = k a refl h
with_bind (err e) f h k = absurd (cc h)

pub with_guard :
    {E B C : Type 0} (bad : Bool) (e : E) (k : Result E B) {x : B}
    → (reject_if bad e >> k) ≡ ok x
    → (bad ≡ false → k ≡ ok x → C)
    → C
with_guard true e k h c = absurd (cc h)
with_guard false e k h c = c refl h

pub ok_inj : {E A : Type 0} {a b : A} → ◌≡◌ {A = Result E A} (ok a) (ok b) → a ≡ b
ok_inj h = cc
