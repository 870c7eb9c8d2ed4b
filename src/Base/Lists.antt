-- ===== src/Base/Lists.antt =====
-- Lists measured by native numbers, Boolean quantifiers over lists and their logical reading.
use Prim.Native.Nat.{ℕ, suc}
use mathlib.Core.Path.{◌≡◌, refl}
use mathlib.Core.Logic.{◌⊎◌, inl, inr}
use mathlib.Core.Bool.{Bool, true, false, ◌&&◌, ◌||◌}
use mathlib.Core.List.{List, [], ◌∷◌, ◌++◌}
use native.Mathlib.Omega.{arith}
use backend_v.Base.Tests.{◌==◌, ==_iff, ==_refl, if◌then◌else◌}

module _ {ℓ} {A : Type ℓ} where
  abbrev pub length : List A → ℕ
  length [] = 0
  length (x ∷ xs) = suc (length xs)

  -- Does some item, does each item, pass the test?
  abbrev pub any : (A → Bool) → List A → Bool
  any p [] = false
  any p (x ∷ xs) = p x || any p xs

  abbrev pub all : (A → Bool) → List A → Bool
  all p [] = true
  all p (x ∷ xs) = p x && all p xs

  -- The items that pass the test.
  abbrev pub keep_if : (A → Bool) → List A → List A
  keep_if p [] = []
  keep_if p (x ∷ xs) = let rest = keep_if p xs in if p x then x ∷ rest else rest

-- `==` of Go strings, by their bytes.
abbrev pub same_bytes : List ℕ → List ℕ → Bool
same_bytes [] [] = true
same_bytes (c ∷ s) (d ∷ t) = c == d && same_bytes s t
same_bytes _ _ = false

pub same_bytes-eq : (s t : List ℕ) → same_bytes s t ≡ true → s ≡ t
same_bytes-eq [] [] h = refl
same_bytes-eq [] (d ∷ t) h = absurd (cc h)
same_bytes-eq (c ∷ s) [] h = absurd (cc h)
same_bytes-eq (c ∷ s) (d ∷ t) h =
    let e : c ≡ d = (==_iff c d).0 (ground (arith, h)) in
    let f : s ≡ t = same_bytes-eq s t (ground (arith, h)) in cc (e, f)

pub same_bytes_refl : (s : List ℕ) → same_bytes s s ≡ true
same_bytes_refl [] = refl
same_bytes_refl (c ∷ s) = rw (==_refl c, same_bytes_refl s) refl

-- A predicate that holds of every item, and of some item.
abbrev pub All {ℓ κ} : {A : Type ℓ} → (A → Type κ) → List A → Type κ
All P [] = Unit
All P (x ∷ xs) = P x × All P xs

abbrev pub Any {ℓ} : {A : Type ℓ} → (A → Type 0) → List A → Type 0
Any P [] = ⊥
Any P (x ∷ xs) = P x ⊎ Any P xs

module _ {ℓ} {A : Type ℓ} where
  pub All-map : {P Q : A → Type 0} → ((a : A) → P a → Q a) → (xs : List A) → All P xs → All Q xs
  All-map f [] h = h
  All-map f (x ∷ xs) h = (f x h.0, All-map f xs h.1)

  pub All-of : {P : A → Type 0} → ((a : A) → P a) → (xs : List A) → All P xs
  All-of f [] = tt
  All-of f (x ∷ xs) = (f x, All-of f xs)

  pub All-append : (P : A → Type 0) (xs ys : List A) → All P xs → All P ys → All P (xs ++ ys)
  All-append P [] ys left right = right
  All-append P (x ∷ xs) ys (here, left) right = (here, All-append P xs ys left right)

  -- The tests decide the predicates that they stand for.
  pub all-All : (p : A → Bool) (xs : List A) → all p xs ≡ true → All (λ x. p x ≡ true) xs
  all-All p [] h = tt
  all-All p (x ∷ xs) h = (ground arith, all-All p xs (ground arith))

  pub All-all : (p : A → Bool) (xs : List A) → All (λ x. p x ≡ true) xs → all p xs ≡ true
  All-all p [] h = refl
  All-all p (x ∷ xs) h = ground (arith, All-all p xs h.1, h.0)

  pub any-Any : (p : A → Bool) (xs : List A) → any p xs ≡ true → Any (λ x. p x ≡ true) xs
  any-Any p [] h = ground arith
  any-Any p (x ∷ xs) h = split (p x) refl h (any-Any p xs)
    where
      split :
          (b : Bool)
          → p x ≡ b
          → (b || any p xs) ≡ true
          → (any p xs ≡ true → Any (λ y. p y ≡ true) xs)
          → (p x ≡ true) ⊎ Any (λ y. p y ≡ true) xs
      split true e h' later = inl e
      split false e h' later = inr (later h')

  pub Any-any : (p : A → Bool) (xs : List A) → Any (λ x. p x ≡ true) xs → any p xs ≡ true
  Any-any p [] h = absurd h
  Any-any p (x ∷ xs) (inl h) = ground (arith, h)
  Any-any p (x ∷ xs) (inr h) = ground (arith, Any-any p xs h)

  -- Both parts of an empty list are empty.
  pub append-nil : (xs ys : List A) → xs ++ ys ≡ [] → (xs ≡ []) × (ys ≡ [])
  append-nil [] ys h = (refl, h)
  append-nil (x ∷ xs) ys h = absurd (cc h)

  pub keep-keep :
      (p q : A → Bool) (xs : List A) → keep_if p (keep_if q xs) ≡ keep_if (λ x. q x && p x) xs
  keep-keep p q [] = refl
  keep-keep p q (x ∷ xs) = split (q x) (p x) (keep-keep p q xs) refl
    where
      split :
          (b c : Bool)
          → keep_if p (keep_if q xs) ≡ keep_if (λ x. q x && p x) xs
          → p x ≡ c
          → keep_if p (if b then x ∷ keep_if q xs else keep_if q xs)
            ≡ (if b && c then x ∷ keep_if (λ x. q x && p x) xs else keep_if (λ x. q x && p x) xs)
      split true true h e = rw (e, h) refl
      split true false h e = rw e h
      split false c h e = h

  pub keep-same :
      (p q : A → Bool) (xs : List A) → All (λ x. p x ≡ q x) xs → keep_if p xs ≡ keep_if q xs
  keep-same p q [] h = refl
  keep-same p q (x ∷ xs) h = rw (h.0, keep-same p q xs h.1) refl

  pub keep-all : (p : A → Bool) (xs : List A) → All (λ x. p x ≡ true) xs → keep_if p xs ≡ xs
  keep-all p [] h = refl
  keep-all p (x ∷ xs) h = rw (h.0, keep-all p xs h.1) refl

  pub All-keep : (p : A → Bool) (xs : List A) → All (λ x. p x ≡ true) (keep_if p xs)
  All-keep p [] = tt
  All-keep p (x ∷ xs) = split (p x) refl (All-keep p xs)
    where
      split :
          (b : Bool)
          → p x ≡ b
          → All (λ x. p x ≡ true) (keep_if p xs)
          → All (λ x. p x ≡ true) (if b then x ∷ keep_if p xs else keep_if p xs)
      split true e h = (e, h)
      split false e h = h
