-- ===== src/Stream/Labels.antt =====
-- The names of stream Gateways are DNS labels, and valid stream names keep apart.
use backend_v.Base.{
  Bool-cases, length, ℕ, zero, suc, ◌≤◌, ◌<◌, ◌≡◌, refl, ◌⊎◌, inl, inr, Bool, true, false, List, [],
  ◌∷◌, arith, ◌==◌, All, sym, subst, ◌&&◌, map, ap, ◌∙◌,
}
use backend_v.Stream.Names.{
  dash, has_double, replace_double, alnum, collapse, trim_left, take, trim_right, label,
}

-- `^[a-z0-9]+(-[a-z0-9]+)*$`, from the start of a run of letters or inside one.
abbrev pub Labels : Bool → List ℕ → Type 0
Labels true [] = ⊥
Labels true (c ∷ s) = (alnum c ≡ true) × Labels false s
Labels false [] = Unit
Labels false (c ∷ s) = ((alnum c ≡ true) × Labels false s) ⊎ ((c ≡ dash) × Labels true s)

abbrev pub IsLabelChar : ℕ → Type 0
IsLabelChar c = (alnum c ≡ true) ⊎ (c ≡ dash)

-- Each round of the loop shortens the text as long as it has a double dash.
pub replace_double-shorter :
    (s : List ℕ)
    → (length (replace_double s) ≤ length s)
      × (has_double s ≡ true → length (replace_double s) < length s)
unfolding replace_double has_double
replace_double-shorter [] = (omega arith, λ h. absurd (cc h))
replace_double-shorter (c ∷ []) = (omega arith, λ h. absurd (cc h))
replace_double-shorter (c ∷ d ∷ s) =
    let rest = replace_double-shorter s in
    let rest' = replace_double-shorter (d ∷ s) in
    (ground (arith, rest.0, rest'.0), λ h. ground (arith, rest.0, rest'.0, rest'.1, h))

pub has_double-empty : (s : List ℕ) → length s ≡ 0 → has_double s ≡ false
unfolding has_double
has_double-empty [] h = refl
has_double-empty (c ∷ s) h = absurd (omega (arith, h))

pub collapse-ends : (fuel : ℕ) (s : List ℕ) → length s ≤ fuel → has_double (collapse fuel s) ≡ false
unfolding collapse
collapse-ends zero s h = has_double-empty s (omega (arith, h))
collapse-ends (suc fuel) s h = elim (Bool-cases (has_double s)) [
  | inl e ↦
      rw e
        (collapse-ends fuel (replace_double s) (omega (arith, (replace_double-shorter s).1 e, h)))
  | inr e ↦ rw e e
]

pub label-IsLabelChar : (xs : List ℕ) → All IsLabelChar (map label xs)
label-IsLabelChar [] = tt
label-IsLabelChar (x ∷ xs) = (here (Bool-cases (alnum x)), label-IsLabelChar xs)
  where
    here : (alnum x ≡ true) ⊎ (alnum x ≡ false) → IsLabelChar (label x)
    here (inl e) = rw e (inl e)
    here (inr e) = rw e (inr refl)

replace_double-All : (s : List ℕ) → All IsLabelChar s → All IsLabelChar (replace_double s)
unfolding replace_double
replace_double-All [] h = tt
replace_double-All (c ∷ []) h = h
replace_double-All (c ∷ d ∷ s) (hc, hs) = elim (Bool-cases (c == dash && d == dash)) [
  | inl e ↦ rw e (inr refl, replace_double-All s hs.1)
  | inr e ↦ rw e (hc, replace_double-All (d ∷ s) hs)
]

pub collapse-All : (fuel : ℕ) (s : List ℕ) → All IsLabelChar s → All IsLabelChar (collapse fuel s)
unfolding collapse
collapse-All zero s h = h
collapse-All (suc fuel) s h = elim (Bool-cases (has_double s)) [
  | inl e ↦ rw e (collapse-All fuel (replace_double s) (replace_double-All s h))
  | inr e ↦ rw e h
]

-- Label characters without a double dash.
abbrev NoPair : ℕ → List ℕ → Type 0
NoPair c [] = Unit
NoPair c (d ∷ s) = c ≡ dash → alnum d ≡ true

abbrev Tidy : List ℕ → Type 0
Tidy [] = Unit
Tidy (c ∷ s) = IsLabelChar c × NoPair c s × Tidy s

-- A text that is empty or begins with a letter or digit.
abbrev Headed : List ℕ → Type 0
Headed [] = Unit
Headed (c ∷ s) = alnum c ≡ true

not_dash : (c d : ℕ) → IsLabelChar d → (c == dash && d == dash) ≡ false → c ≡ dash → alnum d ≡ true
not_dash c d (inl a) h e = a
not_dash c d (inr a) h e = absurd (ground (arith, h, e, a))

pub Tidy-collapsed : (s : List ℕ) → All IsLabelChar s → has_double s ≡ false → Tidy s
unfolding has_double
Tidy-collapsed [] a h = tt
Tidy-collapsed (c ∷ []) a h = (a.0, tt, tt)
Tidy-collapsed (c ∷ d ∷ s) a h =
    (a.0, not_dash c d a.1.0 (ground (arith, h)), Tidy-collapsed (d ∷ s) a.1 (ground (arith, h)))

alnum-dash : (c : ℕ) → alnum c ≡ true → (c == dash) ≡ false
alnum-dash c h = ground (arith, h)

pub Tidy-trim_left : (s : List ℕ) → Tidy s → Tidy (trim_left s) × Headed (trim_left s)
unfolding trim_left
Tidy-trim_left [] h = (tt, tt)
Tidy-trim_left (c ∷ s) (inl a, pair, rest) = rw (alnum-dash c a) ((inl a, pair, rest), a)
Tidy-trim_left (c ∷ s) (inr d, pair, rest) = rw d (Tidy-trim_left s rest)

pub Tidy-take : (n : ℕ) (s : List ℕ) → Tidy s → Tidy (take n s)
unfolding take
Tidy-take zero s h = tt
Tidy-take (suc n) [] h = tt
Tidy-take (suc n) (c ∷ s) h = (h.0, pair n s h.1, Tidy-take n s h.2)
  where
    pair : (n : ℕ) (s : List ℕ) → NoPair c s → NoPair c (take n s)
    pair zero s h = tt
    pair (suc n) [] h = tt
    pair (suc n) (d ∷ s) h = h

pub Headed-take : (n : ℕ) (s : List ℕ) → Headed s → Headed (take n s)
unfolding take
Headed-take zero s h = tt
Headed-take (suc n) [] h = tt
Headed-take (suc n) (c ∷ s) h = h

trim_right-nil : (c : ℕ) (s : List ℕ) → alnum c ≡ true → trim_right (c ∷ s) ≡ c ∷ trim_right s
unfolding trim_right
trim_right-nil c s a = rw (alnum-dash c a) refl

trim_right-more : (c d : ℕ) (s t : List ℕ) → trim_right s ≡ d ∷ t → trim_right (c ∷ s) ≡ c ∷ d ∷ t
unfolding trim_right
trim_right-more c d s t e = ground (arith, e)

-- What is left inside a name once its dashes at the end are gone.
Labels-inside : (s : List ℕ) → Tidy s → Labels false (trim_right s)
unfolding trim_right
Labels-inside [] h = tt
Labels-inside (c ∷ s) (inl a, pair, rest) =
    subst (Labels false) (sym (trim_right-nil c s a)) (inl (a, Labels-inside s rest))
Labels-inside (c ∷ []) (inr d, pair, rest) = rw d tt
Labels-inside (c ∷ e ∷ s) (inr d, pair, rest) =
    subst (Labels false)
      (sym (trim_right-more c e (e ∷ s) (trim_right s) (trim_right-nil e s (pair d))))
      (inr (d, (pair d, Labels-inside s rest.2)))

pub Labels-trim_right :
    (s : List ℕ) → Tidy s → Headed s → (trim_right s ≡ []) ⊎ Labels true (trim_right s)
unfolding trim_right
Labels-trim_right [] h k = inl refl
Labels-trim_right (c ∷ s) h k =
    inr (subst (Labels true) (sym (trim_right-nil c s k)) (k, Labels-inside s h.2))

-- What a text of the language is, and that the clean-up leaves it alone.
after-alnum : (c : ℕ) (s : List ℕ) → alnum c ≡ true → NoPair c s
after-alnum c [] h = tt
after-alnum c (d ∷ s) h = λ e. absurd (ground (arith, h, e))

pub Labels-Tidy : (b : Bool) (s : List ℕ) → Labels b s → Tidy s
Labels-Tidy true [] h = tt
Labels-Tidy true (c ∷ s) h = (inl h.0, after-alnum c s h.0, Labels-Tidy false s h.1)
Labels-Tidy false [] h = tt
Labels-Tidy false (c ∷ s) (inl h) = (inl h.0, after-alnum c s h.0, Labels-Tidy false s h.1)
Labels-Tidy false (c ∷ []) (inr h) = absurd h.1
Labels-Tidy false (c ∷ d ∷ s) (inr h) = (inr h.0, λ e. h.1.0, Labels-Tidy true (d ∷ s) h.1)

pub Labels-Headed : (s : List ℕ) → Labels true s → Headed s
Labels-Headed [] h = tt
Labels-Headed (c ∷ s) h = h.0

Tidy-has_double : (s : List ℕ) → Tidy s → has_double s ≡ false
unfolding has_double
Tidy-has_double [] h = refl
Tidy-has_double (c ∷ []) h = refl
Tidy-has_double (c ∷ d ∷ s) h = ground (arith, h.1, Tidy-has_double (d ∷ s) h.2)

pub collapse-Tidy : (fuel : ℕ) (s : List ℕ) → Tidy s → collapse fuel s ≡ s
unfolding collapse
collapse-Tidy zero s h = refl
collapse-Tidy (suc fuel) s h = rw (Tidy-has_double s h) refl

pub Labels-label : (s : List ℕ) → Tidy s → map label s ≡ s
Labels-label [] h = refl
Labels-label (c ∷ s) (inl a, pair, rest) = rw (a, Labels-label s rest) refl
Labels-label (c ∷ s) (inr d, pair, rest) = rw (d, Labels-label s rest) refl

pub trim_right-Labels : (b : Bool) (s : List ℕ) → Labels b s → trim_right s ≡ s
unfolding trim_right
trim_right-Labels true [] h = refl
trim_right-Labels true (c ∷ s) h =
    trim_right-nil c s h.0 ∙ ap (λ t. c ∷ t) (trim_right-Labels false s h.1)
trim_right-Labels false [] h = refl
trim_right-Labels false (c ∷ s) (inl h) =
    trim_right-nil c s h.0 ∙ ap (λ t. c ∷ t) (trim_right-Labels false s h.1)
trim_right-Labels false (c ∷ []) (inr h) = absurd h.1
trim_right-Labels false (c ∷ d ∷ s) (inr h) =
    trim_right-more c d (d ∷ s) s (trim_right-Labels true (d ∷ s) h.1)

pub trim_left-Headed : (s : List ℕ) → Headed s → trim_left s ≡ s
unfolding trim_left
trim_left-Headed [] h = refl
trim_left-Headed (c ∷ s) h = rw (alnum-dash c h) refl

pub Tidy-All : (s : List ℕ) → Tidy s → All IsLabelChar s
Tidy-All [] h = tt
Tidy-All (c ∷ s) h = (h.0, Tidy-All s h.2)
