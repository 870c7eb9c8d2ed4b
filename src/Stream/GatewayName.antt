-- ===== src/Stream/GatewayName.antt =====
-- What `StreamGatewayName` returns, and that valid stream names keep apart.
use backend_v.Base.{
  ◌>>◌, ltb, Bool-cases, is_nil, length, All, reject_if, ok, with_guard, ℕ, zero, suc, ◌≤◌, ◌≡◌,
  refl, sym, ◌∙◌, ◌⊎◌, inl, inr, Bool, true, false, not, List, [], ◌∷◌, ◌++◌, map, arith,
}
use backend_v.Stream.Names.{
  trim, take, collapse, name_malformed, trim_left, name_required, max_stream_name_len,
  name_too_long, truncate, label, trim_right, validate_stream_name, stream_gateway_name,
  stream_gateway_prefix, has_double, replace_double,
}
use backend_v.Stream.Labels.{
  Headed-take, Labels-trim_right, Labels, Tidy-All, trim_left-Headed, label-IsLabelChar,
  Tidy-collapsed, trim_right-Labels, collapse-All, collapse-Tidy, Labels-Tidy, collapse-ends,
  Tidy-take, Tidy-trim_left, Labels-Headed, Labels-label, IsLabelChar, replace_double-shorter,
  has_double-empty,
}

collapse-agree :
    (fuel fuel' : ℕ) (s : List ℕ)
    → length s ≤ fuel
    → length s ≤ fuel'
    → collapse fuel s ≡ collapse fuel' s
unfolding collapse
collapse-agree zero zero s h h' = refl
collapse-agree zero (suc n) s h h' = rw (has_double-empty s (omega (arith, h))) refl
collapse-agree (suc n) zero s h h' = rw (has_double-empty s (omega (arith, h'))) refl
collapse-agree (suc m) (suc n) s h h' = elim (Bool-cases (has_double s)) [
  | inl e ↦ rw e (
      collapse-agree m n (replace_double s) (omega (arith, (replace_double-shorter s).1 e, h))
        (omega (arith, (replace_double-shorter s).1 e, h')))
  | inr e ↦ rw e refl
]

-- The loop that collapses dashes ends: as many rounds as the text is long leave no double dash, and
-- further rounds change nothing.
pub collapse-terminates :
    (s : List ℕ) (fuel : ℕ)
    → length s ≤ fuel
    → (has_double (collapse fuel s) ≡ false) × (collapse fuel s ≡ collapse (length s) s)
collapse-terminates s fuel h =
    (collapse-ends fuel s h, collapse-agree fuel (length s) s h (omega arith))

length-trim_right : (s : List ℕ) → length (trim_right s) ≤ length s
unfolding trim_right
length-trim_right [] = omega arith
length-trim_right (c ∷ s) = ground (arith, length-trim_right s)

length-take : (n : ℕ) (s : List ℕ) → length (take n s) ≤ n
unfolding take
length-take zero s = omega arith
length-take (suc n) [] = omega arith
length-take (suc n) (c ∷ s) = omega (arith, length-take n s)

ltb-false : (m n : ℕ) → ltb m n ≡ false → n ≤ m
ltb-false m n h = ground (arith, h)

-- Empty, or a text of the language.
abbrev pub IsLabel : List ℕ → Type 0
IsLabel s = (s ≡ []) ⊎ Labels true s

truncate-IsLabel : (s : List ℕ) → IsLabel s → IsLabel (truncate s) × (length (truncate s) ≤ 59)
unfolding truncate trim_right take
truncate-IsLabel s h = elim (Bool-cases (ltb max_stream_name_len (length s))) [
  | inl e ↦ rw e (
    cut h,
    omega
        (arith, length-trim_right (take max_stream_name_len s), length-take max_stream_name_len s),
  )
  | inr e ↦ rw e (h, ltb-false max_stream_name_len (length s) e)
]
  where
    cut : IsLabel s → IsLabel (trim_right (take max_stream_name_len s))
    cut (inl e) = inl (rw e refl)
    cut (inr l) =
        Labels-trim_right (take max_stream_name_len s)
          (Tidy-take max_stream_name_len s (Labels-Tidy true s l))
          (Headed-take max_stream_name_len s (Labels-Headed s l))

prefix_inj : {s t : List ℕ} → stream_gateway_prefix ++ s ≡ stream_gateway_prefix ++ t → s ≡ t
prefix_inj h = cc h

module _ (matches : List ℕ → Bool) (lower_runes : List ℕ → List ℕ) where
  -- The name of a stream's Gateway is "str-" and a rest that is empty or of the form that valid
  -- stream names have, at most 63 bytes together, whatever the stream's name is.
  pub stream_gateway_name-IsLabel :
      (name : List ℕ)
      → (rest : List ℕ) × (stream_gateway_name matches lower_runes name
          ≡ stream_gateway_prefix ++ rest)
        × IsLabel rest
        × (length (stream_gateway_name matches lower_runes name) ≤ 63)
  unfolding stream_gateway_name
  stream_gateway_name-IsLabel name =
      let labels = map label (lower_runes name) in
      let collapsed = collapse (length labels) labels in
      let tidy = Tidy-trim_left collapsed (
        Tidy-collapsed collapsed
          (collapse-All (length labels) labels (label-IsLabelChar (lower_runes name)))
          (collapse-ends (length labels) labels (omega arith))) in
      let short =
        truncate-IsLabel (trim collapsed) (Labels-trim_right (trim_left collapsed) tidy.0 tidy.1) in
      (truncate (trim collapsed), refl, short.0, omega (arith, short.1))

  validate-parts :
      (name : List ℕ)
      → validate_stream_name matches lower_runes name ≡ ok tt
      → (ltb max_stream_name_len (length name) ≡ false) × (matches name ≡ true)
  unfolding validate_stream_name
  validate-parts name h =
      with_guard (is_nil name) name_required
        (reject_if (ltb max_stream_name_len (length name)) name_too_long
          >> reject_if (not (matches name)) name_malformed)
        h
        (λ full h'.
          with_guard (ltb max_stream_name_len (length name)) name_too_long
            (reject_if (not (matches name)) name_malformed) h'
            (λ short h''. (short, ground (arith, h''))))

  truncate-short : (s : List ℕ) → ltb max_stream_name_len (length s) ≡ false → truncate s ≡ s
  unfolding truncate
  truncate-short s h = rw h refl

  unchanged :
      (documented : (s : List ℕ) → matches s ≡ true → Labels true s)
      → (lower_ascii : (s : List ℕ) → All IsLabelChar s → lower_runes s ≡ s) → (name : List ℕ)
      → validate_stream_name matches lower_runes name ≡ ok tt
      → stream_gateway_name matches lower_runes name ≡ stream_gateway_prefix ++ name
  unfolding stream_gateway_name
  unchanged documented lower_ascii name valid =
      let parts = validate-parts name valid in
      let language = documented name parts.1 in
      let tidy = Labels-Tidy true name language in
      rw
        (
          lower_ascii name (Tidy-All name tidy),
          Labels-label name tidy,
          collapse-Tidy (length name) name tidy,
          trim_left-Headed name (Labels-Headed name language),
          trim_right-Labels true name language,
          truncate-short name parts.0,
        )
        refl

  -- A stream name that `ValidateStreamName` accepts is the name of its Gateway after "str-", so two
  -- accepted names never share a Gateway, given that regexp accepts only what the pattern describes
  -- and that strings.ToLower keeps digits, lower-case letters and dashes.
  pub valid_names_apart :
      (documented : (s : List ℕ) → matches s ≡ true → Labels true s)
      → (lower_ascii : (s : List ℕ) → All IsLabelChar s → lower_runes s ≡ s) → (name other : List ℕ)
      → validate_stream_name matches lower_runes name ≡ ok tt
      → validate_stream_name matches lower_runes other ≡ ok tt
      → (stream_gateway_name matches lower_runes name ≡ stream_gateway_prefix ++ name)
        × (stream_gateway_name matches lower_runes name
              ≡ stream_gateway_name matches lower_runes other
            → name ≡ other)
  valid_names_apart documented lower_ascii name other valid valid' =
      let here = unchanged documented lower_ascii name valid in
      let there = unchanged documented lower_ascii other valid' in
      (here, λ same. prefix_inj (sym here ∙ same ∙ there))
