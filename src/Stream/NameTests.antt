-- ===== src/Stream/NameTests.antt =====
-- The theorems on names at concrete ones; a recogniser of the pattern stands for regexp.
use backend_v.Base.{
  ◌==◌, length, ok, ℕ, ◌≤◌, ◌≡◌, refl, inl, inr, Bool, true, false, ◌&&◌, ◌||◌, List, [], ◌∷◌, ◌++◌,
  arith, ==_iff, ◌⊎◌,
}
use backend_v.Stream.Names.{
  validate_stream_name, stream_gateway_prefix, alnum, truncate, has_double, trim_left, collapse,
  replace_double, trim_right, dash, stream_gateway_name,
}
use backend_v.Stream.GatewayName.{
  stream_gateway_name-IsLabel, IsLabel, valid_names_apart, collapse-terminates,
}
use backend_v.Stream.Labels.{Labels}

-- The pattern, as an automaton.
abbrev scan : Bool → List ℕ → Bool
scan true [] = false
scan true (c ∷ s) = alnum c && scan false s
scan false [] = true
scan false (c ∷ s) = (alnum c && scan false s) || (c == dash && scan true s)

or_and-cases :
    (a b c d : Bool)
    → ((a && b) || (c && d)) ≡ true
    → ((a ≡ true) × (b ≡ true)) ⊎ ((c ≡ true) × (d ≡ true))
or_and-cases true true c d h = inl (refl, refl)
or_and-cases true false true d h = inr (refl, h)
or_and-cases true false false d h = absurd (cc h)
or_and-cases false b true d h = inr (refl, h)
or_and-cases false b false d h = absurd (cc h)

scan-Labels : (b : Bool) (s : List ℕ) → scan b s ≡ true → Labels b s
scan-Labels true [] h = absurd (cc h)
scan-Labels true (c ∷ s) h =
    elim (or_and-cases (alnum c) (scan false s) false false (ground (arith, h))) [
      | inl p ↦ (p.0, scan-Labels false s p.1)
      | inr p ↦ absurd (cc (p.0))
    ]
scan-Labels false [] h = tt
scan-Labels false (c ∷ s) h =
    elim (or_and-cases (alnum c) (scan false s) (c == dash) (scan true s) h) [
      | inl p ↦ inl (p.0, scan-Labels false s p.1)
      | inr p ↦ inr ((==_iff c dash).0 p.0, scan-Labels true s p.1)
    ]

abbrev matches : List ℕ → Bool
matches s = scan true s

-- "a1", "b-2" and "A--é".
abbrev plain : List ℕ
plain = 97 ∷ 49 ∷ []

abbrev dashed : List ℕ
dashed = 98 ∷ 45 ∷ 50 ∷ []

abbrev ragged : List ℕ
ragged = 97 ∷ 45 ∷ 45 ∷ 233 ∷ []

abbrev lower : List ℕ → List ℕ
lower s = s

ragged_name : stream_gateway_name matches lower ragged ≡ stream_gateway_prefix ++ 97 ∷ []
unfolding stream_gateway_name collapse has_double replace_double trim_left trim_right truncate
ragged_name = refl

collapse-terminates_example :
    (has_double (collapse 6 ragged) ≡ false) × (collapse 6 ragged ≡ collapse 4 ragged)
collapse-terminates_example = collapse-terminates ragged 6 (omega arith)

stream_gateway_name-IsLabel_example :
    (rest : List ℕ) × (stream_gateway_name matches lower ragged ≡ stream_gateway_prefix ++ rest)
    × IsLabel rest
    × (length (stream_gateway_name matches lower ragged) ≤ 63)
stream_gateway_name-IsLabel_example = stream_gateway_name-IsLabel matches lower ragged

plain_valid : validate_stream_name matches lower plain ≡ ok tt
unfolding validate_stream_name
plain_valid = refl

dashed_valid : validate_stream_name matches lower dashed ≡ ok tt
unfolding validate_stream_name
dashed_valid = refl

valid_names_apart_example :
    (stream_gateway_name matches lower dashed ≡ stream_gateway_prefix ++ dashed)
    × (stream_gateway_name matches lower dashed ≡ stream_gateway_name matches lower plain
        → dashed ≡ plain)
valid_names_apart_example =
    valid_names_apart matches lower (scan-Labels true) (λ s h. refl) dashed plain dashed_valid
      plain_valid
