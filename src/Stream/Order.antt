-- ===== src/Stream/Order.antt =====
-- On TCP and UDP the order of claims is total, so claims in order that do not repeat the one before
-- are pairwise different.
use backend_v.Base.{
  ◌≡◌, inl, inr, true, false, List, [], ◌∷◌, ltb, if◌then◌else◌, ◌==◌, ℕ, String, refl, sym, ◌∙◌,
  ◌⊎◌, Bool, arith, str_eq, ==_iff, All-map, All, subst, ◌≢◌, ◌&&◌, Option, some, eq_iff, ap,
}
use backend_v.Stream.Model.{StreamPort, less, same_port}
use backend_v.Base.Int.{ℤ, ltb_ℤ, ltb_ℤ_total, eq_ℤ}
use backend_v.Stream.Sorting.{SortedFrom, IsSorted, less_asym}

abbrev pub IsTransport : String → Type 0
IsTransport t = (t ≡ "TCP") ⊎ (t ≡ "UDP")

-- On TCP and UDP the order is that of numbers: TCP first, then by port.
abbrev rank : String → ℕ
rank t = if str_eq t "TCP" then 0 else 1

abbrev ranked : ℕ → ℤ → ℕ → ℤ → Bool
ranked r p s q = if r == s then ltb_ℤ p q else ltb r s

less-ranked :
    (c d : StreamPort)
    → IsTransport c.transport
    → IsTransport d.transport
    → less c d ≡ ranked (rank c.transport) c.port (rank d.transport) d.port
less-ranked c d (inl e) (inl f) = rw (e, f) refl
less-ranked c d (inl e) (inr f) = rw (e, f) refl
less-ranked c d (inr e) (inl f) = rw (e, f) refl
less-ranked c d (inr e) (inr f) = rw (e, f) refl

ranked_trans :
    (r : ℕ) (p : ℤ) (s : ℕ) (q : ℤ) (t : ℕ) (v : ℤ)
    → ranked r p s q ≡ true
    → ranked s q t v ≡ true
    → ranked r p t v ≡ true
ranked_trans r p s q t v h k = ground (arith, h, k)

less_trans :
    (c d e : StreamPort)
    → IsTransport c.transport
    → IsTransport d.transport
    → IsTransport e.transport
    → less c d ≡ true
    → less d e ≡ true
    → less c e ≡ true
less_trans c d e tc td te h k =
    less-ranked c e tc te
    ∙ ranked_trans (rank c.transport) c.port (rank d.transport) d.port (rank e.transport) e.port
        (sym (less-ranked c d tc td) ∙ h) (sym (less-ranked d e td te) ∙ k)

ranked_total :
    (r : ℕ) (p : ℤ) (s : ℕ) (q : ℤ)
    → ranked s q r p ≡ false
    → (r ≡ s → eq_ℤ p q ≡ false)
    → ranked r p s q ≡ true
ranked_total r p s q h k = split (r == s) refl
  where
    split : (b : Bool) → (r == s) ≡ b → (if b then ltb_ℤ p q else ltb r s) ≡ true
    split true e = ltb_ℤ_total p q (ground (arith, h, e)) (k ((==_iff r s).0 e))
    split false e = ground (arith, h, e)

tcp-udp : rank "TCP" ≢ rank "UDP"
tcp-udp h = omega (arith, h)

rank_inj : (s t : String) → IsTransport s → IsTransport t → rank s ≡ rank t → s ≡ t
rank_inj s t (inl e) (inl f) h = e ∙ sym f
rank_inj s t (inr e) (inr f) h = e ∙ sym f
rank_inj s t (inl e) (inr f) h = absurd (tcp-udp ((sym (ap rank e) ∙ h) ∙ ap rank f))
rank_inj s t (inr e) (inl f) h = absurd (tcp-udp (sym ((sym (ap rank e) ∙ h) ∙ ap rank f)))

same_port-false :
    (c d : StreamPort)
    → same_port c d ≡ false
    → c.transport ≡ d.transport
    → eq_ℤ c.port d.port ≡ false
same_port-false c d h e = subst (λ b. (b && eq_ℤ c.port d.port) ≡ false) ((eq_iff _ _).1 e) h

-- Of two claims, one is less or they are the same.
less_total :
    (c d : StreamPort)
    → IsTransport c.transport
    → IsTransport d.transport
    → less d c ≡ false
    → same_port c d ≡ false
    → less c d ≡ true
less_total c d tc td h k =
    less-ranked c d tc td
    ∙ ranked_total (rank c.transport) c.port (rank d.transport) d.port
        (sym (less-ranked d c td tc) ∙ h)
        (λ e. same_port-false c d k (rank_inj c.transport d.transport tc td e))

-- What a list without repetition is.
abbrev pub IsDistinct : List StreamPort → Type 0
IsDistinct [] = Unit
IsDistinct (c ∷ cs) = All (λ d. c ≢ d) cs × IsDistinct cs

-- Each claim has a known transport and differs from the one before.
abbrev pub IsShape : Option StreamPort → List StreamPort → Type 0
IsShape prev [] = Unit
IsShape prev (c ∷ cs) =
    IsTransport c.transport
    × (((p : StreamPort) → prev ≡ some p → same_port p c ≡ false) × IsShape (some c) cs)

all_after :
    (c : StreamPort) (cs : List StreamPort)
    → IsTransport c.transport
    → SortedFrom c cs
    → IsShape (some c) cs
    → All (λ d. IsTransport d.transport × (less c d ≡ true)) cs
all_after c [] tc s h = tt
all_after c (d ∷ ds) tc s h =
    let first = less_total c d tc h.0 s.0 (h.1.0 c refl) in
    let later = all_after d ds h.0 s.1 h.1.1 in
    ((h.0, first), All-map (λ e p. (p.0, less_trans c d e tc h.0 p.0 first p.1)) ds later)

SortedFrom-IsSorted : (c : StreamPort) (cs : List StreamPort) → SortedFrom c cs → IsSorted cs
SortedFrom-IsSorted c [] s = tt
SortedFrom-IsSorted c (d ∷ ds) s = s.1

less-≢ : (c d : StreamPort) → less c d ≡ true → c ≢ d
less-≢ c d h e = let l = subst (λ x. less c x ≡ true) (sym e) h in absurd (cc (l, less_asym c c l))

pub IsShape-IsDistinct :
    (prev : Option StreamPort) (cs : List StreamPort)
    → IsSorted cs
    → IsShape prev cs
    → IsDistinct cs
IsShape-IsDistinct prev [] s h = tt
IsShape-IsDistinct prev (c ∷ cs) s h = (
  All-map (λ d p. less-≢ c d p.1) cs (all_after c cs h.0 s h.1.1),
  IsShape-IsDistinct (some c) cs (SortedFrom-IsSorted c cs s) h.1.1,
)
