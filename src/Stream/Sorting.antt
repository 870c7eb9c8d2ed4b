-- ===== src/Stream/Sorting.antt =====
-- The sort of `Normalize`: it puts the claims in order and keeps which ones there are.
use backend_v.Base.{
  Bool-cases, ◌≡◌, inl, inr, true, false, List, [], ◌∷◌, if◌then◌else◌, Any, before, before_asym,
  str_eq_comm, refl, ◌∙◌, ◌↔◌, Bool, arith, str_eq,
}
use backend_v.Stream.Model.{StreamPort, less, insert, sort}
use backend_v.Base.Int.{ltb_ℤ}

pub less_asym : (c d : StreamPort) → less c d ≡ true → less d c ≡ false
less_asym c d h = split (str_eq c.transport d.transport) refl h
  where
    back : str_eq d.transport c.transport ≡ str_eq c.transport d.transport
    back = str_eq_comm d.transport c.transport

    split :
        (b : Bool)
        → str_eq c.transport d.transport ≡ b
        → (if b then ltb_ℤ c.port d.port else before c.transport d.transport) ≡ true
        → less d c ≡ false
    split true e h = rw (back ∙ e) (ground (arith, h))
    split false e h = rw (back ∙ e) (before_asym c.transport d.transport h)

-- No claim is less than the one before it.
abbrev pub SortedFrom : StreamPort → List StreamPort → Type 0
SortedFrom c [] = Unit
SortedFrom c (d ∷ ds) = (less d c ≡ false) × SortedFrom d ds

abbrev pub IsSorted : List StreamPort → Type 0
IsSorted [] = Unit
IsSorted (c ∷ cs) = SortedFrom c cs

insert-SortedFrom :
    (p c : StreamPort) (cs : List StreamPort)
    → less c p ≡ false
    → SortedFrom p cs
    → SortedFrom p (insert c cs)
unfolding insert
insert-SortedFrom p c [] h s = (h, tt)
insert-SortedFrom p c (d ∷ ds) h s = elim (Bool-cases (less d c)) [
  | inl e ↦ rw e (s.0, insert-SortedFrom d c ds (less_asym d c e) s.1)
  | inr e ↦ rw e (h, (e, s.1))
]

insert-IsSorted : (c : StreamPort) (cs : List StreamPort) → IsSorted cs → IsSorted (insert c cs)
unfolding insert
insert-IsSorted c [] s = tt
insert-IsSorted c (d ∷ ds) s = elim (Bool-cases (less d c)) [
  | inl e ↦ rw e (insert-SortedFrom d c ds (less_asym d c e) s)
  | inr e ↦ rw e (e, s)
]

pub sort-IsSorted : (cs : List StreamPort) → IsSorted (sort cs)
unfolding sort
sort-IsSorted [] = tt
sort-IsSorted (c ∷ cs) = insert-IsSorted c (sort cs) (sort-IsSorted cs)

-- Sorting keeps which claims there are.
insert-Any :
    (P : StreamPort → Type 0) (c : StreamPort) (cs : List StreamPort)
    → Any P (insert c cs) ↔ Any P (c ∷ cs)
unfolding insert
insert-Any P c [] = (λ h. h, λ h. h)
insert-Any P c (d ∷ ds) = split (less d c) (insert-Any P c ds)
  where
    split :
        (b : Bool)
        → Any P (insert c ds) ↔ Any P (c ∷ ds)
        → Any P (if b then d ∷ insert c ds else c ∷ d ∷ ds) ↔ Any P (c ∷ d ∷ ds)
    split true i = (
      λ h. elim h [
        | inl p ↦ inr (inl p)
        | inr q ↦ elim (i.0 q) [ inl p ↦ inl p | inr r ↦ inr (inr r) ]
      ],
      λ h. elim h [
        | inl p ↦ inr (i.1 (inl p))
        | inr q ↦ elim q [ inl p ↦ inl p | inr r ↦ inr (i.1 (inr r)) ]
      ],
    )
    split false i = (λ h. h, λ h. h)

pub sort-Any : (P : StreamPort → Type 0) (cs : List StreamPort) → Any P (sort cs) ↔ Any P cs
unfolding sort
sort-Any P [] = (λ h. h, λ h. h)
sort-Any P (c ∷ cs) =
    let i = insert-Any P c (sort cs) in
    let s = sort-Any P cs in
    (
      λ h. elim (i.0 h) [ inl p ↦ inl p | inr q ↦ inr (s.0 q) ],
      λ h. i.1 (elim h [ inl p ↦ inl p | inr q ↦ inr (s.1 q) ]),
    )
