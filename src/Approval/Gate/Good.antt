-- ===== src/Approval/Gate/Good.antt =====
-- What an approval and its reviews owe each other, and what keeps it.
use backend_v.Base.Int.{◌≤ℤ◌, pos}
use backend_v.Approval.Model.{
  Approval, ApprovalStage, ApprovalStatus, ApprovalStageReview, effective_min_approvers,
}
use backend_v.Base.{
  ◌==◌, Bool-cases, if◌then◌else◌, ==_iff, some_inj, All, length, All-append, All-map, ℕ, ◌≤◌, ◌≡◌,
  refl, sym, subst, ◌≢◌, ◌⊎◌, inl, inr, false, Option, none, some, List, [], ◌∷◌, ◌++◌, arith,
  str_eq,
}
use backend_v.Approval.Guards.{has_reviewed}
use backend_v.Approval.Stages.{stage_ids, Distinct, write_stage-All, stage_ids-write_stage}
use backend_v.Approval.Laws.{store_approval, store_stage, approvers, store_review}

abbrev pub Enough : (ℕ → List ApprovalStageReview) → ApprovalStage → Type 0
Enough reviews s =
    s.status ≡ ApprovalStatus.approved
    → effective_min_approvers s.min_approvers ≤ℤ pos (length (approvers (reviews s.id)))

-- What holds of an approval stored under `i`: its stages are its own and pairwise different, an
-- approved stage has its approvers, and an approved approval has approved stages only.
pub record Good (reviews : ℕ → List ApprovalStageReview) (i : ℕ) (a : Approval) : Type 0 where
  pub keyed : a.id ≡ i
  pub owned : All (λ s. s.approval_id ≡ i) a.stages
  pub distinct : Distinct (stage_ids a.stages)
  pub enough : All (Enough reviews) a.stages
  pub complete :
      a.status ≡ ApprovalStatus.approved → All (λ s. s.status ≡ ApprovalStatus.approved) a.stages

approvers-append :
    (rs : List ApprovalStageReview) (r : ApprovalStageReview)
    → approvers (rs ++ r ∷ [])
      ≡ (if str_eq r.decision "approved" then approvers rs ++ r.reviewer_id ∷ [] else approvers rs)
approvers-append [] r = ground arith
approvers-append (x ∷ rs) r = ground (arith, approvers-append rs r)

pub fresh-approvers :
    (user : ℕ) (rs : List ApprovalStageReview)
    → has_reviewed user rs ≡ false
    → All (λ y. y ≢ user) (approvers rs)
fresh-approvers user [] h = tt
fresh-approvers user (r ∷ rs) h = elim (Bool-cases (str_eq r.decision "approved")) [
  | inl e ↦ rw e (ground (arith, h), fresh-approvers user rs (ground (arith, h)))
  | inr n ↦ rw n (fresh-approvers user rs (ground (arith, h)))
]

Distinct-append :
    (xs : List ℕ) (y : ℕ) → Distinct xs → All (λ x. x ≢ y) xs → Distinct (xs ++ y ∷ [])
Distinct-append [] y d h = (tt, tt)
Distinct-append (x ∷ xs) y d h =
    (All-append (λ z. z ≢ x) xs (y ∷ []) d.0 ((λ e. h.0 (sym e)), tt), Distinct-append xs y d.1 h.1)

length-append-le : (xs : List ℕ) (y : ℕ) → length xs ≤ length (xs ++ y ∷ [])
length-append-le [] y = omega arith
length-append-le (x ∷ xs) y = omega (arith, length-append-le xs y)

-- More reviews break nothing.
pub Good-mono :
    (rv rv' : ℕ → List ApprovalStageReview) (i : ℕ) (a : Approval)
    → ((s : ℕ) → length (approvers (rv s)) ≤ length (approvers (rv' s)))
    → Good rv i a
    → Good rv' i a
Good-mono rv rv' i a le h = record {
  keyed = h.keyed;
  owned = h.owned;
  distinct = h.distinct;
  enough =
      All-map {P = Enough rv} {Q = Enough rv'} (λ s k x. omega (arith, k x, le s.id)) a.stages
        h.enough;
  complete = h.complete;
}

pub grown :
    (r : ApprovalStageReview) (i : ℕ) (rs : List ApprovalStageReview)
    → length (approvers rs) ≤ length (approvers (store_review r i rs))
grown r i rs = ground (arith, approvers-append rs r, length-append-le (approvers rs) r.reviewer_id)

-- A review that is not a second one keeps the approvers of a stage pairwise different.
abbrev pub NotTwice : ApprovalStageReview → List ApprovalStageReview → Type 0
NotTwice r rs = (str_eq r.decision "approved" ≡ false) ⊎ (has_reviewed r.reviewer_id rs ≡ false)

once-append :
    (r : ApprovalStageReview) (rs : List ApprovalStageReview)
    → Distinct (approvers rs)
    → NotTwice r rs
    → Distinct (approvers (rs ++ r ∷ []))
once-append r rs d (inl n) = rw (approvers-append rs r) (rw n d)
once-append r rs d (inr f) =
    rw (approvers-append rs r) (elim (Bool-cases (str_eq r.decision "approved")) [
      | inl e ↦
          rw e (Distinct-append (approvers rs) r.reviewer_id d (fresh-approvers r.reviewer_id rs f))
      | inr n ↦ rw n d
    ])

pub once-store_review :
    (r : ApprovalStageReview) (i : ℕ) (rs : List ApprovalStageReview)
    → Distinct (approvers rs)
    → (i ≡ r.stage_id → NotTwice r rs)
    → Distinct (approvers (store_review r i rs))
once-store_review r i rs d f = elim (Bool-cases (i == r.stage_id)) [
  | inl e ↦ rw e (once-append r rs d (f ((==_iff i r.stage_id).0 e)))
  | inr n ↦ rw n d
]

-- Writing a stage of an approval that is not approved, with its approvers if it is approved.
pub Good-store_stage :
    (rv : ℕ → List ApprovalStageReview) (s : ApprovalStage) (i : ℕ) (o : Option Approval)
    → (a : Approval) → ((b : Approval) → o ≡ some b → Good rv i b)
    → (i ≡ s.approval_id → (b : Approval) → o ≡ some b → b.status ≢ ApprovalStatus.approved)
    → Enough rv s
    → store_stage s i o ≡ some a
    → Good rv i a
Good-store_stage rv s i none a h n k e = cc
Good-store_stage rv s i (some b) a h n k e = elim (Bool-cases (i == s.approval_id)) [
  | inl p ↦
      let q : i ≡ s.approval_id = (==_iff i s.approval_id).0 p in
      let g : Good rv i b = h b refl in
      subst (Good rv i) (some_inj (rw p at e)) (record {
        keyed = g.keyed;
        owned = write_stage-All (λ t. t.approval_id ≡ i) s b.stages g.owned (sym q);
        distinct = subst Distinct (sym (stage_ids-write_stage s b.stages)) g.distinct;
        enough = write_stage-All (Enough rv) s b.stages g.enough k;
        complete = λ x. absurd (n q b refl x);
      })
  | inr m ↦ subst (Good rv i) (some_inj (rw m at e)) (h b refl)
]

-- Writing the columns of an approval: as approved only if its stages are.
pub Good-store_approval :
    (rv : ℕ → List ApprovalStageReview) (c : Approval) (i : ℕ) (o : Option Approval)
    → (a : Approval) → ((b : Approval) → o ≡ some b → Good rv i b)
    → (i ≡ c.id
        → (b : Approval) → o ≡ some b
        → c.status ≡ ApprovalStatus.approved
        → All (λ s. s.status ≡ ApprovalStatus.approved) b.stages)
    → store_approval c i o ≡ some a
    → Good rv i a
Good-store_approval rv c i none a h n e = cc
Good-store_approval rv c i (some b) a h n e = elim (Bool-cases (i == c.id)) [
  | inl p ↦
      let q : i ≡ c.id = (==_iff i c.id).0 p in
      let g : Good rv i b = h b refl in
      subst (Good rv i) (some_inj (rw p at e)) (record {
        keyed = sym q;
        owned = g.owned;
        distinct = g.distinct;
        enough = g.enough;
        complete = λ x. n q b refl x;
      })
  | inr m ↦ subst (Good rv i) (some_inj (rw m at e)) (h b refl)
]
