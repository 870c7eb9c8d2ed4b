-- ===== src/Approval/Stages.antt =====
-- The list operations of the traversal: finding a stage, writing it back, and the final test.
use backend_v.Approval.Model.{ApprovalStage, ApprovalStatus}
use backend_v.Base.{
  ◌==◌, Bool-cases, ==_iff, All, ℕ, ◌≡◌, refl, ap, subst, ◌≢◌, inl, inr, true, some, List, [], ◌∷◌,
  map, arith, ==_refl,
}
use backend_v.Approval.Traversal.{write_stage, all_stages_approved}
use backend_v.Approval.Authorize.{find_stage}

-- The items of a list are pairwise different.
abbrev pub Distinct : List ℕ → Type 0
Distinct [] = Unit
Distinct (x ∷ xs) = All (λ y. y ≢ x) xs × Distinct xs

abbrev pub stage_ids : List ApprovalStage → List ℕ
stage_ids ss = map (λ s. s.id) ss

pub find_stage-All :
    (P : ApprovalStage → Type 0) (id : ℕ) (ss : List ApprovalStage) {s : ApprovalStage}
    → All P ss
    → find_stage id ss ≡ some s
    → P s × (s.id ≡ id)
unfolding find_stage
find_stage-All P id [] h e = cc
find_stage-All P id (t ∷ ts) {s} h e = elim (Bool-cases (t.id == id)) [
  | inl p ↦
      let q : t ≡ s = ground (arith, e, p) in
      (subst P q h.0, subst (λ x. x.id ≡ id) q ((==_iff t.id id).0 p))
  | inr n ↦ find_stage-All P id ts h.1 (rw n at e)
]

pub write_stage-All :
    (P : ApprovalStage → Type 0) (s : ApprovalStage) (ss : List ApprovalStage)
    → All P ss
    → P s
    → All P (write_stage s ss)
unfolding write_stage
write_stage-All P s [] h p = tt
write_stage-All P s (t ∷ ts) h p = elim (Bool-cases (t.id == s.id)) [
  | inl e ↦ rw e (p, h.1)
  | inr n ↦ rw n (h.0, write_stage-All P s ts h.1 p)
]

pub stage_ids-write_stage :
    (s : ApprovalStage) (ss : List ApprovalStage) → stage_ids (write_stage s ss) ≡ stage_ids ss
unfolding write_stage
stage_ids-write_stage s [] = refl
stage_ids-write_stage s (t ∷ ts) = elim (Bool-cases (t.id == s.id)) [
  | inl e ↦ rw (e, ← (==_iff t.id s.id).0 e)
  | inr n ↦ rw n (ap (λ l. t.id ∷ l) (stage_ids-write_stage s ts))
]

-- A list that passes the final test and lacks the skipped identifier is approved throughout.
rest_approved :
    (just : ℕ) (ss : List ApprovalStage)
    → All (λ y. y ≢ just) (stage_ids ss)
    → all_stages_approved just ss ≡ true
    → All (λ s. s.status ≡ ApprovalStatus.approved) ss
unfolding all_stages_approved
rest_approved just [] d h = tt
rest_approved just (s ∷ ss) d h =
    (ground (arith, h, d.0), rest_approved just ss d.1 (ground (arith, h, d.0)))

pub write_stage-approved :
    (s : ApprovalStage) (ss : List ApprovalStage)
    → Distinct (stage_ids ss)
    → s.status ≡ ApprovalStatus.approved
    → all_stages_approved s.id (write_stage s ss) ≡ true
    → All (λ t. t.status ≡ ApprovalStatus.approved) (write_stage s ss)
unfolding write_stage all_stages_approved
write_stage-approved s [] d a h = tt
write_stage-approved s (t ∷ ts) d a h = elim (Bool-cases (t.id == s.id)) [
  | inl e ↦ rw e (
    a,
    rest_approved s.id ts
        (subst (λ x. All (λ y. y ≢ x) (stage_ids ts)) ((==_iff t.id s.id).0 e) d.0)
        (ground (arith, h, e, ==_refl s.id)),
  )
  | inr n ↦ rw n (ground (arith, h, n), write_stage-approved s ts d.1 a (ground (arith, h, n)))
]
