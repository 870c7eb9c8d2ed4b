-- ===== src/Approval/Laws.antt =====
-- What the engine relies on of its stores: the documented behaviour of the database behind them.
-- `stored` and `reviews` are views of a database: an approval with its stages, by its identifier,
-- and the reviews of a stage in the order of their creation.
use backend_v.Approval.Model.{Approval, ApprovalStageReview, ApprovalEntityType, ApprovalStage}
use backend_v.Approval.Ports.{Ports, Completer, ApprovalError}
use backend_v.Approval.Traversal.{write_stage}
use backend_v.Base.{
  ◌==◌, if◌then◌else◌, length, err, ok, ℕ, ◌≡◌, Option, none, some, List, [], ◌∷◌, ◌++◌, str_eq,
}

-- Who has approved, among the reviews of a stage.
abbrev pub approvers : List ApprovalStageReview → List ℕ
approvers [] = []
approvers (r ∷ rs) =
    let rest = approvers rs in if str_eq r.decision "approved" then r.reviewer_id ∷ rest else rest

-- A row of the stage table is written.
abbrev pub store_stage : ApprovalStage → ℕ → Option Approval → Option Approval
store_stage s id none = none
store_stage s id (some a) =
    if id == s.approval_id then some (record a { stages = write_stage s a.stages }) else some a

-- A row of the approval table is written: the stage rows stay as they are.
abbrev pub store_approval : Approval → ℕ → Option Approval → Option Approval
store_approval b id none = none
store_approval b id (some a) = if id == b.id then some (record b { stages = a.stages }) else some a

-- The reviews of the stage `id` once `r` has been created.
abbrev pub store_review :
    ApprovalStageReview → ℕ → List ApprovalStageReview → List ApprovalStageReview
store_review r id rs = if id == r.stage_id then rs ++ r ∷ [] else rs

module _ (ports : Ports) where
  open ports use {World}

  -- Two databases with the same approvals and reviews.
  pub record SameView (stored : World → ℕ → Option Approval)
      (reviews : World → ℕ → List ApprovalStageReview) (w w' : World) : Type 0 where
    pub same_stored : (i : ℕ) → stored w' i ≡ stored w i
    pub same_reviews : (i : ℕ) → reviews w' i ≡ reviews w i

  -- Reads return what is stored; a write that succeeds has its effect and no other; a write that
  -- fails has none. Completers leave the approval tables alone.
  pub record StoreLaws : Type 0 where
    pub stored : World → ℕ → Option Approval
    pub reviews : World → ℕ → List ApprovalStageReview
    pub get_law :
        (i : ℕ) (w : World) (a : Approval) → ports.get_by_id i w ≡ ok a → stored w i ≡ some a
    pub list_law :
        (s : ℕ) (w : World) (rs : List ApprovalStageReview)
        → ports.list_by_stage_id s w ≡ ok rs
        → reviews w s ≡ rs
    pub count_law :
        (s : ℕ) (w : World) (n : ℕ)
        → ports.count_by_stage_and_decision s "approved" w ≡ ok n
        → n ≡ length (approvers (reviews w s))
    pub review_stored :
        (r : ApprovalStageReview) (w : World) (i : ℕ)
        → stored (ports.create_review r w).1 i ≡ stored w i
    pub review_ok :
        (r : ApprovalStageReview) (w : World)
        → (ports.create_review r w).0 ≡ ok tt
        → (i : ℕ) → reviews (ports.create_review r w).1 i ≡ store_review r i (reviews w i)
    pub review_err :
        (r : ApprovalStageReview) (w : World) (e : ApprovalError)
        → (ports.create_review r w).0 ≡ err e
        → (i : ℕ) → reviews (ports.create_review r w).1 i ≡ reviews w i
    pub stage_reviews :
        (s : ApprovalStage) (w : World) (i : ℕ) → reviews (ports.update_stage s w).1 i ≡ reviews w i
    pub stage_ok :
        (s : ApprovalStage) (w : World)
        → (ports.update_stage s w).0 ≡ ok tt
        → (i : ℕ) → stored (ports.update_stage s w).1 i ≡ store_stage s i (stored w i)
    pub stage_err :
        (s : ApprovalStage) (w : World) (e : ApprovalError)
        → (ports.update_stage s w).0 ≡ err e
        → (i : ℕ) → stored (ports.update_stage s w).1 i ≡ stored w i
    pub approval_reviews :
        (a : Approval) (w : World) (i : ℕ) → reviews (ports.update_approval a w).1 i ≡ reviews w i
    pub approval_ok :
        (a : Approval) (w : World)
        → (ports.update_approval a w).0 ≡ ok tt
        → (i : ℕ) → stored (ports.update_approval a w).1 i ≡ store_approval a i (stored w i)
    pub approval_err :
        (a : Approval) (w : World) (e : ApprovalError)
        → (ports.update_approval a w).0 ≡ err e
        → (i : ℕ) → stored (ports.update_approval a w).1 i ≡ stored w i
    pub completers_law :
        (t : ApprovalEntityType) (c : Completer World)
        → ports.completers t ≡ some c
        → (a : Approval) (w : World)
        → SameView stored reviews w (c.on_approved a w).1
          × SameView stored reviews w (c.on_rejected a w).1
          × SameView stored reviews w (c.on_cancelled a w).1
