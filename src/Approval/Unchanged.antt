-- ===== src/Approval/Unchanged.antt =====
-- Without the right to review, approving and rejecting write nothing.
use backend_v.Base.{err, ok, Result, ℕ, String, ◌≡◌, refl, ◌≢◌, ◌⊎◌, inl, inr, false, List}
use backend_v.Approval.Traversal.{reject_stage, approve_stage}
use backend_v.Approval.Ports.{Ports}
use backend_v.Approval.Guards.{has_reviewed, open_approve, Opened, open_reject}
use backend_v.Approval.Model.{ApprovalStageReview, User}
use backend_v.Approval.Gate.Opened.{open_reject-Ready, open_approve-Ready, Ready}

split_result : {E A : Type 0} (r : Result E A) → ((e : E) × (r ≡ err e)) ⊎ ((a : A) × (r ≡ ok a))
split_result (ok a) = inr (a, refl)
split_result (err e) = inl (e, refl)

module _ (ports : Ports) where
  open ports use {World, list_by_stage_id}

  -- Approving a stage leaves the database as it was, unless the approval is stored, pending and has
  -- a completer, the stage is open to this reviewer (pending, every stage of a lower order approved,
  -- no forbidden self-review, the permission and the team), and the reviewer has no review of the
  -- stage yet.
  pub approve_stage-guarded :
      (i stage_id : ℕ) (user : User) (now : ℕ) (w : World)
      → ((approve_stage ports i stage_id user now w).1 ≡ w)
        ⊎ ((o : Opened ports) × (Ready ports i stage_id user w o.0 o.1 o.2
              × ((rs : List ApprovalStageReview) × (list_by_stage_id o.2.id w ≡ ok rs)
                  × (has_reviewed user.id rs ≡ false))))
  unfolding approve_stage
  approve_stage-guarded i stage_id user now w =
      elim (split_result (open_approve ports i stage_id user w)) [
        | inl (e, p) ↦ inl (rw p refl)
        | inr (o, p) ↦ inr (o, open_approve-Ready ports i stage_id user w o p)
      ]

  -- Rejecting a stage leaves the database as it was, unless there is a comment, the approval is
  -- stored, pending and has a completer, and the stage is open to this reviewer.
  pub reject_stage-guarded :
      (i stage_id : ℕ) (user : User) (now : ℕ) (text : String) (w : World)
      → ((reject_stage ports i stage_id user now text w).1 ≡ w)
        ⊎ ((o : Opened ports) × ((text ≢ "") × Ready ports i stage_id user w o.0 o.1 o.2))
  unfolding reject_stage
  reject_stage-guarded i stage_id user now text w =
      elim (split_result (open_reject ports i stage_id user text w)) [
        | inl (e, p) ↦ inl (rw p refl)
        | inr (o, p) ↦ inr (o, open_reject-Ready ports i stage_id user text w o p)
      ]
