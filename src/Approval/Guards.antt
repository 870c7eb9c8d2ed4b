-- ===== src/Approval/Guards.antt =====
-- internal/approval/traversal.go: the guards of `ApproveStage`, `RejectStage` and `Cancel`, up to
-- their first write. They only read.
use backend_v.Base.{
  ◌>>=◌, ◌>>◌, reject_if, ◌==◌, any, Result, ok, ℕ, String, Bool, true, false, not, ◌||◌, Option,
  none, some, List, str_eq,
}
use backend_v.Approval.Ports.{
  Ports, Completer, no_completer, comment_required, not_cancellable, not_pending, ApprovalError,
  already_reviewed, no_cancel_right,
}
use backend_v.Approval.Authorize.{or_err, authorize_stage_review, is_privileged}
use backend_v.Approval.Model.{
  Approval, ApprovalStage, ApprovalStatus, User, is_pending, ApprovalStageReview,
}

abbrev pub has_reviewed : ℕ → List ApprovalStageReview → Bool
has_reviewed user reviews = any (λ r. r.reviewer_id == user) reviews

-- Cancellation is open to pending and approved approvals.
abbrev pub cancellable : ApprovalStatus → Bool
cancellable ApprovalStatus.pending = true
cancellable ApprovalStatus.approved = true
cancellable _ = false

module _ (ports : Ports) where
  open ports use {World, get_by_id, list_by_stage_id, completers}

  abbrev pub Opened : Type 0
  Opened = Approval × Completer World × ApprovalStage

  unfoldable pub open_approve : ℕ → ℕ → User → World → Result ApprovalError Opened
  open_approve approval_id stage_id user w = do
    a ← get_by_id approval_id w
    reject_if (not (is_pending a.status)) not_pending
    c ← or_err (completers a.entity_type) no_completer
    stage ← authorize_stage_review ports a stage_id user "approve" w
    existing ← list_by_stage_id stage.id w
    reject_if (has_reviewed user.id existing) already_reviewed
    ok (a, c, stage)

  unfoldable pub open_reject : ℕ → ℕ → User → String → World → Result ApprovalError Opened
  open_reject approval_id stage_id user text w = do
    reject_if (str_eq text "") comment_required
    a ← get_by_id approval_id w
    reject_if (not (is_pending a.status)) not_pending
    c ← or_err (completers a.entity_type) no_completer
    stage ← authorize_stage_review ports a stage_id user "reject" w
    ok (a, c, stage)

  abbrev pub extra_right : Option (Approval → User → World → Bool) → Approval → User → World → Bool
  extra_right none a user w = false
  extra_right (some f) a user w = f a user w

  unfoldable pub may_cancel : Approval → Completer World → User → World → Bool
  may_cancel a c user w =
      (a.submitted_by == user.id || is_privileged ports a.project_id user w)
      || extra_right c.can_cancel a user w

  unfoldable pub open_cancel : ℕ → User → World → Result ApprovalError (Approval × Completer World)
  open_cancel approval_id user w = do
    a ← get_by_id approval_id w
    reject_if (not (cancellable a.status)) not_cancellable
    c ← or_err (completers a.entity_type) no_completer
    reject_if (not (may_cancel a c user w)) no_cancel_right
    ok (a, c)
