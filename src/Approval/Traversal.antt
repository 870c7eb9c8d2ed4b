-- ===== src/Approval/Traversal.antt =====
-- internal/approval/traversal.go: submitting, approving, rejecting and cancelling. The current time
-- is an argument. A stage pointer aliases its slot in `approval.Stages`, so a change of the stage is
-- a change of the approval in memory.
use backend_v.Base.Exec.{Exec, read, ◌>>=◌, ◌>>◌, best_effort, pure}
use backend_v.Approval.Model.{
  Approval, ApprovalStage, ApprovalStatus, ApprovalAction, ApprovalEntityType, User,
  ApprovalStageReview, is_approved, effective_min_approvers,
}
use backend_v.Approval.Ports.{Ports, ApprovalError, Completer}
use backend_v.Approval.Planning.{plan_stages}
use backend_v.Base.{◌==◌, if◌then◌else◌, ℕ, String, Bool, true, false, Option, some, List, [], ◌∷◌}
use backend_v.Base.Int.{ltb_ℤ, pos}
use backend_v.Approval.Guards.{open_approve, open_reject, open_cancel}

pub record Spec : Type 0 where
  pub project_id : ℕ
  pub entity_type : ApprovalEntityType
  pub entity_id : ℕ
  pub action : ApprovalAction
  pub submitted_by : ℕ
  pub config_snapshot : Option String
  pub previous_config : Option String
  pub ai_review : Option String
  pub change_description : String

-- A write through the pointer that `find_stage` returned.
unfoldable pub write_stage : ApprovalStage → List ApprovalStage → List ApprovalStage
write_stage s [] = []
write_stage s (t ∷ ts) = if t.id == s.id then s ∷ ts else t ∷ write_stage s ts

-- The loop of `allStagesApproved`.
unfoldable pub all_stages_approved : ℕ → List ApprovalStage → Bool
all_stages_approved just [] = true
all_stages_approved just (s ∷ ss) =
    if s.id == just
    then all_stages_approved just ss
    else if is_approved s.status
    then all_stages_approved just ss
    else false

unfoldable pub new_approval : Spec → List ApprovalStage → Approval
new_approval spec stages = record {
  id = 0;
  project_id = spec.project_id;
  entity_type = spec.entity_type;
  entity_id = spec.entity_id;
  action = spec.action;
  config_snapshot = spec.config_snapshot;
  previous_config = spec.previous_config;
  submitted_by = spec.submitted_by;
  status = ApprovalStatus.pending;
  change_description = spec.change_description;
  ai_review = spec.ai_review;
  stages = stages;
}

abbrev pub approved_stage : ApprovalStage → ℕ → ℕ → ApprovalStage
approved_stage s user now = record s {
  status = ApprovalStatus.approved;
  reviewed_by = some user;
  reviewed_at = some now;
}

abbrev pub rejected_stage : ApprovalStage → ℕ → ℕ → String → ApprovalStage
rejected_stage s user now text = record s {
  status = ApprovalStatus.rejected;
  reviewed_by = some user;
  reviewed_at = some now;
  comment = text;
}

-- The approval in memory once the stage has been changed through its pointer.
abbrev pub with_stage : Approval → ApprovalStage → Approval
with_stage a s = record a { stages = write_stage s a.stages }

module _ (ports : Ports) where
  open ports use {
    World, get_by_id, create_approval, update_approval, update_stage, create_review,
    list_by_stage_id, count_by_stage_and_decision, is_admin, completers,
  }

  abbrev pub Action : Type 0 → Type 0
  Action A = Exec ApprovalError World A

  unfoldable pub submit : Spec → Action Approval
  submit spec = do
    stages ← read (plan_stages ports spec.project_id spec.submitted_by spec.entity_type spec.action)
    create_approval (new_approval spec stages)

  abbrev review_of : ApprovalStage → User → String → ApprovalStageReview
  review_of stage user decision = record {
    stage_id = stage.id;
    reviewer_id = user.id;
    decision = decision;
  }

  -- `approval.Status = approved`, its write, and the completer's turn.
  unfoldable pub complete : Approval → Completer World → Action (Unit {0})
  complete a c = do
    let done : Approval = record a { status = ApprovalStatus.approved }
    update_approval done
    c.on_approved done

  -- The stage has its approvals: it is written as approved, and so is the approval if it was the last.
  unfoldable pub close_stage : Approval → Completer World → ApprovalStage → Action (Unit {0})
  close_stage a c stage = do
    update_stage stage
    if all_stages_approved stage.id (with_stage a stage).stages
        then complete (with_stage a stage) c
        else pure tt

  -- The writes of `ApproveStage`.
  unfoldable pub record_approval :
      Approval → Completer World → ApprovalStage → User → ℕ → Action (Unit {0})
  record_approval a c stage user now = do
    create_review (review_of stage user "approved")
    count ← read (count_by_stage_and_decision stage.id "approved")
    if ltb_ℤ (pos count) (effective_min_approvers stage.min_approvers)
        then pure tt
        else close_stage a c (approved_stage stage user.id now)

  unfoldable pub approve_stage : ℕ → ℕ → User → ℕ → Action Approval
  approve_stage approval_id stage_id user now = do
    found ← read (open_approve ports approval_id stage_id user)
    record_approval found.0 found.1 found.2 user now
    read (get_by_id approval_id)

  -- The writes of `RejectStage`; the audit record may fail.
  unfoldable pub record_rejection :
      Approval → Completer World → ApprovalStage → User → ℕ → String → Action (Unit {0})
  record_rejection a c stage user now text = do
    let stage' : ApprovalStage = rejected_stage stage user.id now text
    let a' : Approval = record (with_stage a stage') { status = ApprovalStatus.rejected }
    best_effort (create_review (review_of stage user "rejected"))
    update_stage stage'
    update_approval a'
    c.on_rejected a'

  unfoldable pub reject_stage : ℕ → ℕ → User → ℕ → String → Action Approval
  reject_stage approval_id stage_id user now text = do
    found ← read (open_reject ports approval_id stage_id user text)
    record_rejection found.0 found.1 found.2 user now text
    read (get_by_id approval_id)

  unfoldable pub record_cancel : Approval → Completer World → Action (Unit {0})
  record_cancel a c = do
    let a' : Approval = record a { status = ApprovalStatus.cancelled }
    update_approval a'
    c.on_cancelled a'

  unfoldable pub cancel : ℕ → User → Action Approval
  cancel approval_id user = do
    found ← read (open_cancel ports approval_id user)
    record_cancel found.0 found.1
    read (get_by_id approval_id)
