-- ===== src/Approval/Ports.antt =====
-- internal/approval/ports.go and engine.go: what the engine calls. The stores and lookups are
-- interfaces there, and so is the table of completers that `Register` fills.
use backend_v.Base.{ℕ, String, Bool, Option, List, Result}
use backend_v.Base.Exec.{Exec}
use backend_v.Approval.Model.{
  Approval, ApprovalEntityType, User, ApprovalStageReview, ApprovalPolicy, Project, ApprovalAction,
  ApprovalStage, PolicyStageTemplate,
}

-- The refusals of the engine, and what its ports return.
pub data ApprovalError : Type 0 where
  policy_not_found : ApprovalError
  port_error : String → ApprovalError
  not_pending no_completer stage_not_found stage_not_pending : ApprovalError
  previous_stages no_permission not_in_team already_reviewed comment_required : ApprovalError
  not_cancellable no_cancel_right invalid_policy no_policy no_stages no_submitter_team :
      ApprovalError
  self_review unknown_team_scope : String → ApprovalError

-- `can_cancel` is there if the completer implements CancelAuthorizer.
pub record Completer (W : Type 0) : Type 0 where
  pub on_approved : Approval → Exec ApprovalError W (Unit {0})
  pub on_rejected : Approval → Exec ApprovalError W (Unit {0})
  pub on_cancelled : Approval → Exec ApprovalError W (Unit {0})
  pub can_cancel : Option (Approval → User → W → Bool)

-- `World` is the database behind the ports. `unmarshal_stages` is json.Unmarshal of a policy's
-- stages; `is_admin` may return a value beside an error. Team lookups return the team identifiers
-- of the roles, in order.
pub record Ports : Type 1 where
  pub World : Type 0
  pub get_by_id : ℕ → World → Result ApprovalError Approval
  pub create_approval : Approval → Exec ApprovalError World Approval
  pub update_approval : Approval → Exec ApprovalError World (Unit {0})
  pub update_stage : ApprovalStage → Exec ApprovalError World (Unit {0})
  pub create_review : ApprovalStageReview → Exec ApprovalError World (Unit {0})
  pub list_by_stage_id : ℕ → World → Result ApprovalError (List ApprovalStageReview)
  pub count_by_stage_and_decision : ℕ → String → World → Result ApprovalError ℕ
  pub get_policy :
      ℕ
      → ApprovalEntityType
      → Option ApprovalAction
      → World
      → Result ApprovalError (Option ApprovalPolicy)
  pub unmarshal_stages : String → Option (List PolicyStageTemplate)
  pub get_user_teams_in_project : ℕ → ℕ → World → Result ApprovalError (List ℕ)
  pub list_project_teams : ℕ → World → Result ApprovalError (List ℕ)
  pub is_member : ℕ → ℕ → World → Result ApprovalError Bool
  pub has_permission_in_project : ℕ → ℕ → String → World → Result ApprovalError Bool
  pub get_project : ℕ → World → Result ApprovalError Project
  pub is_admin : ℕ → ℕ → World → Bool × Option ApprovalError
  pub completers : ApprovalEntityType → Option (Completer World)
