-- ===== src/Approval/Model.antt =====
-- internal/models/approval.go, with the parts of users, projects and teams that approvals read.
-- Identifiers (uuid.UUID) are numbers, only ever compared; raw JSON and instants are kept as given.
use backend_v.Base.{ℕ, zero, suc, String, Bool, true, false, Option, List}
use backend_v.Base.Int.{ℤ, pos, negsuc}

pub data ApprovalStatus : Type 0 where
  pending approved rejected cancelled : ApprovalStatus

pub data ApprovalEntityType : Type 0 where
  route client_attachment certificate : ApprovalEntityType

pub data ApprovalAction : Type 0 where
  create update delete attach detach export : ApprovalAction

abbrev pub is_pending : ApprovalStatus → Bool
is_pending pending = true
is_pending _ = false

abbrev pub is_approved : ApprovalStatus → Bool
is_approved approved = true
is_approved _ = false

pub record ApprovalStage : Type 0 where
  pub id : ℕ
  pub approval_id : ℕ
  pub stage_order : ℤ
  pub required_permission : String
  pub required_team_id : Option ℕ
  pub reviewed_by : Option ℕ
  pub status : ApprovalStatus
  pub comment : String
  pub min_approvers : ℤ
  pub reviewed_at : Option ℕ

pub record Approval : Type 0 where
  pub id : ℕ
  pub project_id : ℕ
  pub entity_type : ApprovalEntityType
  pub entity_id : ℕ
  pub action : ApprovalAction
  pub config_snapshot : Option String
  pub previous_config : Option String
  pub submitted_by : ℕ
  pub status : ApprovalStatus
  pub change_description : String
  pub ai_review : Option String
  pub stages : List ApprovalStage

-- A stored policy; its stages are raw JSON.
pub record ApprovalPolicy : Type 0 where
  pub stages : String

pub record PolicyStageTemplate : Type 0 where
  pub order : ℤ
  pub required_permission : String
  pub team_scope : String
  pub min_approvers : ℤ

pub record ApprovalStageReview : Type 0 where
  pub stage_id : ℕ
  pub reviewer_id : ℕ
  pub decision : String

pub record User : Type 0 where
  pub id : ℕ
  pub is_owner : Bool

pub record Project : Type 0 where
  pub approval_enabled : Bool
  pub self_approval_allowed : Bool

-- `n <= 0` counts as 1.
unfoldable pub effective_min_approvers : ℤ → ℤ
effective_min_approvers (pos zero) = pos 1
effective_min_approvers (pos (suc n)) = pos (suc n)
effective_min_approvers (negsuc n) = pos 1
