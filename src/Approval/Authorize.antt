-- ===== src/Approval/Authorize.antt =====
-- internal/approval/traversal.go: `authorizeStageReview` and `findStage`, which only read.
use backend_v.Base.{
  ◌>>=◌, ◌>>◌, reject_if, ◌==◌, if◌then◌else◌, any, Result, err, ok, ℕ, String, Bool, true, false,
  not, ◌&&◌, ◌||◌, Option, none, some, List, [], ◌∷◌,
}
use backend_v.Approval.Ports.{
  Ports, no_permission, ApprovalError, previous_stages, not_in_team, stage_not_pending,
  stage_not_found, self_review,
}
use backend_v.Base.Int.{ltb_ℤ}
use backend_v.Approval.Model.{ApprovalStage, is_pending, is_approved, Project, Approval, User}

abbrev pub or_err : {A : Type 0} → Option A → ApprovalError → Result ApprovalError A
or_err none e = err e
or_err (some a) e = ok a

unfoldable pub find_stage : ℕ → List ApprovalStage → Option ApprovalStage
find_stage id [] = none
find_stage id (s ∷ ss) = if s.id == id then some s else find_stage id ss

-- A stage of a lower order that is not approved yet.
abbrev pub blocks : ApprovalStage → ApprovalStage → Bool
blocks stage st = ltb_ℤ st.stage_order stage.stage_order && not (is_approved st.status)

module _ (ports : Ports) where
  open ports use {World, is_member, has_permission_in_project, get_project, is_admin}

  abbrev pub allows : Result ApprovalError Project → Bool
  allows (ok p) = p.self_approval_allowed
  allows (err e) = false

  unfoldable pub self_approval_allowed : ℕ → World → Bool
  self_approval_allowed project w = allows (get_project project w)

  -- An instance owner, or an admin of the project: the lookup's error is dropped.
  unfoldable pub is_privileged : ℕ → User → World → Bool
  is_privileged project user w = user.is_owner || (is_admin project user.id w).0

  abbrev check_member : Result ApprovalError Bool → Result ApprovalError (Unit {0})
  check_member (ok true) = ok tt
  check_member (ok false) = err not_in_team
  check_member (err e) = err e

  unfoldable pub check_team : Option ℕ → ℕ → World → Result ApprovalError (Unit {0})
  check_team none user w = ok tt
  check_team (some team) user w = check_member (is_member team user w)

  abbrev check_perm : Result ApprovalError Bool → Result ApprovalError (Unit {0})
  check_perm (ok true) = ok tt
  check_perm (ok false) = err no_permission
  check_perm (err e) = err e

  -- The permission, then the team, of a reviewer with no privilege.
  unfoldable pub check_reviewer :
      Approval → ApprovalStage → User → World → Result ApprovalError (Unit {0})
  check_reviewer a stage user w =
      check_perm (has_permission_in_project a.project_id user.id stage.required_permission w)
      >> check_team stage.required_team_id user.id w

  unfoldable pub authorize_stage_review :
      Approval → ℕ → User → String → World → Result ApprovalError ApprovalStage
  authorize_stage_review a stage_id user verb w = do
    stage ← or_err (find_stage stage_id a.stages) stage_not_found
    reject_if (not (is_pending stage.status)) stage_not_pending
    reject_if (a.submitted_by == user.id && not (self_approval_allowed a.project_id w))
        (self_review verb)
    reject_if (any (blocks stage) a.stages) previous_stages
    if is_privileged a.project_id user w
        then ok stage
        else (check_reviewer a stage user w >> ok stage)
