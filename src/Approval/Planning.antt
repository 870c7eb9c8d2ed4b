-- ===== src/Approval/Planning.antt =====
-- internal/approval/planning.go: the stages that a submission needs.
use backend_v.Base.{
  ℕ, String, Bool, true, false, ◌||◌, Option, none, some, List, [], ◌∷◌, Result, ok, err, ◌>>=◌,
  any, ◌==◌, str_eq, if◌then◌else◌,
}
use backend_v.Base.Int.{pos}
use backend_v.Approval.Model.{
  ApprovalEntityType, client_attachment, ApprovalPolicy, effective_min_approvers, ApprovalStatus,
  certificate, ApprovalAction, route, ApprovalStage, PolicyStageTemplate,
}
use backend_v.Approval.Ports.{
  Ports, no_policy, policy_not_found, unknown_team_scope, no_stages, invalid_policy, ApprovalError,
  no_submitter_team,
}

-- errors.Is(err, models.ErrPolicyNotFound)
abbrev is_policy_not_found : ApprovalError → Bool
is_policy_not_found policy_not_found = true
is_policy_not_found _ = false

-- A genuine absence is replaced by the other lookup; a failure is kept.
unfoldable pub or_absent :
    Result ApprovalError (Option ApprovalPolicy)
    → Result ApprovalError (Option ApprovalPolicy)
    → Result ApprovalError (Option ApprovalPolicy)
or_absent (err e) other = if is_policy_not_found e then other else err e
or_absent (ok p) other = ok p

default_stage : String → ApprovalStage
default_stage perm = record {
  id = 0;
  approval_id = 0;
  stage_order = pos 1;
  required_permission = perm;
  required_team_id = none;
  reviewed_by = none;
  status = ApprovalStatus.pending;
  comment = "";
  min_approvers = pos 1;
  reviewed_at = none;
}

unfoldable pub no_policy_fallback :
    ApprovalEntityType → Option ApprovalPolicy → Result ApprovalError (List ApprovalStage)
unfolding default_stage
no_policy_fallback client_attachment none = err no_policy
no_policy_fallback client_attachment (some p) = err no_stages
no_policy_fallback certificate p = ok (default_stage "certificate.approve" ∷ [])
no_policy_fallback route p = ok (default_stage "route.approve" ∷ [])

-- The team that `other_team` picks: the first of the project's that the submitter is not in.
unfoldable pub first_other : List ℕ → List ℕ → Option ℕ
first_other mine [] = none
first_other mine (t ∷ ts) = if any (λ m. m == t) mine then first_other mine ts else some t

module _ (ports : Ports) where
  open ports use {
    World, get_policy, unmarshal_stages, get_user_teams_in_project, list_project_teams,
  }

  unfoldable pub submitter_team : List ℕ → Result ApprovalError (Option ℕ)
  submitter_team [] = err no_submitter_team
  submitter_team (t ∷ ts) = ok (some t)

  unfoldable pub resolve_team_scope : String → ℕ → ℕ → World → Result ApprovalError (Option ℕ)
  unfolding submitter_team
  resolve_team_scope scope project user w =
      if str_eq scope "any" || str_eq scope ""
      then ok none
      else if str_eq scope "submitter_team"
      then (do teams ← get_user_teams_in_project project user w; submitter_team teams)
      else if str_eq scope "other_team"
      then (do
        mine ← get_user_teams_in_project project user w
        teams ← list_project_teams project w
        ok (first_other mine teams))
      else err (unknown_team_scope scope)

  plan_stage : PolicyStageTemplate → Option ℕ → ApprovalStage
  plan_stage t team = record {
    id = 0;
    approval_id = 0;
    stage_order = t.order;
    required_permission = t.required_permission;
    required_team_id = team;
    reviewed_by = none;
    status = ApprovalStatus.pending;
    comment = "";
    min_approvers = effective_min_approvers t.min_approvers;
    reviewed_at = none;
  }

  -- The loop over the templates.
  unfoldable pub build_stages :
      List PolicyStageTemplate → ℕ → ℕ → World → Result ApprovalError (List ApprovalStage)
  unfolding plan_stage
  build_stages [] project user w = ok []
  build_stages (t ∷ ts) project user w = do
    team ← resolve_team_scope t.team_scope project user w
    rest ← build_stages ts project user w
    ok (plan_stage t team ∷ rest)

  -- The action's own policy, else the project's default one.
  unfoldable pub find_policy :
      ℕ → ApprovalEntityType → ApprovalAction → World → Result ApprovalError (Option ApprovalPolicy)
  unfolding or_absent
  find_policy project entity action w =
      or_absent (get_policy project entity (some action) w)
        (or_absent (get_policy project entity none w) (ok none))

  decoded : Option (List PolicyStageTemplate) → Result ApprovalError (List PolicyStageTemplate)
  decoded none = err invalid_policy
  decoded (some ts) = ok ts

  unfoldable pub policy_templates :
      Option ApprovalPolicy → Result ApprovalError (List PolicyStageTemplate)
  unfolding decoded
  policy_templates none = ok []
  policy_templates (some p) = decoded (unmarshal_stages p.stages)

  unfoldable pub or_fallback :
      ApprovalEntityType
      → Option ApprovalPolicy
      → List ApprovalStage
      → Result ApprovalError (List ApprovalStage)
  or_fallback entity p [] = no_policy_fallback entity p
  or_fallback entity p (s ∷ ss) = ok (s ∷ ss)

  unfoldable pub plan_stages :
      ℕ
      → ℕ
      → ApprovalEntityType
      → ApprovalAction
      → World
      → Result ApprovalError (List ApprovalStage)
  plan_stages project user entity action w = do
    p ← find_policy project entity action w
    ts ← policy_templates p
    stages ← build_stages ts project user w
    or_fallback entity p stages
