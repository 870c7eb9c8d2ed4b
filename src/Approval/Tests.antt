-- ===== src/Approval/Tests.antt =====
-- The theorems on approvals at an approval of one stage, in a database of two tables.
use backend_v.Base.{
  All, map, err, ok, ◌==◌, if◌then◌else◌, length, ok_inj, Result, String, ℕ, ◌≡◌, refl, sym, ap,
  true, false, Option, none, some, List, [], ◌∷◌, str_eq, some_inj, ==_iff, subst, ◌≢◌, ◌⊎◌, Bool,
}
use backend_v.Base.Int.{pos, ℤ}
use backend_v.Approval.Planning.{
  plan_stages, find_policy, policy_templates, build_stages, resolve_team_scope, or_fallback,
  or_absent, first_other,
}
use backend_v.Approval.Planned.{
  IsPlanned, gate, template_gate, plan_stages-IsPlanned, plan_stages-gate,
}
use backend_v.Approval.Traversal.{reject_stage, cancel, approve_stage}
use backend_v.Approval.Authorized.{authorize_stage_review-ok_iff, MayReview}
use backend_v.Approval.Ports.{Ports, policy_not_found, ApprovalError, Completer, port_error}
use backend_v.Approval.Model.{
  ApprovalPolicy, PolicyStageTemplate, effective_min_approvers, ApprovalStage, ApprovalAction,
  ApprovalEntityType, ApprovalStatus, ApprovalStageReview, Approval, User,
}
use backend_v.Approval.Laws.{
  store_review, store_stage, StoreLaws, store_approval, approvers, SameView,
}
use backend_v.Approval.Authorize.{
  check_team, is_privileged, authorize_stage_review, find_stage, check_reviewer,
}
use backend_v.Approval.Gate.Operations.{approve_stage-IsGated}
use backend_v.Approval.Gate.Endings.{reject_stage-IsGated, cancel-IsGated}
use backend_v.Approval.Gate.Writes.{IsGated}
use backend_v.Approval.Guards.{Opened, has_reviewed}
use backend_v.Approval.Unchanged.{approve_stage-guarded, reject_stage-guarded}
use backend_v.Approval.Gate.Opened.{Ready}
use backend_v.Approval.Gate.Good.{Good}

pub record Tables : Type 0 where
  approvals : ℕ → Option Approval
  reviews : ℕ → List ApprovalStageReview

abbrev or_missing : Option Approval → Result ApprovalError Approval
or_missing none = err (port_error "record not found")
or_missing (some a) = ok a

abbrev quiet : Completer Tables
quiet = record {
  on_approved = λ a w. (ok tt, w);
  on_rejected = λ a w. (ok tt, w);
  on_cancelled = λ a w. (ok tt, w);
  can_cancel = none;
}

abbrev memory : Ports
memory = record {
  World = Tables;
  get_by_id = λ i w. or_missing (w.approvals i);
  create_approval = λ a w. (ok a, w);
  update_approval =
      λ a w. (ok tt, record w { approvals = λ i. store_approval a i (w.approvals i) });
  update_stage = λ s w. (ok tt, record w { approvals = λ i. store_stage s i (w.approvals i) });
  create_review = λ r w. (ok tt, record w { reviews = λ i. store_review r i (w.reviews i) });
  list_by_stage_id = λ s w. ok (w.reviews s);
  count_by_stage_and_decision =
      λ s d w. ok (if str_eq d "approved" then length (approvers (w.reviews s)) else 0);
  get_policy = λ p t a w. err policy_not_found;
  unmarshal_stages = λ s. none;
  get_user_teams_in_project = λ u p w. ok [];
  list_project_teams = λ p w. ok [];
  is_member = λ t u w. ok false;
  has_permission_in_project = λ p u perm w. ok (str_eq perm "route.approve");
  get_project = λ p w. ok (record { approval_enabled = true; self_approval_allowed = false });
  is_admin = λ p u w. (false, none);
  completers = λ t. some quiet;
}

same : (w : Tables) → SameView memory (λ v. v.approvals) (λ v. v.reviews) w w
same w = record { same_stored = λ i. refl; same_reviews = λ i. refl }

or_missing-ok : (o : Option Approval) (a : Approval) → or_missing o ≡ ok a → o ≡ some a
or_missing-ok none a h = absurd (cc h)
or_missing-ok (some b) a h = ap some (ok_inj h)

succeeds : (e : ApprovalError) → ¬ (◌≡◌ {A = Result ApprovalError (Unit {0})} (ok tt) (err e))
succeeds e h = cc h

quiet-SameView :
    (c : Completer Tables)
    → some quiet ≡ some c
    → (a : Approval) (w : Tables)
    → SameView memory (λ v. v.approvals) (λ v. v.reviews) w (c.on_approved a w).1
      × SameView memory (λ v. v.approvals) (λ v. v.reviews) w (c.on_rejected a w).1
      × SameView memory (λ v. v.approvals) (λ v. v.reviews) w (c.on_cancelled a w).1
quiet-SameView c h a w =
    subst
      (λ (d : Completer Tables).
        SameView memory (λ v. v.approvals) (λ v. v.reviews) w (d.on_approved a w).1
        × SameView memory (λ v. v.approvals) (λ v. v.reviews) w (d.on_rejected a w).1
        × SameView memory (λ v. v.approvals) (λ v. v.reviews) w (d.on_cancelled a w).1)
      (some_inj h) (same w, same w, same w)

abbrev laws : StoreLaws memory
laws = record {
  stored = λ w. w.approvals;
  reviews = λ w. w.reviews;
  get_law = λ i w a h. or_missing-ok (w.approvals i) a h;
  list_law = λ s w rs h. ok_inj h;
  count_law = λ s w n h. sym (ok_inj h);
  review_stored = λ r w i. refl;
  review_ok = λ r w h i. refl;
  review_err = λ r w e h. absurd (succeeds e h);
  stage_reviews = λ s w i. refl;
  stage_ok = λ s w h i. refl;
  stage_err = λ s w e h. absurd (succeeds e h);
  approval_reviews = λ a w i. refl;
  approval_ok = λ a w h i. refl;
  approval_err = λ a w e h. absurd (succeeds e h);
  completers_law = λ t c h a w. quiet-SameView c h a w;
}

abbrev stage : ApprovalStage
stage = record {
  id = 10;
  approval_id = 4;
  stage_order = pos 1;
  required_permission = "route.approve";
  required_team_id = none;
  reviewed_by = none;
  status = ApprovalStatus.pending;
  comment = "";
  min_approvers = pos 1;
  reviewed_at = none;
}

abbrev change : Approval
change = record {
  id = 4;
  project_id = 3;
  entity_type = ApprovalEntityType.route;
  entity_id = 1;
  action = ApprovalAction.update;
  config_snapshot = none;
  previous_config = none;
  submitted_by = 5;
  status = ApprovalStatus.pending;
  change_description = "";
  ai_review = none;
  stages = stage ∷ [];
}

abbrev reviewer : User
reviewer = record { id = 9; is_owner = false }

abbrev submitter : User
submitter = record { id = 5; is_owner = false }

abbrev start : Tables
start = record { approvals = λ i. if i == 4 then some change else none; reviews = λ s. [] }

change-Good : Good (λ s. []) 4 change
change-Good = record {
  keyed = refl;
  owned = (refl, tt);
  distinct = (tt, tt);
  enough = ((λ h. absurd (cc h)), tt);
  complete = λ h. absurd (cc h);
}

start-Good :
    (b : Bool) (i : ℕ) (a : Approval)
    → (i == 4) ≡ b
    → (if b then some change else none) ≡ some a
    → Good (λ s. []) i a
start-Good true i a e h =
    subst (λ x. Good (λ s. []) i x) (some_inj h)
      (subst (λ j. Good (λ s. []) j change) (sym ((==_iff i 4).0 e)) change-Good)
start-Good false i a e h = absurd (cc h)

start-IsGated : IsGated memory laws start
start-IsGated = record { good = λ i a e. start-Good (i == 4) i a refl e; once = λ s. tt }

approve_stage-IsGated_example : IsGated memory laws (approve_stage memory 4 10 reviewer 100 start).1
approve_stage-IsGated_example =
    approve_stage-IsGated memory laws 4 10 reviewer 100 start start-IsGated

reject_stage-IsGated_example :
    IsGated memory laws (reject_stage memory 4 10 reviewer 100 "too wide" start).1
reject_stage-IsGated_example =
    reject_stage-IsGated memory laws 4 10 reviewer 100 "too wide" start start-IsGated

cancel-IsGated_example : IsGated memory laws (cancel memory 4 submitter start).1
cancel-IsGated_example = cancel-IsGated memory laws 4 submitter start start-IsGated

reviewed : authorize_stage_review memory change 10 reviewer "approve" start ≡ ok stage
unfolding authorize_stage_review find_stage is_privileged check_reviewer check_team
reviewed = refl

authorize_stage_review-ok_iff_example : MayReview memory change 10 reviewer start stage
authorize_stage_review-ok_iff_example =
    (authorize_stage_review-ok_iff memory change 10 reviewer "approve" start stage).0 reviewed

approval_guarded :
    ((approve_stage memory 4 10 reviewer 100 start).1 ≡ start)
    ⊎ ((o : Opened memory) × (Ready memory 4 10 reviewer start o.0 o.1 o.2
          × ((rs : List ApprovalStageReview) × (◌≡◌
                {A = Result ApprovalError (List ApprovalStageReview)}
                (ok [])
                (ok rs))
              × (has_reviewed 9 rs ≡ false))))
approval_guarded = approve_stage-guarded memory 4 10 reviewer 100 start

rejection_guarded :
    ((reject_stage memory 4 10 reviewer 100 "" start).1 ≡ start)
    ⊎ ((o : Opened memory) × ((◌≢◌ {A = String} "" "")
          × Ready memory 4 10 reviewer start o.0 o.1 o.2))
rejection_guarded = reject_stage-guarded memory 4 10 reviewer 100 "" start

-- A policy of two stages, the first of them for another team.
abbrev templates : List PolicyStageTemplate
templates =
    (record {
      order = pos 1;
      required_permission = "client.approve";
      team_scope = "other_team";
      min_approvers = pos 2;
    })
    ∷ (record {
      order = pos 2;
      required_permission = "client.approve";
      team_scope = "any";
      min_approvers = pos 0;
    })
    ∷ []

abbrev policy : ApprovalPolicy
policy = record { stages = "two stages" }

abbrev with_policy : Ports
with_policy = record memory {
  get_policy = λ p t a w. ok (some policy);
  unmarshal_stages = λ s. some templates;
}

abbrev planned : ℤ → Option ℕ → ℤ → ApprovalStage
planned order team approvers = record {
  id = 0;
  approval_id = 0;
  stage_order = order;
  required_permission = "client.approve";
  required_team_id = team;
  reviewed_by = none;
  status = ApprovalStatus.pending;
  comment = "";
  min_approvers = approvers;
  reviewed_at = none;
}

abbrev two_planned : List ApprovalStage
two_planned = planned (pos 1) none (pos 2) ∷ planned (pos 2) none (pos 1) ∷ []

plans_two :
    plan_stages with_policy 3 5 ApprovalEntityType.client_attachment ApprovalAction.attach start
    ≡ ok two_planned
unfolding plan_stages find_policy policy_templates build_stages resolve_team_scope or_fallback
    effective_min_approvers or_absent first_other
plans_two = refl

finds_policy :
    find_policy with_policy 3 ApprovalEntityType.client_attachment ApprovalAction.attach start
    ≡ ok (some policy)
unfolding find_policy or_absent
finds_policy = refl

two_stages-IsPlanned : (two_planned ≢ []) × All IsPlanned two_planned
two_stages-IsPlanned =
    plan_stages-IsPlanned with_policy 3 5 ApprovalEntityType.client_attachment ApprovalAction.attach
      start two_planned plans_two

two_stages : map gate two_planned ≡ map template_gate templates
two_stages =
    plan_stages-gate with_policy 3 5 ApprovalEntityType.client_attachment ApprovalAction.attach
      start policy
      (record {
        order = pos 1;
        required_permission = "client.approve";
        team_scope = "other_team";
        min_approvers = pos 2;
      })
      ((record {
        order = pos 2;
        required_permission = "client.approve";
        team_scope = "any";
        min_approvers = pos 0;
      })
        ∷ [])
      two_planned finds_policy refl plans_two
