-- ===== src/Route/Tests.antt =====
-- The theorems on routes at concrete routes, with a database of one row.
use backend_v.Base.{
  ◌≡◌, if◌then◌else◌, Any, err, ok, ℕ, String, refl, ◌≢◌, ◌↔◌, true, Option, none, some, [], ◌∷◌,
  str_eq,
}
use backend_v.Approval.Model.{ApprovalAction, Approval, ApprovalStatus, ApprovalEntityType}
use backend_v.Route.Status.{
  TransitionSite, approved, rejected, active, route_update, RouteStatus, deploy, pending_update,
  pending_create, Route, approval_rejected, pending_deploy, approval_approved,
}
use backend_v.Route.Lifecycle.{
  queued_redeploy_kept, Moves, move, active-MakesActive, IsErr, to_status-refuses, to_status-Legal,
  stay, MakesActive,
}
use backend_v.Route.Outcomes.{on_approved-grants, on_approved-refuses}
use backend_v.Route.Endings.{on_cancelled-reverts, on_rejected-reverts}
use backend_v.Route.Completer.{on_cancelled, on_rejected, on_approved}
use backend_v.Route.Machine.{RouteError, to_status, RouteStore, nil_route}
use backend_v.Route.Legal.{in_table, Legal, in_table-Legal, next_deploy, in_table-of-Legal}

abbrev memory : RouteStore ℕ
memory = record {
  World = Option (Route ℕ);
  get_by_id = λ id w. elim w [ none ↦ err nil_route | some r ↦ ok r ];
  update = λ r w. (ok tt, some r);
  delete = λ id w. (ok tt, none);
}

abbrev in_status : RouteStatus → Route ℕ
in_status s = record {
  id = 1;
  domain_id = some 9;
  stream_id = none;
  team_id = 2;
  name = "orders";
  description = "orders";
  protocol = "http";
  security_mode = "general";
  k8s_route_name = "orders-1";
  created_by = 5;
  labels = [];
  config = 7;
  status = s;
}

-- A snapshot is the text of its configuration; only one is known.
abbrev decode : String → Option (Option ℕ)
decode raw = if str_eq raw "eight" then some (some 8) else none

abbrev request : ApprovalAction → Approval
request act = record {
  id = 4;
  project_id = 3;
  entity_type = ApprovalEntityType.route;
  entity_id = 1;
  action = act;
  config_snapshot = some "eight";
  previous_config = none;
  submitted_by = 5;
  status = ApprovalStatus.pending;
  change_description = "";
  ai_review = none;
  stages = [];
}

in_table-Legal_example :
    (in_table deploy pending_deploy active ≡ true) ↔ Legal deploy pending_deploy active
in_table-Legal_example = in_table-Legal deploy pending_deploy active

to_status-Legal_example :
    to_status memory deploy (some (in_status pending_deploy)) active none
    ≡ (ok tt, some (in_status active), some (in_status active))
to_status-Legal_example =
    to_status-Legal memory deploy (in_status pending_deploy) active none next_deploy

not_deployable : ¬ (Legal deploy rejected active)
unfolding in_table
not_deployable l = cc (in_table-of-Legal l)

to_status-refuses_example :
    ((to_status memory deploy (some (in_status rejected)) active none).0 ≡ ok tt
      ↔ (rejected ≡ active))
    × ((to_status memory deploy (some (in_status rejected)) active none).1
        ≡ some (in_status rejected))
    × ((to_status memory deploy (some (in_status rejected)) active none).2 ≡ none)
to_status-refuses_example =
    to_status-refuses memory deploy (in_status rejected) active none not_deployable

asked_then_refused :
    Moves approved ((route_update, approved) ∷ (approval_rejected, pending_update) ∷ []) active
unfolding in_table
asked_then_refused = move {u = pending_update} refl (move {u = active} refl stay)

not_active : approved ≢ active
not_active e = cc e

active-MakesActive_example :
    Any
      (λ (m : TransitionSite × RouteStatus). MakesActive m.0 m.1)
      ((route_update, approved) ∷ (approval_rejected, pending_update) ∷ [])
active-MakesActive_example = active-MakesActive asked_then_refused not_active refl

other_site_than_deploy : approval_rejected ≢ deploy
other_site_than_deploy e = cc e

redeploy_kept :
    IsErr (to_status memory approval_rejected (some (in_status pending_deploy)) active none).0
    × ((to_status memory approval_rejected (some (in_status pending_deploy)) active none).1
        ≡ some (in_status pending_deploy))
    × ((to_status memory approval_rejected (some (in_status pending_deploy)) active none).2 ≡ none)
redeploy_kept =
    queued_redeploy_kept memory approval_rejected (in_status pending_deploy) none refl
      other_site_than_deploy

update_granted :
    on_approved memory decode (request ApprovalAction.update) (some (in_status pending_update))
    ≡ (ok tt, some (record (in_status pending_deploy) { config = 8 }))
update_granted =
    on_approved-grants memory decode (request ApprovalAction.update)
      (some (in_status pending_update)) (in_status pending_update) refl 8 refl refl

not_grantable : ¬ (Legal approval_approved rejected pending_deploy)
unfolding in_table
not_grantable l = cc (in_table-of-Legal l)

not_queued : rejected ≢ pending_deploy
not_queued e = cc e

update_refused :
    (e : RouteError) × (on_approved memory decode
        (request ApprovalAction.update)
        (some (in_status rejected))
      ≡ (err e, some (in_status rejected)))
update_refused =
    on_approved-refuses memory decode (request ApprovalAction.update) (some (in_status rejected))
      (in_status rejected) refl not_grantable not_queued

rejection_reverts :
    on_rejected memory (request ApprovalAction.create) (some (in_status pending_create))
    ≡ (ok tt, some (in_status rejected))
rejection_reverts =
    on_rejected-reverts memory (in_status pending_create) (some (in_status pending_create))
      (request ApprovalAction.create) refl refl

creation_cancelled :
    on_cancelled memory (request ApprovalAction.create) (some (in_status pending_create))
    ≡ (ok tt, none)
creation_cancelled =
    on_cancelled-reverts memory (in_status pending_create) (some (in_status pending_create))
      (request ApprovalAction.create) refl refl
