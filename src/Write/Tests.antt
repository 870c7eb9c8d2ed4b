-- ===== src/Write/Tests.antt =====
-- The theorems on route writes at a database of one route, with a policy and a pending approval.
use backend_v.Write.Samples.{no_float, plain_text, engine, blank, orders, by_id, by_id-key}
use backend_v.Base.{
  if◌then◌else◌, ok, String, Bool, true, false, Option, none, some, [], ◌∷◌, ==_refl, ok_inj, ◌≡◌,
  refl, sym, ap, subst, str_eq,
}
use backend_v.Approval.Traversal.{submit, new_approval}
use backend_v.Write.Tables.{Tables, Snapshot, UpdateRouteInput, RouteService}
use backend_v.Write.Submit.{
  update, proposed, submit_update, current, persist_update_policies, transition, submit_approval,
  delete, is_general, route_store,
}
use backend_v.Approval.Model.{Approval, ApprovalStatus, ApprovalAction, ApprovalEntityType}
use backend_v.Write.Security.{
  SecurityPolicyConfig, SecurityPolicyInput, build_oidc, build_authorization, security_config,
  build_jwt, build_api_key_auth, validate_security_mode_general, validate_write_security_mode,
}
use backend_v.Write.Checks.{
  validate_route_traffic_policies, apply_fields, route_project_id, validate_update, is_l4,
  validate_route_owner,
}
use backend_v.Route.Status.{Route, RouteStatus}
use backend_v.Route.Machine.{try_targets, to_status, write_status, by_site}
use backend_v.Base.Int.{pos}
use backend_v.Approval.Planning.{
  no_policy_fallback, find_policy, policy_templates, build_stages, plan_stages, or_fallback,
  or_absent,
}
use backend_v.Write.Laws.{StoreLaws}
use backend_v.Write.Dropped.{fast_update-ignores}
use backend_v.Write.Blocked.{pending_blocks, Stopped}
use backend_v.Write.Undeployed.{ended_update_activates}
use backend_v.Write.Settled.{rejected_policy, approved_update}
use backend_v.Route.Table.{legal_transitions}
use backend_v.Route.Completer.{on_rejected, on_approved, on_cancelled}

record Site : Type 0 where
  line : Option (Route Bool)
  policy : Option SecurityPolicyConfig
  request : Option Approval

-- A policy table that keeps nothing.
abbrev one_route : Tables Bool no_float Site
one_route = record {
  get_route = λ id w. by_id id w.line;
  create_route = λ r w. (ok tt, record w { line = some r });
  update_route = λ r w. (ok tt, record w { line = some r });
  delete_route = λ id w. (ok tt, record w { line = none });
  exists_by_name = λ d n w. ok false;
  exists_by_stream_and_name = λ d n w. ok false;
  domain_project = λ d w. some 3;
  stream_project = λ d w. some 3;
  team_exists = λ t w. true;
  get_pending = λ id w. w.request;
  security = record {
    get_by_route_id = λ id w. w.policy;
    create = λ id p c w. (ok tt, record w { policy = some c });
    upsert = λ id p c w. (ok tt, record w { policy = some c });
    delete_by_route_id = λ id w. (ok tt, record w { policy = none });
  };
  traffic = blank;
  extension = blank;
  waf = blank;
}

-- A snapshot's text is that of its configuration.
abbrev as_text : Snapshot Bool no_float → String
as_text s = if s.route_config then "old" else "new"

abbrev routes : Bool → RouteService
routes approvals = record {
  Config = Bool;
  std = no_float;
  text = plain_text;
  ports = record (engine Site approvals) {
    create_approval = λ a w. (ok a, record w { request = some a });
  };
  tables = one_route;
  checks = record {
    backends = λ c n w. ok tt;
    direct_response = λ c p. ok tt;
    shape = λ c p s d t e w. ok tt;
  };
  key_matches = λ s. true;
  value_matches = λ s. true;
  marshal = as_text;
}

abbrev cors_only : SecurityPolicyInput
cors_only = record {
  cors = some "allow all";
  authorization = none;
  api_key_auth = none;
  jwt = none;
  oidc = none;
  ext_auth = none;
}

abbrev change : Bool → UpdateRouteInput Bool no_float
change config = record {
  description = "";
  config = config;
  security = some cors_only;
  traffic = none;
  extension = none;
  waf = none;
  change_description = "";
  ai_review = none;
  labels = none;
}

abbrev start : Site
start = record { line = some (orders RouteStatus.active); policy = none; request = none }

abbrev decode : String → Option (Option Bool)
decode raw = if str_eq raw "old" then some (some true) else some (some false)

decodes : (s : Snapshot Bool no_float) → decode (as_text s) ≡ some (some s.route_config)
decodes s = of_config s.route_config
  where
    of_config : (b : Bool) → decode (if b then "old" else "new") ≡ some (some b)
    of_config true = refl
    of_config false = refl

abbrev asked_for : Approval
asked_for = record {
  id = 0;
  project_id = 3;
  entity_type = ApprovalEntityType.route;
  entity_id = 1;
  action = ApprovalAction.update;
  config_snapshot = some "new";
  previous_config = some "old";
  submitted_by = 5;
  status = ApprovalStatus.pending;
  change_description = "";
  ai_review = none;
  stages =
      record {
        id = 0;
        approval_id = 0;
        stage_order = pos 1;
        required_permission = "route.approve";
        required_team_id = none;
        reviewed_by = none;
        status = ApprovalStatus.pending;
        comment = "";
        min_approvers = pos 1;
        reviewed_at = none;
      }
      ∷ [];
}

abbrev cors_policy : SecurityPolicyConfig
cors_policy = record {
  cors = some "allow all";
  authorization = none;
  api_key_auth = none;
  jwt = none;
  oidc = none;
  ext_auth = none;
}

abbrev waiting : Site
waiting = record {
  line = some (orders RouteStatus.pending_update);
  policy = some cors_policy;
  request = some asked_for;
}

submits : update (routes true) 1 (change false) 5 start ≡ (
  ok record { row = orders RouteStatus.pending_update; pending_approval = some asked_for },
  waiting,
)
unfolding update submit_update transition submit_approval proposed current persist_update_policies
    validate_update validate_route_traffic_policies apply_fields route_project_id submit
    validate_route_owner is_l4 to_status legal_transitions write_status by_site try_targets
    validate_write_security_mode validate_security_mode_general plan_stages find_policy or_absent
    policy_templates build_stages or_fallback no_policy_fallback new_approval security_config
    build_authorization build_api_key_auth build_jwt build_oidc
submits = refl

abbrev undeployed : Site
undeployed = record { line = some (orders RouteStatus.approved); policy = none; request = none }

submits_approved : update (routes true) 1 (change false) 5 undeployed ≡ (
  ok record { row = orders RouteStatus.pending_update; pending_approval = some asked_for },
  waiting,
)
unfolding update submit_update transition submit_approval proposed current persist_update_policies
    validate_update validate_route_traffic_policies apply_fields route_project_id submit
    validate_route_owner is_l4 to_status legal_transitions write_status by_site try_targets
    validate_write_security_mode validate_security_mode_general plan_stages find_policy or_absent
    policy_templates build_stages or_fallback no_policy_fallback new_approval security_config
    build_authorization build_api_key_auth build_jwt build_oidc
submits_approved = refl

laws : StoreLaws (routes true)
laws = record {
  keyed = λ id w r h. by_id-key id w.line r h;
  updated = λ r w h. rw (==_refl r.id) refl;
  update-security = λ r w id. refl;
  created = λ a b w h. (
    ap (λ x. x.entity_id) (sym (ok_inj h)),
    ap (λ x. x.action) (sym (ok_inj h)),
    ap (λ x. x.config_snapshot) (sym (ok_inj h)),
  );
  create-routes = λ a w id. refl;
  upserted = λ id p c w h. refl;
  security-routes = (λ id p c w i. refl, λ id w i. refl);
  traffic-routes = (λ id p c w i. refl, λ id w i. refl);
  extension-routes = (λ id p c w i. refl, λ id w i. refl);
  waf-routes = (λ id p c w i. refl, λ id w i. refl);
  traffic-security = (λ id p c w i. refl, λ id w i. refl);
  extension-security = (λ id p c w i. refl, λ id w i. refl);
  waf-security = (λ id p c w i. refl, λ id w i. refl);
}

abbrev granted : Route Bool
granted = record (orders RouteStatus.pending_deploy) { config = false }

approved_update_example :
    (on_approved (route_store (routes true)) decode asked_for waiting
      ≡ one_route.update_route granted waiting)
    × ((on_approved (route_store (routes true)) decode asked_for waiting).0 ≡ ok tt
        → one_route.get_route 1 (on_approved (route_store (routes true)) decode asked_for waiting).1
          ≡ ok granted)
approved_update_example =
    approved_update (routes true) laws decode decodes 1 5 (change false)
      (orders RouteStatus.pending_update) asked_for start waiting submits

ended_update_activates_example :
    let after = on_rejected (route_store (routes true)) asked_for waiting in
    (on_cancelled (route_store (routes true)) asked_for waiting ≡ after)
    × (after.0 ≡ ok tt
        → (now : Route Bool) × (one_route.get_route 1 after.1 ≡ ok now)
          × (now.status ≡ RouteStatus.active)
          × (now.config ≡ (orders RouteStatus.approved).config))
ended_update_activates_example =
    ended_update_activates (routes true) laws 1 5 (change false) (orders RouteStatus.approved)
      (orders RouteStatus.pending_update) asked_for undeployed waiting refl submits_approved

rejected_policy_example :
    let after = on_rejected (route_store (routes true)) asked_for waiting in
    (after ≡ one_route.update_route (orders RouteStatus.active) waiting)
    × ((old : Route Bool) × (one_route.get_route 1 start ≡ ok old)
        × ((orders RouteStatus.pending_update).config ≡ old.config))
    × (one_route.security.get_by_route_id 1 after.1
        ≡ some (security_config plain_text (is_general (routes true) "general") cors_only))
rejected_policy_example =
    rejected_policy (routes true) laws 1 5 (change false) (orders RouteStatus.pending_update)
      asked_for start waiting cors_only submits refl

abbrev no_policies : UpdateRouteInput Bool no_float
no_policies = record (change true) { security = none }

cors_valid : validate_security_mode_general plain_text (some cors_only) ≡ ok tt
unfolding validate_security_mode_general
cors_valid = refl

none_valid : validate_security_mode_general plain_text none ≡ ok tt
unfolding validate_security_mode_general
none_valid = refl

accepted :
    (input : UpdateRouteInput Bool no_float)
    → input.traffic ≡ none
    → validate_security_mode_general plain_text input.security ≡ ok tt
    → (r : Route Bool) → by_id 1 start.line ≡ ok r
    → validate_update plain_text one_route (routes false).checks 1 r input start ≡ ok 3
unfolding validate_update validate_route_traffic_policies route_project_id validate_route_owner
    is_l4 validate_write_security_mode
accepted input t h r e =
    subst (λ x. validate_update plain_text one_route (routes false).checks 1 x input start ≡ ok 3)
      (ok_inj e) (rw (t, h) refl)

fast_update-ignores_example :
    update (routes false) 1 (change false) 5 start ≡ update (routes false) 1 no_policies 5 start
fast_update-ignores_example =
    fast_update-ignores (routes false) 1 5 3 (change false) no_policies start refl refl
      (λ r e.
        (accepted (change false) refl cors_valid r e, accepted no_policies refl none_valid r e))
      (λ w p e. ap (λ x. x.approval_enabled) (sym (ok_inj e)))

pending_blocks_example :
    Stopped (routes true) waiting (update (routes true) 1 (change true) 5 waiting)
    × Stopped (routes true) waiting (delete (routes true) 1 5 waiting)
pending_blocks_example = pending_blocks (routes true) 1 5 (change true) asked_for waiting refl
