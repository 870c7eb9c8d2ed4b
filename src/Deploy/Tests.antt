-- ===== src/Deploy/Tests.antt =====
-- The theorems on deploys at a database of one route, whose cluster counts the calls it carries out
-- and refuses to create an HTTP route.
use backend_v.Write.Samples.{no_float, plain_text, engine, blank, orders, by_id, by_id-key}
use backend_v.Base.{
  ok, err, ℕ, String, Bool, true, false, Option, none, some, [], ==_refl, ok_inj, ◌≡◌, refl, sym,
  ap, ◌+◌,
}
use backend_v.Base.Exec.{Exec}
use backend_v.Base.Int.{pos}
use backend_v.Approval.Model.{Approval, ApprovalStatus, ApprovalAction, ApprovalEntityType}
use backend_v.Write.Security.{validate_write_security_mode, validate_security_mode_general}
use backend_v.Write.Tables.{Tables, RouteService, CreateRouteInput}
use backend_v.Write.Create.{create, new_route}
use backend_v.Deploy.FastCreate.{created_route_stuck}
use backend_v.Write.Checks.{
  route_project_id, is_l4, validate_route_owner, validate_create, ends_alnum, is_valid_k8s_name,
  validate_route_traffic_policies,
}
use backend_v.Write.Submit.{delete, transition, submit_approval, current}
use backend_v.Route.Status.{Route, RouteStatus}
use backend_v.Route.Machine.{try_targets, to_status, write_status, by_site}
use backend_v.Route.Table.{legal_transitions}
use backend_v.Deploy.Model.{RouteDeploy, Domain, Call, create_http_route, no_approved_request}
use backend_v.Deploy.Steps.{run_steps, update_steps}
use backend_v.Deploy.Service.{deploy, deploy_approved, deploy_http, finish_deploy, to_active}
use backend_v.Deploy.Deployed.{deploy-IsLive}
use backend_v.Deploy.Laws.{DeployLaws, IsLive}
use backend_v.Deploy.FastDelete.{deleted_route_lives}

record Site : Type 0 where
  line : Option (Route Bool)
  grant : Option Approval

abbrev one_route : Tables Bool no_float Site
one_route = record {
  get_route = λ id w. by_id id w.line;
  create_route = λ r w. (ok tt, record w { line = some r });
  update_route = λ r w. (ok tt, record w { line = some r });
  delete_route = λ id w. (ok tt, record w { line = none });
  exists_by_name = λ d n w. ok false;
  exists_by_stream_and_name = λ d n w. ok false;
  domain_project = λ d w. some 3;
  stream_project = λ d w. some 3;
  team_exists = λ t w. true;
  get_pending = λ id w. none;
  security = blank;
  traffic = blank;
  extension = blank;
  waf = blank;
}

abbrev routes : RouteService
routes = record {
  Config = Bool;
  std = no_float;
  text = plain_text;
  ports = engine Site false;
  tables = one_route;
  checks = record {
    backends = λ c n w. ok tt;
    direct_response = λ c p. ok tt;
    shape = λ c p s d t e w. ok tt;
  };
  key_matches = λ s. true;
  value_matches = λ s. true;
  marshal = λ s. "";
}

abbrev refuses_create : Call Bool → Site → Exec String ℕ (Unit {0})
refuses_create (create_http_route r d) w k = (err "refused", k)
refuses_create _ w k = (ok tt, k + 1)

abbrev shop : Domain
shop = record { id = 9; project_id = 3; namespace = "shop" }

abbrev deployer : RouteDeploy
deployer = record {
  service = routes;
  Cluster = ℕ;
  listener_port = λ c. pos 80;
  latest_approved = λ id w. w.grant;
  get_domain = λ n w. some shop;
  get_stream = λ n w. none;
  has_l4_v1 = λ p w. true;
  listed_attachments = λ id w. [];
  delete_approvals = λ t id w. (ok tt, w);
  update_attachment_statuses = λ id s t w. (ok tt, w);
  create_version = λ r a u w. (ok tt, w);
  run = refuses_create;
}

abbrev granted : ApprovalAction → Approval
granted action = record {
  id = 0;
  project_id = 3;
  entity_type = ApprovalEntityType.route;
  entity_id = 1;
  action = action;
  config_snapshot = none;
  previous_config = none;
  submitted_by = 5;
  status = ApprovalStatus.approved;
  change_description = "";
  ai_review = none;
  stages = [];
}

abbrev holding : RouteStatus → Option Approval → Site
holding s a = record { line = some (orders s); grant = a }

laws : DeployLaws deployer
laws = record {
  updated = λ r w h. rw (==_refl r.id) refl;
  keyed = λ id w r h. by_id-key id w.line r h;
  version-routes = λ r a u w id. refl;
  update-approvals = λ r w id. refl;
}

deploys :
    deploy deployer 1 5 (holding RouteStatus.approved (some (granted ApprovalAction.update)), 0) ≡ (
      ok (orders RouteStatus.active),
      (holding RouteStatus.active (some (granted ApprovalAction.update)), 8),
    )
unfolding deploy deploy_approved deploy_http run_steps update_steps finish_deploy to_active is_l4
    to_status legal_transitions write_status by_site try_targets
deploys = refl

deploy-IsLive_example :
    IsLive deployer 1
      (orders RouteStatus.active)
      (holding RouteStatus.active (some (granted ApprovalAction.update)))
deploy-IsLive_example =
    deploy-IsLive deployer laws 1 5
      (holding RouteStatus.approved (some (granted ApprovalAction.update)))
      (holding RouteStatus.active (some (granted ApprovalAction.update))) 0 8
      (orders RouteStatus.active) (λ a e f. cc (e, f)) deploys

deletes : delete routes 1 5 (holding RouteStatus.active none) ≡ (
  ok record { row = orders RouteStatus.pending_deploy; pending_approval = none },
  holding RouteStatus.pending_deploy none,
)
unfolding delete transition submit_approval current route_project_id validate_route_owner is_l4
    to_status legal_transitions write_status by_site try_targets
deletes = refl

lives :
    deploy deployer 1 5 (holding RouteStatus.pending_deploy none, 0)
    ≡ (ok (orders RouteStatus.active), (holding RouteStatus.active none, 8))
unfolding deploy deploy_approved deploy_http run_steps update_steps finish_deploy to_active is_l4
    to_status legal_transitions write_status by_site try_targets
lives = refl

deleted_route_lives_example :
    IsLive deployer 1 (orders RouteStatus.active) (holding RouteStatus.active none)
deleted_route_lives_example =
    deleted_route_lives deployer laws 1 5 5 (holding RouteStatus.active none)
      (holding RouteStatus.pending_deploy none) (holding RouteStatus.active none) 0 8
      record { row = orders RouteStatus.pending_deploy; pending_approval = none }
      (orders RouteStatus.active) (λ n w p e. ap (λ x. x.approval_enabled) (sym (ok_inj e)))
      (λ a e. absurd (cc e)) deletes lives

abbrev order_form : CreateRouteInput Bool no_float
order_form = record {
  name = "orders";
  description = "orders";
  protocol = "http";
  security_mode = "general";
  team_id = 2;
  config = true;
  security = none;
  traffic = none;
  extension = none;
  waf = none;
  change_description = "";
  ai_review = none;
  labels = none;
  stream_id = none;
}

creates :
    create routes 1 "orders-1" (some 9) order_form 5 none (record { line = none; grant = none }) ≡ (
      ok record { row = orders RouteStatus.approved; pending_approval = none },
      holding RouteStatus.approved none,
    )
unfolding create new_route validate_create validate_route_owner is_valid_k8s_name
    validate_route_traffic_policies validate_write_security_mode validate_security_mode_general
    ends_alnum submit_approval transition to_status legal_transitions write_status by_site
    try_targets
creates = refl

created_route_stuck_example :
    ((orders RouteStatus.approved).status ≡ RouteStatus.approved)
    × (deploy deployer 1 6 (holding RouteStatus.approved none, 0)
        ≡ (err no_approved_request, (holding RouteStatus.approved none, 0)))
created_route_stuck_example =
    created_route_stuck deployer laws 1 5 6 "orders-1" (some 9) none order_form
      (record { line = none; grant = none }) (holding RouteStatus.approved none) 0
      record { row = orders RouteStatus.approved; pending_approval = none }
      (λ n w p e. ap (λ x. x.approval_enabled) (sym (ok_inj e))) creates refl
