-- ===== src/Deploy/Service.antt =====
-- `Deploy`, its TCP and UDP half, and its tail (internal/services/route_deploy_service.go).
use backend_v.Base.Exec.{◌>>◌, ◌>>=◌, best_effort, fail_if, fail, read, pure}
use backend_v.Base.{
  if◌then◌else◌, err, Result, ok, ℕ, Bool, true, false, not, ◌||◌, Option, none, some, List, [],
  ◌∷◌, str_eq,
}
use backend_v.Deploy.Steps.{
  call, Action, update_steps, in_db, create_steps, run_steps, delete_steps,
}
use backend_v.Deploy.Model.{
  route_failure, nil_domain, port_not_claimed, stream_not_found, domain_not_found,
  unsupported_protocol, unsupported_action, apply_backend_traffic_policy, not_deployable, Domain,
  remove_backend_traffic_policy, ensure_reference_grants, Call, create_tcp_route, update_udp_route,
  no_stream, create_udp_route, DeployError, delete_udp_route, update_tcp_route, RouteDeploy,
  no_approved_request, delete_tcp_route,
}
use backend_v.Attach.Model.{AttachmentStatus}
use backend_v.Config.Shape.{l4_transport}
use backend_v.Stream.Model.{Stream, has}
use backend_v.Approval.Model.{ApprovalAction, ApprovalEntityType, ApprovalStatus, Approval}
use backend_v.Write.Security.{fast_gateway_namespace}
use backend_v.Write.Checks.{is_l4}
use backend_v.Write.Submit.{route_store}
use backend_v.Route.Status.{Route, status_eq, TransitionSite, RouteStatus}
use backend_v.Route.Machine.{Outcome, to_status}

-- The approval of a redeploy that nobody asked for: an update, with zero values otherwise.
abbrev pub synthetic_update : Approval
synthetic_update = record {
  id = 0;
  project_id = 0;
  entity_type = ApprovalEntityType.route;
  entity_id = 0;
  action = ApprovalAction.update;
  config_snapshot = none;
  previous_config = none;
  submitted_by = 0;
  status = ApprovalStatus.pending;
  change_description = "";
  ai_review = none;
  stages = [];
}

module _ (deployer : RouteDeploy) where
  open deployer use {
    service, Cluster, listener_port, latest_approved, get_domain, get_stream, has_l4_v1,
    listed_attachments, delete_approvals, update_attachment_statuses, create_version,
  }
  open service use {Config, ports, tables}
  open ports use {World}
  open tables use {get_route, delete_route}

  abbrev pub is_deployable : RouteStatus → Bool
  is_deployable s = status_eq s RouteStatus.approved || status_eq s RouteStatus.pending_deploy

  abbrev pub choose_approval : Option Approval → RouteStatus → Action deployer Approval
  choose_approval (some a) s = pure a
  choose_approval none s =
      if status_eq s RouteStatus.pending_deploy
      then pure synthetic_update
      else fail no_approved_request

  abbrev pub need : {A : Type 0} → DeployError → Option A → Action deployer A
  need e none = fail e
  need e (some a) = pure a

  abbrev pub as_moved :
      Cluster
      → Route Config
      → Outcome (route_store service)
      → Result DeployError (Route Config) × (World × Cluster)
  as_moved k r (ok a, none, w) = (ok r, (w, k))
  as_moved k r (ok a, some r', w) = (ok r', (w, k))
  as_moved k r (err e, m, w) = (err (route_failure e), (w, k))

  unfoldable pub to_active : Route Config → Action deployer (Route Config)
  to_active r (w, k) =
      as_moved k r
        (to_status (route_store service) TransitionSite.deploy (some r) RouteStatus.active w)

  unfoldable pub finish_deploy : Route Config → Approval → ℕ → Action deployer (Route Config)
  finish_deploy r approval user = do
    r' ← to_active r
    best_effort (in_db deployer (create_version r' approval user))
    pure r'

  -- approved → active; the error is dropped.
  abbrev pub update_client_attachment_statuses : ℕ → Action deployer (Unit {0})
  update_client_attachment_statuses id = best_effort (
      in_db deployer
        (update_attachment_statuses id AttachmentStatus.approved AttachmentStatus.active))

  abbrev pub delete_all_approvals : List ℕ → Action deployer (Unit {0})
  delete_all_approvals [] = pure tt
  delete_all_approvals (id ∷ ids) =
      best_effort (in_db deployer (delete_approvals ApprovalEntityType.client_attachment id))
      >> delete_all_approvals ids

  abbrev pub delete_row : Route Config → Action deployer (Route Config)
  delete_row r = in_db deployer (delete_route r.id) >> pure r

  -- By the action of the approval.
  unfoldable pub deploy_http :
      ApprovalAction → Route Config → Approval → ℕ → Domain → Action deployer (Route Config)
  deploy_http ApprovalAction.create r approval user d = do
    run_steps deployer (create_steps r d)
    update_client_attachment_statuses r.id
    finish_deploy r approval user
  deploy_http ApprovalAction.update r approval user d = do
    run_steps deployer (update_steps r d)
    update_client_attachment_statuses r.id
    finish_deploy r approval user
  deploy_http ApprovalAction.delete r approval user d = do
    run_steps deployer (delete_steps r d)
    best_effort (in_db deployer (delete_approvals ApprovalEntityType.route r.id))
    λ o. delete_all_approvals (listed_attachments r.id o.0) o
    delete_row r
  deploy_http _ r approval user d = finish_deploy r approval user

  abbrev pub grants : Route Config → Domain → Action deployer (Unit {0})
  grants r d =
      if str_eq d.namespace fast_gateway_namespace
      then pure tt
      else best_effort (call deployer (ensure_reference_grants r d))

  -- The call for the route's transport.
  abbrev pub l4_call : Route Config → Call Config → Call Config → Action deployer (Unit {0})
  l4_call r for_tcp for_udp =
      if str_eq r.protocol "tcp"
      then call deployer for_tcp
      else if str_eq r.protocol "udp"
      then call deployer for_udp
      else fail unsupported_protocol

  abbrev pub apply_l4_route : Route Config → Stream → Bool → Action deployer (Unit {0})
  apply_l4_route r s create o =
      let v1 = has_l4_v1 s.project_id o.0 in
      (if create
          then l4_call r (create_tcp_route r s v1) (create_udp_route r s v1)
          else l4_call r (update_tcp_route r s v1) (update_udp_route r s v1))
        o

  abbrev pub delete_l4_route : Route Config → Stream → Action deployer (Unit {0})
  delete_l4_route r s o =
      let v1 = has_l4_v1 s.project_id o.0 in
      l4_call r (delete_tcp_route r s v1) (delete_udp_route r s v1) o

  abbrev pub is_claimed : Route Config → Stream → Bool
  is_claimed r s =
      has s.ports (record { transport = l4_transport r.protocol; port = listener_port r.config })

  abbrev pub apply_claimed :
      Route Config → Approval → ℕ → Stream → Bool → Action deployer (Route Config)
  apply_claimed r approval user s create = do
    fail_if (not (is_claimed r s)) port_not_claimed
    apply_l4_route r s create
    call deployer (apply_backend_traffic_policy r s)
    finish_deploy r approval user

  unfoldable pub deploy_l4 :
      ApprovalAction → Route Config → Approval → ℕ → Stream → Action deployer (Route Config)
  deploy_l4 ApprovalAction.create r approval user s = apply_claimed r approval user s true
  deploy_l4 ApprovalAction.update r approval user s = apply_claimed r approval user s false
  deploy_l4 ApprovalAction.delete r approval user s = do
    best_effort (call deployer (remove_backend_traffic_policy r s))
    delete_l4_route r s
    best_effort (in_db deployer (delete_approvals ApprovalEntityType.route r.id))
    delete_row r
  deploy_l4 _ r approval user s = fail unsupported_action

  unfoldable pub deploy_approved : Route Config → ℕ → Approval → Action deployer (Route Config)
  deploy_approved r user approval =
      if is_l4 r
      then ((λ o. need no_stream r.stream_id o) >>= λ id.
          (λ o. need stream_not_found (get_stream id o.0) o) >>= λ s.
          deploy_l4 approval.action r approval user s)
      else ((λ o. need nil_domain r.domain_id o) >>= λ id.
          (λ o. need domain_not_found (get_domain id o.0) o) >>= λ d.
          grants r d >> deploy_http approval.action r approval user d)

  unfoldable pub deploy : ℕ → ℕ → Action deployer (Route Config)
  deploy id user = do
    r ← in_db deployer (read (get_route id))
    fail_if (not (is_deployable r.status)) not_deployable
    approval ← λ o. choose_approval (latest_approved id o.0) r.status o
    deploy_approved r user approval
