-- ===== src/Attach/Service.antt =====
-- `AttachFromRoute`, `AttachFromClient` and `RequestDetach`
-- (internal/services/clients/client_attachment_service.go).
use backend_v.Base.Exec.{◌>>◌, ◌>>=◌, fail_if, read, pure, Exec}
use backend_v.Base.{
  if◌then◌else◌, ◌==◌, Result, err, reject_if, ok, ℕ, String, Bool, not, Option, none, some,
}
use backend_v.Attach.Checks.{is_general, refuse, validate_rest, validate_keys, is_taken}
use backend_v.Attach.Model.{
  Credentials, AttachmentStatus, AttachFromClientInput, Client, pending_attach, same_status,
  ClientRouteAttachment, AttachmentService, pending_detach, active, nil_domain, refused, removed,
  AttachError, approved, route_failure, AttachFromRouteInput, approval_failure,
}
use backend_v.Approval.Traversal.{submit, Spec}
use backend_v.Approval.Model.{ApprovalEntityType, ApprovalAction}
use backend_v.Write.Tables.{wrap}
use backend_v.Traffic.Checks.{Check}
use backend_v.Route.Status.{TransitionSite, Route, RouteStatus}
use backend_v.Route.Machine.{Outcome, RouteStore, RouteError, to_status}

module _ (service : AttachmentService) where
  open service use {
    Config, std, text, ports, attachments, get_client, get_route, update_route, delete_route,
    domain_project, domain_mtls,
  }
  open ports use {World, get_project}

  abbrev pub Action : Type 0 → Type 0
  Action A = Exec AttachError World A

  abbrev pub attached_routes : RouteStore Config
  attached_routes = record {
    World = World;
    get_by_id = get_route;
    update = update_route;
    delete = delete_route;
  }

  -- What the caller of `Machine.To` sees: the route is dropped.
  abbrev pub moved : Outcome attached_routes → Result AttachError (Unit {0}) × World
  moved (ok a, r, w) = (ok a, w)
  moved (err e, r, w) = (err (route_failure e), w)

  unfoldable pub transition : TransitionSite → Route Config → RouteStatus → Action (Unit {0})
  transition site r next w = moved (to_status attached_routes site (some r) next w)

  -- A value that was found, with the one message of its absence.
  abbrev pub present : {A : Type 0} → String → Option A → Action A
  present why none w = (err (refused why), w)
  present why (some a) w = (ok a, w)

  abbrev pub found_route : Result RouteError (Route Config) → Action (Route Config)
  found_route (ok r) w = (ok r, w)
  found_route (err e) w = (err (refused "route not found"), w)

  abbrev pub found_attachment :
      Result AttachError ClientRouteAttachment → Action ClientRouteAttachment
  found_attachment (ok a) w = (ok a, w)
  found_attachment (err e) w = (err (refused "attachment not found"), w)

  abbrev pub need_domain : Option ℕ → Action ℕ
  need_domain none w = (err nil_domain, w)
  need_domain (some d) w = (ok d, w)

  unfoldable pub validate_mtls_pairing : Bool → Client → ℕ → World → Check
  validate_mtls_pairing enable client domain w =
      if not enable
      then ok tt
      else if not client.mtls_enabled
      then err "client does not have mTLS configured; configure mTLS first"
      else reject_if (not (domain_mtls domain w)) "domain mTLS must be enabled"

  -- The checks on both sides, from the credentials to the external authorization.
  unfoldable pub validate_attach : Credentials → Client → Option ℕ → Action ℕ
  validate_attach c client owner = do
    read (λ w. refuse (validate_keys c client))
    domain ← need_domain owner
    read (λ w. refuse (validate_mtls_pairing c.enable_mtls client domain w))
    read (λ w. refuse (validate_rest std text c client))
    pure domain

  -- The row to attach: a removed or rejected one is used again.
  abbrev pub store_attachment :
      Option ClientRouteAttachment → ℕ → ℕ → Credentials → ℕ → Action ClientRouteAttachment
  store_attachment none client route c user = attachments.create record {
    id = 0;
    client_id = client;
    route_id = route;
    credentials = c;
    status = pending_attach;
    created_by = user;
  }
  store_attachment (some a) client route c user =
      let a' : ClientRouteAttachment = record a {
        credentials = c;
        status = pending_attach;
        created_by = user;
      } in
      attachments.update a' >> pure a'

  abbrev pub attach_spec : ℕ → ℕ → ApprovalAction → ℕ → Spec
  attach_spec project id action user = record {
    project_id = project;
    entity_type = ApprovalEntityType.client_attachment;
    entity_id = id;
    action = action;
    submitted_by = user;
    config_snapshot = none;
    previous_config = none;
    ai_review = none;
    change_description = "";
  }

  -- Without approvals the route is queued first; only then does the attachment get its status.
  unfoldable pub queue_now :
      TransitionSite
      → Route Config
      → AttachmentStatus
      → ClientRouteAttachment
      → Action ClientRouteAttachment
  queue_now site r status a = do
    transition site r RouteStatus.pending_deploy
    attachments.update (record a { status = status })
    read (attachments.get_by_id a.id)

  unfoldable pub submit_for :
      ℕ → ApprovalAction → ℕ → ClientRouteAttachment → Action ClientRouteAttachment
  submit_for project action user a = do
    approval ← wrap approval_failure (submit ports (attach_spec project a.id action user))
    read (attachments.get_by_id a.id)

  unfoldable pub finish_attach :
      TransitionSite → Route Config → ℕ → ℕ → ClientRouteAttachment → Action ClientRouteAttachment
  finish_attach site r project user a = do
    p ← wrap approval_failure (read (get_project project))
    if p.approval_enabled
        then submit_for project ApprovalAction.attach user a
        else queue_now site r approved a

  unfoldable pub attach_from_route : ℕ → AttachFromRouteInput → ℕ → Action ClientRouteAttachment
  attach_from_route route_id input user = do
    client ← λ w. present "client not found" (get_client input.client_id w) w
    r ← λ w. found_route (get_route route_id w) w
    fail_if (is_general r.security_mode) (refused "general security mode")
    existing ← λ w. (ok (attachments.get_by_client_and_route client.id r.id w), w)
    fail_if (is_taken existing) (refused "client is already attached")
    domain ← validate_attach input.credentials client r.domain_id
    project ← λ w. present "domain not found" (domain_project domain w) w
    a ← store_attachment existing client.id r.id input.credentials user
    finish_attach TransitionSite.attach_from_route r project user a

  unfoldable pub attach_from_client : ℕ → AttachFromClientInput → ℕ → Action ClientRouteAttachment
  attach_from_client client_id input user = do
    client ← λ w. present "client not found" (get_client client_id w) w
    r ← λ w. found_route (get_route input.route_id w) w
    fail_if (is_general r.security_mode) (refused "general security mode")
    domain ← need_domain r.domain_id
    project ← λ w. present "domain not found" (domain_project domain w) w
    fail_if (not (project == input.project_id)) (refused "route does not belong to the project")
    existing ← λ w. (ok (attachments.get_by_client_and_route client.id r.id w), w)
    fail_if (is_taken existing) (refused "client is already attached")
    checked ← validate_attach input.credentials client r.domain_id
    a ← store_attachment existing client.id r.id input.credentials user
    finish_attach TransitionSite.attach_from_client r project user a

  unfoldable pub detach :
      ℕ → ℕ → Route Config → ClientRouteAttachment → Action ClientRouteAttachment
  detach project user r a = do
    p ← wrap approval_failure (read (get_project project))
    if p.approval_enabled
        then (attachments.update (record a { status = pending_detach })
            >> submit_for project ApprovalAction.detach user (record a { status = pending_detach }))
        else queue_now TransitionSite.request_detach r removed a

  unfoldable pub request_detach : ℕ → ℕ → Action ClientRouteAttachment
  request_detach id user = do
    a ← λ w. found_attachment (attachments.get_by_id id w) w
    fail_if (not (same_status a.status active)) (refused "only active attachments can be detached")
    r ← λ w. found_route (get_route a.route_id w) w
    domain ← need_domain r.domain_id
    project ← λ w. present "domain not found" (domain_project domain w) w
    detach project user r a
