-- ===== src/Attach/Ending.antt =====
-- What a terminal approval does to its attachment
-- (internal/services/clients/client_attachment_service.go).
use backend_v.Base.Exec.{◌>>◌, ◌>>=◌, read, pure}
use backend_v.Base.{if◌then◌else◌, ℕ, none}
use backend_v.Attach.Service.{Action, transition}
use backend_v.Attach.Model.{
  AttachmentStatus, rejected, AttachmentService, removed, AttachError, approved, route_failure,
}
use backend_v.Approval.Ports.{port_error, ApprovalError, Completer}
use backend_v.Approval.Model.{Approval, ApprovalAction}
use backend_v.Write.Tables.{wrap}
use backend_v.Route.Status.{TransitionSite, Route, RouteStatus, status_eq}

module _ (service : AttachmentService) where
  open service use {Config, ports, attachments, get_route}
  open ports use {World}

  -- `updateRouteStatus`, which reads the route again.
  unfoldable pub update_route_status : ℕ → RouteStatus → Action service (Unit {0})
  update_route_status id next = do
    r ← wrap route_failure (read (get_route id))
    transition service TransitionSite.attachment_approved r next

  abbrev pub requeue_active : Route Config → Action service (Unit {0})
  requeue_active r =
      if status_eq r.status RouteStatus.active
      then update_route_status r.id RouteStatus.pending_deploy
      else pure tt

  abbrev pub approved_status : ApprovalAction → AttachmentStatus
  approved_status ApprovalAction.detach = removed
  approved_status _ = approved

  unfoldable pub attachment_approved : Approval → Action service (Unit {0})
  attachment_approved approval = do
    a ← read (attachments.get_by_id approval.entity_id)
    attachments.update (record a { status = approved_status approval.action })
    r ← wrap route_failure (read (get_route a.route_id))
    requeue_active r

  unfoldable pub attachment_rejected : Approval → Action service (Unit {0})
  attachment_rejected approval = do
    a ← read (attachments.get_by_id approval.entity_id)
    attachments.update (record a { status = rejected })

  abbrev pub attachment_cancelled : Approval → Action service (Unit {0})
  attachment_cancelled approval = attachment_rejected approval

  -- The service as a completer of the engine; it does not implement CancelAuthorizer.
  abbrev pub to_engine : AttachError → ApprovalError
  to_engine e = port_error "client attachment"

  abbrev pub attachment_completer : Completer World
  attachment_completer = record {
    on_approved = λ a. wrap to_engine (attachment_approved a);
    on_rejected = λ a. wrap to_engine (attachment_rejected a);
    on_cancelled = λ a. wrap to_engine (attachment_cancelled a);
    can_cancel = none;
  }
