-- ===== src/Route/Endings.antt =====
-- What OnRejected and OnCancelled of internal/services/route_approval.go do to a route.
use backend_v.Route.Lifecycle.{to_status-Legal}
use backend_v.Approval.Model.{ApprovalAction, Approval}
use backend_v.Route.Machine.{RouteStore, to_status}
use backend_v.Route.Status.{
  RouteStatus, active, pending_create, Route, rejected, approval_rejected, status_eq,
  TransitionSite, approval_cancelled,
}
use backend_v.Route.Completer.{
  reject_route, drop_route, on_rejected, revert_route, cancel_route, on_cancelled,
}
use backend_v.Base.{◌≡◌, some, ok, subst, some_inj, if◌then◌else◌, ℕ, ap}
use backend_v.Route.Legal.{
  Legal, by_rejection, give_back_update, give_back_delete, refuse_create, by_cancel,
}
use backend_v.Route.Outcomes.{request_status, refused_status}

module _ {Config : Type 0} (store : RouteStore Config) (r : Route Config) (w : store.World) where
  open store use {World, update}

  -- What the caller of `Machine.To` sees of a transition that it drops the route of.
  dropped-Legal :
      (t : TransitionSite) (n : RouteStatus)
      → Legal t r.status n
      → drop_route store (to_status store t (some r) n w) ≡ update (record r { status = n }) w
  dropped-Legal t n l = ap (λ o. (o.0, o.2)) (to_status-Legal store t r n w l)

  reject_route-requested :
      (act : ApprovalAction)
      → request_status act ≡ some r.status
      → reject_route store act r w ≡ update (record r { status = refused_status act }) w
  unfolding reject_route
  reject_route-requested ApprovalAction.create req =
      dropped-Legal approval_rejected rejected
        (subst (λ s. Legal approval_rejected s rejected) (some_inj req) refuse_create)
  reject_route-requested ApprovalAction.update req =
      dropped-Legal approval_rejected active (
        subst (λ s. Legal approval_rejected s active) (some_inj req)
          (give_back_update by_rejection))
  reject_route-requested ApprovalAction.delete req =
      dropped-Legal approval_rejected active (
        subst (λ s. Legal approval_rejected s active) (some_inj req)
          (give_back_delete by_rejection))
  reject_route-requested _ req = cc

  -- Rejecting a request whose route is in the status that the request gave it writes the route
  -- once, as rejected after a create request and as active after an update or delete request.
  pub on_rejected-reverts :
      (a : Approval)
      → store.get_by_id a.entity_id w ≡ ok r
      → request_status a.action ≡ some r.status
      → on_rejected store a w ≡ update (record r { status = refused_status a.action }) w
  unfolding on_rejected
  on_rejected-reverts a found req = rw (found, on_rejected) (reject_route-requested a.action req)

  revert_route-Legal :
      (id : ℕ)
      → store.get_by_id id w ≡ ok r
      → Legal approval_cancelled r.status active
      → revert_route store id w ≡ update (record r { status = active }) w
  unfolding revert_route
  revert_route-Legal id found l =
      rw (found, revert_route) (dropped-Legal approval_cancelled active l)

  cancel_route-requested :
      (act : ApprovalAction) (id : ℕ)
      → store.get_by_id id w ≡ ok r
      → request_status act ≡ some r.status
      → cancel_route store act id w ≡ (
          if status_eq r.status pending_create
          then store.delete id w
          else update (record r { status = active }) w)
  unfolding cancel_route
  cancel_route-requested ApprovalAction.create id found req = rw (← some_inj req)
  cancel_route-requested ApprovalAction.update id found req = rw (← some_inj req) (
      revert_route-Legal id found (
        subst (λ s. Legal approval_cancelled s active) (some_inj req) (give_back_update by_cancel)))
  cancel_route-requested ApprovalAction.delete id found req = rw (← some_inj req) (
      revert_route-Legal id found (
        subst (λ s. Legal approval_cancelled s active) (some_inj req) (give_back_delete by_cancel)))
  cancel_route-requested _ id found req = cc

  -- Cancelling a request whose route is in the status that the request gave it deletes the route
  -- after a create request, and writes it as active after an update or delete request.
  pub on_cancelled-reverts :
      (a : Approval)
      → store.get_by_id a.entity_id w ≡ ok r
      → request_status a.action ≡ some r.status
      → on_cancelled store a w ≡ (
          if status_eq r.status pending_create
          then store.delete a.entity_id w
          else update (record r { status = active }) w)
  unfolding on_cancelled
  on_cancelled-reverts a found req = cancel_route-requested a.action a.entity_id found req
