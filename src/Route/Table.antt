-- ===== src/Route/Table.antt =====
-- internal/routestate/routestate.go: `legalTransitions`, a map of maps, as association lists.
use backend_v.Base.{Option, none, some, List, [], ◌∷◌, if◌then◌else◌}
use backend_v.Route.Status.{
  RouteStatus, TransitionSite, pending_create, pending_update, pending_delete, approved, active,
  rejected, pending_deploy, route_create_fast_path, route_update, route_update_fast_path,
  route_delete, route_delete_fast_path, approval_approved, approval_rejected, approval_cancelled,
  attach_from_route, attach_from_client, request_detach, attachment_approved, client_cascade,
  deploy, status_eq,
}

abbrev pub Row : Type 0
Row = RouteStatus × List RouteStatus

-- One key of the inner map, with its only target.
abbrev row : RouteStatus → RouteStatus → Row
row from to = (from, to ∷ [])

-- The rows of route_write.go.
write_transitions : TransitionSite → Option (List Row)
write_transitions route_create_fast_path = some (row pending_create approved ∷ [])
write_transitions route_update = some (
    row pending_create pending_update
    ∷ row pending_delete pending_update
    ∷ row approved pending_update
    ∷ row active pending_update
    ∷ row rejected pending_update
    ∷ row pending_deploy pending_update
    ∷ [])
write_transitions route_update_fast_path = some (row pending_update pending_deploy ∷ [])
write_transitions route_delete = some (
    row pending_create pending_delete
    ∷ row pending_update pending_delete
    ∷ row approved pending_delete
    ∷ row active pending_delete
    ∷ row rejected pending_delete
    ∷ row pending_deploy pending_delete
    ∷ [])
write_transitions route_delete_fast_path = some (row pending_delete pending_deploy ∷ [])
write_transitions _ = none

-- The rows of route_approval.go.
approval_transitions : TransitionSite → Option (List Row)
approval_transitions approval_approved = some (
    row pending_create approved
    ∷ row pending_update pending_deploy
    ∷ row pending_delete pending_deploy
    ∷ [])
approval_transitions approval_rejected =
    some (row pending_create rejected ∷ row pending_update active ∷ row pending_delete active ∷ [])
approval_transitions approval_cancelled =
    some (row pending_update active ∷ row pending_delete active ∷ [])
approval_transitions _ = none

-- The rows of client_attachment_service.go, client_service.go and route_deploy.go.
attachment_transitions : TransitionSite → Option (List Row)
attachment_transitions attach_from_route = some (
    row active pending_deploy
    ∷ row approved pending_deploy
    ∷ row rejected pending_deploy
    ∷ row pending_create pending_deploy
    ∷ row pending_update pending_deploy
    ∷ row pending_delete pending_deploy
    ∷ [])
attachment_transitions attach_from_client = some (
    row active pending_deploy
    ∷ row approved pending_deploy
    ∷ row rejected pending_deploy
    ∷ row pending_create pending_deploy
    ∷ row pending_update pending_deploy
    ∷ row pending_delete pending_deploy
    ∷ [])
attachment_transitions request_detach = some (
    row active pending_deploy
    ∷ row pending_update pending_deploy
    ∷ row pending_delete pending_deploy
    ∷ [])
attachment_transitions attachment_approved = some (row active pending_deploy ∷ [])
attachment_transitions client_cascade = some (row active pending_deploy ∷ [])
attachment_transitions deploy = some (row approved active ∷ row pending_deploy active ∷ [])
attachment_transitions _ = none

-- The whole map: `none` is a key that it lacks.
unfoldable pub legal_transitions : TransitionSite → Option (List Row)
unfolding write_transitions approval_transitions attachment_transitions
legal_transitions route_create_fast_path = write_transitions route_create_fast_path
legal_transitions route_update = write_transitions route_update
legal_transitions route_update_fast_path = write_transitions route_update_fast_path
legal_transitions route_delete = write_transitions route_delete
legal_transitions route_delete_fast_path = write_transitions route_delete_fast_path
legal_transitions approval_approved = approval_transitions approval_approved
legal_transitions approval_rejected = approval_transitions approval_rejected
legal_transitions approval_cancelled = approval_transitions approval_cancelled
legal_transitions site = attachment_transitions site

-- `byStatus[status]`: the first key that fits (the keys of a row list are distinct).
abbrev pub allowed_from : RouteStatus → List Row → Option (List RouteStatus)
allowed_from s [] = none
allowed_from s ((from, tos) ∷ rest) = if status_eq from s then some tos else allowed_from s rest
