-- ===== src/Attach/Cascade.antt =====
-- The redeploy of a changed client's routes (internal/services/clients/client_cascade.go).
use backend_v.Base.{if◌then◌else◌, Result, err, ok, ℕ, not, List, [], ◌∷◌, ◌++◌}
use backend_v.Attach.Service.{Action, transition}
use backend_v.Attach.Model.{
  same_status, ClientRouteAttachment, AttachmentService, active, cascade_failed, AttachError,
}
use backend_v.Route.Status.{TransitionSite, Route, RouteStatus, status_eq}
use backend_v.Route.Machine.{RouteError}

module _ (service : AttachmentService) where
  open service use {Config, ports, get_route}
  open ports use {World}

  -- The failures of one attachment, by its route, and the database after it.
  abbrev pub queued : ℕ → Result AttachError (Unit {0}) × World → List ℕ × World
  queued route (ok a, w) = ([], w)
  queued route (err e, w) = (route ∷ [], w)

  abbrev pub queue_route : ℕ → Result RouteError (Route Config) → World → List ℕ × World
  queue_route id (err e) w = (id ∷ [], w)
  queue_route id (ok r) w =
      if not (status_eq r.status RouteStatus.active)
      then ([], w)
      else queued r.id
          (transition service TransitionSite.client_cascade r RouteStatus.pending_deploy w)

  unfoldable pub cascade_one : ClientRouteAttachment → World → List ℕ × World
  cascade_one a w =
      if not (same_status a.status active)
      then ([], w)
      else queue_route a.route_id (get_route a.route_id w) w

  unfoldable pub fan_out : List ClientRouteAttachment → World → List ℕ × World
  fan_out [] w = ([], w)
  fan_out (a ∷ rest) w =
      let first = cascade_one a w in
      let later = fan_out rest first.1 in (first.0 ++ later.0, later.1)

  abbrev pub joined : List ℕ × World → Result AttachError (Unit {0}) × World
  joined ([], w) = (ok tt, w)
  joined (id ∷ ids, w) = (err (cascade_failed (id ∷ ids)), w)

  abbrev pub cascade_listed :
      Result AttachError (List ClientRouteAttachment)
      → World
      → Result AttachError (Unit {0}) × World
  cascade_listed (err e) w = (err e, w)
  cascade_listed (ok found) w = joined (fan_out found w)

  -- `list` is the query of the changed credential.
  unfoldable pub cascade_to_attached_routes :
      (World → Result AttachError (List ClientRouteAttachment)) → Action service (Unit {0})
  cascade_to_attached_routes list w = cascade_listed (list w) w
