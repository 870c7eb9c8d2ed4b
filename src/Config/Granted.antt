-- ===== src/Config/Granted.antt =====
-- The update of a TCP or UDP route with the stream service as its port checker
-- (`var _ L4PortChecker = (*StreamService)(nil)` in internal/services/stream_port_collision.go).
use backend_v.Base.{
  some_inj, Passes, Result, ok, ℕ, String, ◌≡◌, sym, ◌∙◌, subst, true, Option, some, List,
}
use backend_v.Config.Updated.{accepted_update}
use backend_v.Config.Shape.{l4_transport, Sources, config_checks}
use backend_v.Config.Model.{RouteConfig}
use backend_v.Config.Accepted.{IsListening}
use backend_v.Stream.Claims.{DbError, Reader, check_route_port, StreamPortStore, PortCheck}
use backend_v.Stream.Model.{Stream, has, StreamPort, upper}
use backend_v.Stream.Accepts.{IsFree}
use backend_v.Stream.Order.{IsTransport}
use backend_v.Stream.Accepted.{check_route_port_iff}
use backend_v.Write.Security.{Text}
use backend_v.Write.Checks.{is_l4, validate_update}
use backend_v.Write.Tables.{Tables, UpdateRouteInput}
use backend_v.Traffic.Checks.{Std}
use backend_v.Route.Status.{Route}

module _ {W : Type 0} (to_upper : String → String) (get_by_id : W → ℕ → Result DbError Stream)
    (port_store : W → Option StreamPortStore) (domain_ports : Option Reader) where
  abbrev pub stream_checker : ℕ → StreamPort → Option ℕ → W → PortCheck
  stream_checker stream p exclude w =
      check_route_port to_upper (get_by_id w) (port_store w) domain_ports stream p exclude

  -- The stream claims the port, and no route of the stream but the excluded one holds it.
  abbrev pub IsHeldBy : ℕ → StreamPort → Option ℕ → W → Type 0
  IsHeldBy id wanted exclude w =
      ((stream : Stream) × (get_by_id w id ≡ ok stream) × (has stream.ports wanted ≡ true))
      × ((store : StreamPortStore) × (port_store w ≡ some store)
          × ((used : List StreamPort) × (store.used_ports_by_stream id exclude ≡ some used)
              × IsFree used wanted))

  granted_held :
      (id : ℕ) (p : StreamPort) (exclude : Option ℕ) (w : W)
      → Passes (stream_checker id p exclude w)
      → IsHeldBy id (upper to_upper p) exclude w
  granted_held id p exclude w h =
      let r =
        (check_route_port_iff to_upper (get_by_id w) (port_store w) domain_ports id p exclude).0
          h in
      take r
    where
      take :
          ((store : StreamPortStore) × (port_store w ≡ some store)
            × (IsTransport (to_upper p.transport)
                × ((stream : Stream) × (get_by_id w id ≡ ok stream)
                    × ((has stream.ports (upper to_upper p) ≡ true)
                        × ((used : List StreamPort) × (store.used_ports_by_stream id exclude
                              ≡ some used)
                            × IsFree used (upper to_upper p))))))
          → IsHeldBy id (upper to_upper p) exclude w
      take (store, s, (t, (stream, g, (c, (used, u, f))))) =
          ((stream, g, c), (store, s, (used, u, f)))

  granted_as :
      (o : Option (ℕ → StreamPort → Option ℕ → W → PortCheck)) (id : ℕ) (p : StreamPort)
      (exclude : Option ℕ) (w : W)
      → o ≡ some stream_checker
      → ((check : (ℕ → StreamPort → Option ℕ → W → PortCheck)) × (o ≡ some check)
          × Passes (check id p exclude w))
      → IsHeldBy id (upper to_upper p) exclude w
  granted_as o id p exclude w wired (check, q, pass) =
      granted_held id p exclude w
        (subst (λ f. Passes (f id p exclude w)) (some_inj (sym q ∙ wired)) pass)

  -- When the stream service is the port checker, an accepted update of a TCP or UDP route has a stream,
  -- that stream claims the listener port of the submitted configuration on the route's transport, and
  -- no other route of the stream holds it.
  pub update_holds_port :
      (std : Std) (sources : Sources std W) (text : Text) (tables : Tables RouteConfig std W)
      (id : ℕ) (r : Route RouteConfig) (input : UpdateRouteInput RouteConfig std) (w : W)
      {project : ℕ}
      → sources.l4_ports ≡ some stream_checker
      → is_l4 r ≡ true
      → validate_update text tables (config_checks std sources) id r input w ≡ ok project
      → (stream : ℕ) × (r.stream_id ≡ some stream)
        × IsHeldBy stream
            (upper to_upper
              (record { transport = l4_transport r.protocol; port = input.config.listener_port }))
            (some id)
            w
  update_holds_port std sources text tables id r input w wired l4 h =
      take (accepted_update std sources text tables id r input w l4 h).1
    where
      take :
          IsListening std sources input.config r.protocol r.stream_id (some id) w
          → (stream : ℕ) × (r.stream_id ≡ some stream)
            × IsHeldBy stream
                (upper to_upper (record {
                  transport = l4_transport r.protocol;
                  port = input.config.listener_port;
                }))
                (some id)
                w
      take (stream, e, (p, g)) = (
        stream,
        e,
        granted_as sources.l4_ports stream
            (record { transport = l4_transport r.protocol; port = input.config.listener_port })
            (some id) w wired g,
      )
