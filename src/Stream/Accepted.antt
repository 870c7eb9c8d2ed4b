-- ===== src/Stream/Accepted.antt =====
-- When a stream may claim its ports, and when a route may use one of them.
use backend_v.Base.{
  chain_to_iff, chain_iff, id_iff, is_nil_iff, Passes, bind_iff, not_iff, neither_iff, guard_as,
  each_iff, All, Any, err, Result, ok_inj, ok, ℕ, String, ◌≡◌, ap, subst, ◌≢◌, ◌↔◌, true, Option,
  none, some, List, [], map,
}
use backend_v.Stream.Claims.{
  check_route_port, stream_found, other_failure, StreamPortStore, DbError, Reader, check_merged,
  validate_stream_ports, record_not_found, get_stream, default_reserved_ports,
}
use backend_v.Stream.Model.{has, upper, Stream, StreamPort, DomainTemplate, normalize}
use backend_v.Stream.Accepts.{
  check_shape_iff, validate_listener_port_iff, IsListenerPort, IsShared, loaded_iff, has-false,
  value_iff, IsFree, check_port_in_range_iff, unless_if_iff, check_shared_iff, IsInRange,
}
use backend_v.Stream.Order.{IsTransport, IsDistinct, IsShape, IsShape-IsDistinct}
use backend_v.Stream.Sorting.{sort-Any, sort-IsSorted}
use backend_v.Write.Requested.{requested}

module _ (to_upper : String → String) (get_by_id : ℕ → Result DbError Stream)
    (port_store : Option StreamPortStore) (domain_ports : Option Reader) where
  abbrev pub IsMerged : DomainTemplate → Option ℕ → List StreamPort → Type 0
  IsMerged tmpl self_id norm =
      (store : StreamPortStore) × (port_store ≡ some store)
      × ((domains : Reader) × (domain_ports ≡ some domains)
          × ((claimed : List StreamPort) × (store.claimed_ports_by_template tmpl.id self_id
                ≡ some claimed)
              × ((domain_used : List StreamPort) × (domains tmpl.id ≡ some domain_used)
                  × All (IsShared tmpl claimed domain_used) norm)))

  check_merged_iff :
      (tmpl : DomainTemplate) (self_id : Option ℕ) (norm : List StreamPort)
      → Passes (check_merged to_upper get_by_id port_store domain_ports tmpl self_id norm)
        ↔ IsMerged tmpl self_id norm
  unfolding check_merged
  check_merged_iff tmpl self_id norm = bind_iff _ _ (loaded_iff _ port_store) (λ store.
      bind_iff _ _ (loaded_iff _ domain_ports) (λ domains.
        bind_iff _ _ (loaded_iff _ (store.claimed_ports_by_template tmpl.id self_id)) (λ claimed.
          bind_iff _ _ (loaded_iff _ (domains tmpl.id))
            (λ domain_used. each_iff _ _ norm (check_shared_iff tmpl claimed domain_used)))))

  abbrev pub IsClaimSet : DomainTemplate → Option ℕ → List StreamPort → List StreamPort → Type 0
  IsClaimSet tmpl self_id ports norm =
      (ports ≢ [])
      × (IsShape none norm
          × (All (λ c. IsListenerPort default_reserved_ports c.port × IsInRange tmpl c.port) norm
              × ((tmpl.merge_gateways ≡ true → IsMerged tmpl self_id norm))))

  -- `validateStreamPorts` returns a claim set exactly when that is the proposed set in order, not
  -- empty, of TCP and UDP ports none of which repeats the one before; every port lies in 1 to 65535
  -- and in the template's range and is not one of Envoy's; and, on a template that shares its
  -- Gateway, both port sources are set and read, no other stream claims the port, no domain listens
  -- on it, and as TCP it is none of the template's own HTTP, HTTPS and TLS ports.
  pub validate_stream_ports_iff :
      (tmpl : DomainTemplate) (self_id : Option ℕ) (ports norm : List StreamPort)
      → (validate_stream_ports to_upper get_by_id port_store domain_ports tmpl self_id ports
          ≡ ok norm)
        ↔ (IsClaimSet tmpl self_id ports (normalize to_upper ports)
            × (normalize to_upper ports ≡ norm))
  unfolding validate_stream_ports
  validate_stream_ports_iff tmpl self_id ports norm =
      let n = normalize to_upper ports in
      let i = chain_to_iff _ _ (guard_as _ _ (is_nil_iff ports)) (
        chain_to_iff _ _ (check_shape_iff none n) (
          chain_to_iff _ _
            (each_iff (λ c. IsListenerPort default_reserved_ports c.port × IsInRange tmpl c.port) _
              n
              (λ c.
                chain_iff _ _ (validate_listener_port_iff c.port _)
                  (check_port_in_range_iff c.port tmpl)))
            (chain_to_iff _ _
              (unless_if_iff tmpl.merge_gateways _ (check_merged_iff tmpl self_id n))
              (value_iff n norm)))) in
      (
        λ h. let p = i.0 h in ((p.0, (p.1.0, (p.1.1.0, p.1.1.1.0))), p.1.1.1.1),
        λ q. i.1 (q.0.0, (q.0.1.0, (q.0.1.1.0, (q.0.1.1.1, q.1)))),
      )

  -- The claims that `validateStreamPorts` returns hold no port twice, and are exactly the proposed
  -- ones, their transports in upper case.
  pub validate_stream_ports-IsDistinct :
      (tmpl : DomainTemplate) (self_id : Option ℕ) (ports norm : List StreamPort)
      → validate_stream_ports to_upper get_by_id port_store domain_ports tmpl self_id ports
        ≡ ok norm
      → IsDistinct norm
        × ((c : StreamPort) → Any (λ d. d ≡ c) norm ↔ Any (λ d. d ≡ c) (map (upper to_upper) ports))
  unfolding normalize
  validate_stream_ports-IsDistinct tmpl self_id ports norm h =
      let i = (validate_stream_ports_iff tmpl self_id ports norm).0 h in
      let n = normalize to_upper ports in
      subst
        (λ m.
          IsDistinct m
          × ((c : StreamPort) → Any (λ d. d ≡ c) m ↔ Any (λ d. d ≡ c) (map (upper to_upper) ports)))
        i.1
        (
          IsShape-IsDistinct none n (sort-IsSorted (map (upper to_upper) ports)) i.0.1.0,
          λ c. sort-Any (λ d. d ≡ c) (map (upper to_upper) ports),
        )

  get_stream_iff :
      (id : ℕ) (stream : Stream)
      → (get_stream to_upper get_by_id port_store domain_ports id ≡ ok stream)
        ↔ (get_by_id id ≡ ok stream)
  unfolding get_stream
  get_stream_iff id stream = split (get_by_id id)
    where
      split :
          (r : Result DbError Stream)
          → (stream_found to_upper get_by_id port_store domain_ports r ≡ ok stream)
            ↔ (r ≡ ok stream)
      split (ok s) = (λ h. ap ok (ok_inj h), λ h. ap ok (ok_inj h))
      split (err record_not_found) = (λ h. absurd (cc h), λ h. absurd (cc h))
      split (err other_failure) = (λ h. absurd (cc h), λ h. absurd (cc h))

  -- `CheckRoutePort` lets a route use a port exactly when the port sources are set, the transport is
  -- TCP or UDP, the stream is found and claims the port, and no other route of the stream holds it.
  pub check_route_port_iff :
      (stream_id : ℕ) (requested : StreamPort) (exclude_route : Option ℕ)
      → Passes (
          check_route_port to_upper get_by_id port_store domain_ports stream_id requested
            exclude_route)
        ↔ ((store : StreamPortStore) × (port_store ≡ some store)
            × (IsTransport (to_upper requested.transport)
                × ((stream : Stream) × (get_by_id stream_id ≡ ok stream)
                    × ((has stream.ports (upper to_upper requested) ≡ true)
                        × ((used : List StreamPort) × (store.used_ports_by_stream stream_id
                                exclude_route
                              ≡ some used)
                            × IsFree used (upper to_upper requested))))))
  unfolding check_route_port
  check_route_port_iff stream_id requested exclude_route =
      let wanted = upper to_upper requested in
      bind_iff _ _ (loaded_iff _ port_store) (λ store.
        chain_iff _ _ (guard_as _ _ (neither_iff wanted.transport "TCP" "UDP")) (
          bind_iff _ _ (get_stream_iff stream_id) (λ stream.
            chain_iff _ _ (guard_as _ _ (not_iff (has stream.ports wanted) (id_iff _))) (
              bind_iff _ _ (loaded_iff _ (store.used_ports_by_stream stream_id exclude_route))
                (λ used. guard_as _ _ (has-false used wanted))))))
