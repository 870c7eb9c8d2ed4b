-- ===== src/Stream/Tests.antt =====
-- The theorems on streams at a merged template with one other stream and one domain.
-- An upper-case transport, and its lower-case spelling.
use backend_v.Base.{
  ◌==◌, if◌then◌else◌, Passes, Any, All, Result, err, ok, ℕ, String, ◌≡◌, refl, ◌↔◌, true, Option,
  none, some, List, [], ◌∷◌, map, str_eq,
}
use backend_v.Base.Int.{pos}
use backend_v.Stream.Kept.{
  check_domain_ports_against_streams_iff, check_used_claims_kept_iff, check_merged_template_set_iff,
}
use backend_v.Stream.Claims.{
  validate_listener_port, check_port_in_range, Reader, check_merged, check_shape,
  template_domain_defaults, tcp_port, DbError, check_route_port, get_stream, validate_stream_ports,
  check_shared, check_used_claims_kept, record_not_found, check_merged_template_set,
  check_domain_ports_against_streams, StreamPortStore,
}
use backend_v.Stream.Model.{
  StreamPort, normalize, insert, hostname_ports, DomainTemplate, stream_range, has, Stream, sort,
  upper, Protocol,
}
use backend_v.Stream.Accepts.{IsFree}
use backend_v.Stream.Order.{IsDistinct, IsTransport}
use backend_v.Stream.Accepted.{
  check_route_port_iff, IsClaimSet, validate_stream_ports_iff, validate_stream_ports-IsDistinct,
}

abbrev to_upper : String → String
to_upper s = if str_eq s "tcp" then "TCP" else if str_eq s "udp" then "UDP" else s

abbrev at_port : String → ℕ → StreamPort
at_port transport port = record { transport = transport; port = pos port }

abbrev template : DomainTemplate
template = record {
  id = 1;
  project_id = 3;
  k8s_gateway_class_name = "envoy";
  listeners =
      (record {
        protocol = Protocol.https;
        port = pos 443;
        port_range_min = pos 0;
        port_range_max = pos 0;
      })
      ∷ (record {
        protocol = Protocol.tcp;
        port = pos 0;
        port_range_min = pos 5000;
        port_range_max = pos 6000;
      })
      ∷ [];
  merge_gateways = true;
}

abbrev database : Stream
database = record {
  id = 2;
  project_id = 3;
  name = 100 ∷ 98 ∷ [];
  namespace = "data";
  gateway_template_id = 1;
  k8s_gateway_name = 115 ∷ 116 ∷ 114 ∷ 45 ∷ 100 ∷ 98 ∷ [];
  k8s_gateway_class = "envoy";
  status = "active";
  status_message = "";
  created_by = none;
  ports = at_port "TCP" 5432 ∷ at_port "UDP" 5353 ∷ [];
}

abbrev get_by_id : ℕ → Result DbError Stream
get_by_id id = if id == 2 then ok database else err record_not_found

abbrev port_store : StreamPortStore
port_store = record {
  used_ports_by_stream = λ id exclude. some (at_port "UDP" 5353 ∷ []);
  claimed_ports_by_template = λ id exclude. some (at_port "TCP" 5500 ∷ []);
  l4_port_owners_by_stream = λ id. [];
  pending_l4_port_owners_by_stream = λ id. [];
  deployed_l4_port_owners_by_stream = λ id. [];
}

abbrev domain_ports : Reader
domain_ports id = some (at_port "TCP" 443 ∷ [])

abbrev proposed : List StreamPort
proposed = at_port "udp" 5353 ∷ at_port "tcp" 5432 ∷ []

claimed :
    validate_stream_ports to_upper get_by_id
      (some port_store)
      (some domain_ports)
      template
      (some 2)
      proposed
    ≡ ok (at_port "TCP" 5432 ∷ at_port "UDP" 5353 ∷ [])
unfolding validate_stream_ports check_shape validate_listener_port check_port_in_range check_merged
    check_shared normalize sort insert has stream_range template_domain_defaults hostname_ports
claimed = refl

validate_stream_ports_iff_example :
    IsClaimSet to_upper get_by_id
      (some port_store)
      (some domain_ports)
      template
      (some 2)
      proposed
      (normalize to_upper proposed)
    × (normalize to_upper proposed ≡ at_port "TCP" 5432 ∷ at_port "UDP" 5353 ∷ [])
validate_stream_ports_iff_example =
    (validate_stream_ports_iff to_upper get_by_id (some port_store) (some domain_ports) template
        (some 2) proposed (at_port "TCP" 5432 ∷ at_port "UDP" 5353 ∷ [])).0
      claimed

claims-IsDistinct :
    IsDistinct (at_port "TCP" 5432 ∷ at_port "UDP" 5353 ∷ [])
    × ((c : StreamPort)
        → Any (λ d. d ≡ c) (at_port "TCP" 5432 ∷ at_port "UDP" 5353 ∷ [])
          ↔ Any (λ d. d ≡ c) (map (upper to_upper) proposed))
claims-IsDistinct =
    validate_stream_ports-IsDistinct to_upper get_by_id (some port_store) (some domain_ports)
      template (some 2) proposed (at_port "TCP" 5432 ∷ at_port "UDP" 5353 ∷ []) claimed

free_port : Passes (
    check_route_port to_upper get_by_id
      (some port_store)
      (some domain_ports)
      2
      (at_port "tcp" 5432)
      none)
unfolding check_route_port get_stream has
free_port = refl

check_route_port_iff_example :
    (store : StreamPortStore) × (◌≡◌ {A = Option StreamPortStore} (some port_store) (some store))
    × (IsTransport "TCP"
        × ((stream : Stream) × (get_by_id 2 ≡ ok stream)
            × ((has stream.ports (at_port "TCP" 5432) ≡ true)
                × ((used : List StreamPort) × (store.used_ports_by_stream 2 none ≡ some used)
                    × IsFree used (at_port "TCP" 5432)))))
check_route_port_iff_example =
    (check_route_port_iff to_upper get_by_id (some port_store) (some domain_ports) 2
        (at_port "tcp" 5432) none).0
      free_port

dropped_tcp : Passes (
    check_used_claims_kept to_upper get_by_id
      (some port_store)
      (some domain_ports)
      database
      (at_port "udp" 5353 ∷ []))
unfolding check_used_claims_kept has normalize sort insert
dropped_tcp = refl

claims_kept :
    (store : StreamPortStore) × (◌≡◌ {A = Option StreamPortStore} (some port_store) (some store))
    × ((used : List StreamPort) × (store.used_ports_by_stream 2 none ≡ some used)
        × All (λ u. has (normalize to_upper (at_port "udp" 5353 ∷ [])) u ≡ true) used)
claims_kept =
    (check_used_claims_kept_iff to_upper get_by_id (some port_store) (some domain_ports) database
        (at_port "udp" 5353 ∷ [])).0
      dropped_tcp

abbrev stream_claims : Reader
stream_claims id = some (at_port "TCP" 5432 ∷ [])

no_clash : Passes (check_merged_template_set stream_claims domain_ports template)
unfolding check_merged_template_set has template_domain_defaults hostname_ports
no_clash = refl

template_clear :
    (stream_used : List StreamPort) × (stream_claims 1 ≡ some stream_used)
    × ((domain_used : List StreamPort) × (domain_ports 1 ≡ some domain_used)
        × (All (IsFree stream_used) domain_used
            × All (λ port. IsFree stream_used (tcp_port port)) (template_domain_defaults template)))
template_clear = (check_merged_template_set_iff stream_claims domain_ports template).0 no_clash

domain-Passes :
    Passes (check_domain_ports_against_streams (some stream_claims) template (pos 443 ∷ []))
unfolding check_domain_ports_against_streams has
domain-Passes = refl

domain_ports_refused :
    (claims : Reader) × (◌≡◌ {A = Option Reader} (some stream_claims) (some claims))
    × ((used : List StreamPort) × (claims 1 ≡ some used)
        × All (λ port. IsFree used (tcp_port port)) (pos 443 ∷ []))
domain_ports_refused =
    (check_domain_ports_against_streams_iff (some stream_claims) template (pos 443 ∷ [])).0
      domain-Passes refl
