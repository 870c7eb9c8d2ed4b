-- ===== src/Stream/Claims.antt =====
-- The checks of internal/services/stream_port_collision.go. A port in use (`PortUse`) has the same
-- two fields as a claim. The repositories that the checks read are parameters, nil or set; a read
-- returns its rows or an error. An error keeps the sentinel that its message wraps.
use backend_v.Base.{
  ◌>>=◌, ◌>>◌, if◌then◌else◌, each, if_set, any, err, reject_if, ok, Result, ℕ, String, Bool, not,
  ◌&&◌, Option, none, some, List, [], ◌∷◌, str_eq, is_nil,
}
use backend_v.Base.Int.{pos, ℤ, eq_ℤ, outside}
use backend_v.Stream.Model.{
  upper, has, DomainTemplate, normalize, Stream, same_port, hostname_ports, StreamPort,
  stream_range,
}
use backend_v.Write.Requested.{requested}

pub data Owner : Type 0 where
  by_row by_pending by_deployed : String → Owner
  unnamed : Owner

pub data PortError : Type 0 where
  port_collision reserved_port invalid_listener_port port_out_of_range : PortError
  port_not_claimed no_stream_ports invalid_stream_port invalid_transport : PortError
  not_configured read_failed stream_not_found : PortError
  stream_port_in_use : Owner → PortError

pub record PortOwner : Type 0 where
  pub held : StreamPort
  pub route_name : String

pub record StreamPortStore : Type 0 where
  pub used_ports_by_stream : ℕ → Option ℕ → Option (List StreamPort)
  pub claimed_ports_by_template : ℕ → Option ℕ → Option (List StreamPort)
  pub l4_port_owners_by_stream : ℕ → List PortOwner
  pub pending_l4_port_owners_by_stream : ℕ → List PortOwner
  pub deployed_l4_port_owners_by_stream : ℕ → List PortOwner

-- What gorm answers for a row that it does not return.
pub data DbError : Type 0 where
  record_not_found other_failure : DbError

abbrev pub Reader : Type 0
Reader = ℕ → Option (List StreamPort)

pub record ReservedPorts : Type 0 where
  pub envoy_internal : List ℤ
  pub domain_defaults : List ℤ

abbrev pub default_reserved_ports : ReservedPorts
default_reserved_ports = record {
  envoy_internal = pos 19000 ∷ pos 19001 ∷ [];
  domain_defaults = [];
}

abbrev pub PortCheck : Type 0
PortCheck = Result PortError (Unit {0})

-- The rows of a read, or the error that wraps its failure.
abbrev pub loaded : {A : Type 0} → PortError → Option A → Result PortError A
loaded e none = err e
loaded e (some a) = ok a

unfoldable pub validate_listener_port : ℤ → ReservedPorts → PortCheck
validate_listener_port port reserved = do
  reject_if (outside (pos 1) (pos 65535) port) invalid_listener_port
  reject_if (any (eq_ℤ port) reserved.envoy_internal) reserved_port
  reject_if (any (eq_ℤ port) reserved.domain_defaults) reserved_port

unfoldable pub template_domain_defaults : DomainTemplate → List ℤ
template_domain_defaults tmpl = if tmpl.merge_gateways then hostname_ports tmpl.listeners else []

abbrev pub in_range : Option (ℤ × ℤ) → ℤ → PortCheck
in_range none port = err port_out_of_range
in_range (some r) port = reject_if (outside r.0 r.1 port) port_out_of_range

unfoldable pub check_port_in_range : ℤ → DomainTemplate → PortCheck
check_port_in_range port tmpl = in_range (stream_range tmpl.listeners) port

abbrev pub tcp_port : ℤ → StreamPort
tcp_port port = record { transport = "TCP"; port = port }

unfoldable pub check_domain_ports_against_streams :
    Option Reader → DomainTemplate → List ℤ → PortCheck
check_domain_ports_against_streams streams tmpl ports =
    if not tmpl.merge_gateways then ok tt else do
      claimed ← loaded not_configured streams
      used ← loaded read_failed (claimed tmpl.id)
      each (λ port. reject_if (has used (tcp_port port)) port_collision) ports

unfoldable pub check_merged_template_set : Reader → Reader → DomainTemplate → PortCheck
check_merged_template_set streams domains tmpl = do
  stream_used ← loaded read_failed (streams tmpl.id)
  domain_used ← loaded read_failed (domains tmpl.id)
  each (λ u. reject_if (has stream_used u) port_collision) domain_used
  each (λ port. reject_if (has stream_used (tcp_port port)) port_collision)
      (template_domain_defaults tmpl)

abbrev pub bad_transport : String → Bool
bad_transport t = not (str_eq t "TCP") && not (str_eq t "UDP")

-- The loop over the sorted claims; `prev` is the claim before.
unfoldable pub check_shape : Option StreamPort → List StreamPort → PortCheck
check_shape prev [] = ok tt
check_shape prev (c ∷ cs) = do
  reject_if (bad_transport c.transport) invalid_stream_port
  if_set prev (λ p. reject_if (same_port p c) invalid_stream_port)
  check_shape (some c) cs

abbrev pub merged_reserved : DomainTemplate → ReservedPorts
merged_reserved tmpl = record {
  envoy_internal = [];
  domain_defaults = template_domain_defaults tmpl;
}

-- The three tests of a claim on a merged template.
unfoldable pub check_shared :
    DomainTemplate → List StreamPort → List StreamPort → StreamPort → PortCheck
check_shared tmpl claimed domain_used c = do
  reject_if (has claimed c) port_collision
  reject_if (has domain_used c) port_collision
  if str_eq c.transport "TCP" then validate_listener_port c.port (merged_reserved tmpl) else ok tt

module _ (to_upper : String → String) (get_by_id : ℕ → Result DbError Stream)
    (port_store : Option StreamPortStore) (domain_ports : Option Reader) where
  abbrev pub stream_found : Result DbError Stream → Result PortError Stream
  stream_found (ok stream) = ok stream
  stream_found (err record_not_found) = err stream_not_found
  stream_found (err other_failure) = err read_failed

  unfoldable pub get_stream : ℕ → Result PortError Stream
  get_stream id = stream_found (get_by_id id)

  -- The part of `validateStreamPorts` for a template that shares its Gateway.
  unfoldable pub check_merged : DomainTemplate → Option ℕ → List StreamPort → PortCheck
  check_merged tmpl self_id norm = do
    store ← loaded not_configured port_store
    domains ← loaded not_configured domain_ports
    claimed ← loaded read_failed (store.claimed_ports_by_template tmpl.id self_id)
    domain_used ← loaded read_failed (domains tmpl.id)
    each (check_shared tmpl claimed domain_used) norm

  unfoldable pub validate_stream_ports :
      DomainTemplate → Option ℕ → List StreamPort → Result PortError (List StreamPort)
  validate_stream_ports tmpl self_id ports =
      let norm = normalize to_upper ports in
      do
        reject_if (is_nil ports) no_stream_ports
        check_shape none norm
        each
            (λ c.
              validate_listener_port c.port default_reserved_ports
              >> check_port_in_range c.port tmpl)
            norm
        if not tmpl.merge_gateways then ok tt else check_merged tmpl self_id norm
        ok norm

  unfoldable pub check_route_port : ℕ → StreamPort → Option ℕ → PortCheck
  check_route_port stream_id requested exclude_route =
      let wanted = upper to_upper requested in
      do
        store ← loaded not_configured port_store
        reject_if (bad_transport wanted.transport) invalid_transport
        stream ← get_stream stream_id
        reject_if (not (has stream.ports wanted)) port_not_claimed
        used ← loaded read_failed (store.used_ports_by_stream stream_id exclude_route)
        reject_if (has used wanted) port_collision

  abbrev pub owner_of : List PortOwner → StreamPort → (String → Owner) → Owner → Owner
  owner_of [] u named otherwise = otherwise
  owner_of (o ∷ os) u named otherwise =
      if same_port o.held u then named o.route_name else owner_of os u named otherwise

  -- Whom `portInUseError` names: a row, else a pending change, else a deployed version.
  unfoldable pub port_in_use_owner : StreamPortStore → ℕ → StreamPort → Owner
  port_in_use_owner store stream_id u =
      owner_of (store.l4_port_owners_by_stream stream_id) u by_row (
        owner_of (store.pending_l4_port_owners_by_stream stream_id) u by_pending
          (owner_of (store.deployed_l4_port_owners_by_stream stream_id) u by_deployed unnamed))

  unfoldable pub check_used_claims_kept : Stream → List StreamPort → PortCheck
  check_used_claims_kept stream next =
      let keep = normalize to_upper next in
      do
        store ← loaded not_configured port_store
        used ← loaded read_failed (store.used_ports_by_stream stream.id none)
        each
            (λ u.
              reject_if (not (has keep u))
                (stream_port_in_use (port_in_use_owner store stream.id u)))
            used
