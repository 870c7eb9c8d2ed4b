-- ===== src/Config/Shape.antt =====
-- The checks of a configuration's shape by protocol (internal/services/route_validation.go,
-- route_write_validation.go), and all the checks of a configuration together, as the writes use them.
use backend_v.Base.{
  ◌>>◌, if◌then◌else◌, if_set, is_nil, each, ok, reject_if, err, ℕ, String, Bool, true, not, ◌&&◌,
  ◌||◌, Option, none, some, List, str_eq,
}
use backend_v.Base.Int.{pos, eq_ℤ}
use backend_v.Config.Backends.{
  validate_backend_namespaces, is_external, validate_backend_required_fields,
  validate_mirror_targets, Keys, validate_failover_config,
}
use backend_v.Config.Model.{RouteConfig, validate_direct_response, RouteMatch, PathMatch}
use backend_v.Config.Matchers.{validate_matcher_conflict, Folding}
use backend_v.Stream.Claims.{validate_listener_port, PortCheck, default_reserved_ports}
use backend_v.Stream.Model.{StreamPort}
use backend_v.Write.Checks.{is_l4_protocol}
use backend_v.Write.Policies.{BackendTrafficPolicy, validate_l4_backend_traffic_policy, has_content}
use backend_v.Write.Tables.{ConfigChecks}
use backend_v.Traffic.Checks.{is_some, Check, Std}
use backend_v.Route.Status.{Route}

abbrev pub match_is_grpc : RouteMatch → Check
match_is_grpc m = do
  reject_if (is_some m.path) "path matching is not supported for gRPC routes"
  reject_if (not (str_eq m.method "")) "HTTP method matching is not supported for gRPC routes"
  reject_if (not (is_nil m.query_params))
      "query parameter matching is not supported for gRPC routes"
  if_set m.grpc_service (λ s. if_set m.grpc_method (λ d.
      reject_if (not (str_eq s.type "") && (not (str_eq d.type "") && not (str_eq s.type d.type)))
        "grpcService type and grpcMethod type must be the same"))

unfoldable pub validate_grpc_route_config : RouteConfig → Check
validate_grpc_route_config c = do
  reject_if (str_eq c.route_type "redirect") "redirect is not supported for gRPC routes"
  reject_if (str_eq c.route_type "directResponse")
      "direct response is not supported for gRPC routes"
  reject_if (is_some c.url_rewrite) "URL rewrite is not supported for gRPC routes"
  reject_if (is_some c.redirect) "redirect config is not supported for gRPC routes"
  reject_if (is_some c.direct_response) "direct response config is not supported for gRPC routes"
  each match_is_grpc c.matches

abbrev pub match_is_http : RouteMatch → Check
match_is_http m = do
  reject_if (is_some m.grpc_service) "grpcService is only supported for gRPC routes"
  reject_if (is_some m.grpc_method) "grpcMethod is only supported for gRPC routes"

unfoldable pub validate_http_route_config : RouteConfig → Check
validate_http_route_config c = each match_is_http c.matches

-- `ValidateL4RouteConfig`, with the route's security mode.
unfoldable pub validate_l4_route_config : String → RouteConfig → Check
validate_l4_route_config mode c = do
  reject_if (not (is_nil c.matches)) "matches"
  reject_if (not (str_eq c.route_type "") && not (str_eq c.route_type "backend")) "routeType"
  reject_if (is_some c.redirect) "redirect"
  reject_if (is_some c.direct_response) "directResponse"
  reject_if (is_some c.url_rewrite) "urlRewrite"
  reject_if (is_some c.request_header_modifier) "requestHeaderModifier"
  reject_if (is_some c.response_header_modifier) "responseHeaderModifier"
  reject_if (not (is_nil c.mirrors)) "mirrors"
  reject_if (not (str_eq c.default_traffic_policy "") || not (is_nil c.default_allowed_cidrs))
      "client default traffic policy"
  reject_if (not (str_eq mode "") && not (str_eq mode "general")) "securityMode"
  reject_if (eq_ℤ c.listener_port (pos 0)) "a TCP/UDP route requires a listener port"
  reject_if (is_nil c.backends) "a TCP/UDP route requires at least one backend"
  each (λ b. reject_if (is_external b) "external backends are not supported on a TCP/UDP route")
      c.backends

abbrev pub no_path : Option PathMatch → Bool
no_path none = true
no_path (some p) = str_eq p.value ""

unfoldable pub validate_http_shape : RouteConfig → String → Check
validate_http_shape c protocol = do
  (if str_eq c.route_type "" || str_eq c.route_type "backend"
      then reject_if (is_nil c.backends) "at least one backend is required"
      else ok tt)
  (if not (str_eq c.route_type "directResponse") && not (str_eq protocol "grpc")
      then (each (λ m. reject_if (no_path m.path) "path matching is required for match rule")
            c.matches
          >> reject_if (is_nil c.matches) "path matching is required")
      else ok tt)
  (if str_eq c.route_type "redirect"
      then reject_if (not (is_some c.redirect)) "redirect configuration is required"
      else ok tt)

unfoldable pub validate_route_config : RouteConfig → String → Check
validate_route_config c protocol =
    if is_l4_protocol protocol
    then validate_l4_route_config "" c
    else validate_http_shape c protocol

-- `Route.Transport`
abbrev pub l4_transport : String → String
l4_transport protocol =
    if str_eq protocol "udp" then "UDP" else if str_eq protocol "tcp" then "TCP" else ""

abbrev pub listener_check : PortCheck → Check
listener_check (ok a) = ok a
listener_check (err e) = err "listener port"

module _ (std : Std) where
  abbrev pub no_request_buffer : BackendTrafficPolicy std → Check
  no_request_buffer p =
      reject_if (is_some p.request_buffer) "requestBuffer is not supported for gRPC routes"

  unfoldable pub validate_grpc_backend_traffic_policy : Option (BackendTrafficPolicy std) → Check
  validate_grpc_backend_traffic_policy btp = if_set btp no_request_buffer

  unfoldable pub validate_direct_response_input :
      RouteConfig → Option (BackendTrafficPolicy std) → Check
  validate_direct_response_input c btp =
      if not (str_eq c.route_type "directResponse")
      then ok tt
      else (reject_if (not (is_some c.direct_response)) "directResponse configuration is required"
          >> if_set c.direct_response validate_direct_response
          >> reject_if (not (is_nil c.backends)) "directResponse routes cannot have backends"
          >> reject_if (is_some c.url_rewrite) "directResponse routes cannot have URL rewrite"
          >> reject_if (is_some c.request_header_modifier)
              "directResponse routes cannot have request header modifier"
          >> if_set btp (λ p.
            reject_if (has_content std p)
              "directResponse routes cannot have backend traffic policy"))

  -- What the checks read: the project's namespaces, the routes of a domain, and the ports of a stream
  -- (the `L4PortChecker`, if it is wired).
  pub record Sources (W : Type 0) : Type 0 where
    pub keys : Keys
    pub folding : Folding
    pub exists_by_project_and_namespace : ℕ → W → String → Option Bool
    pub list_by_domain_id : ℕ → W → Option (List (Route RouteConfig))
    pub l4_ports : Option (ℕ → StreamPort → Option ℕ → W → PortCheck)

  module _ {W : Type 0} (sources : Sources W) where
    open sources use {keys, folding, exists_by_project_and_namespace, list_by_domain_id, l4_ports}

    -- `CheckRoutePort` of the checker, or the error of an unwired one.
    abbrev pub wired_check :
        Option (ℕ → StreamPort → Option ℕ → W → PortCheck) → ℕ → StreamPort → Option ℕ → W → Check
    wired_check none stream c exclude w = err "L4 port checker is not configured"
    wired_check (some check) stream c exclude w = listener_check (check stream c exclude w)

    unfoldable pub validate_l4_listener : RouteConfig → String → Option ℕ → Option ℕ → W → Check
    validate_l4_listener c protocol none exclude w = err "an L4 route must belong to a stream"
    validate_l4_listener c protocol (some stream) exclude w =
        listener_check (validate_listener_port c.listener_port default_reserved_ports)
        >> wired_check l4_ports stream
            (record { transport = l4_transport protocol; port = c.listener_port }) exclude w

    -- The domain of a route without one is the nil uuid.
    abbrev pub domain_or_nil : Option ℕ → ℕ
    domain_or_nil none = 0
    domain_or_nil (some d) = d

    unfoldable pub validate_route_shape_and_conflicts :
        RouteConfig
        → Option (BackendTrafficPolicy std)
        → String
        → Option ℕ
        → Option ℕ
        → Option ℕ
        → W
        → Check
    validate_route_shape_and_conflicts c btp protocol domain stream exclude w =
        if is_l4_protocol protocol
        then (validate_route_config c protocol
            >> validate_l4_backend_traffic_policy std btp protocol
            >> validate_l4_listener c protocol stream exclude w)
        else ((if str_eq protocol "grpc"
              then (validate_grpc_route_config c >> validate_grpc_backend_traffic_policy btp)
              else validate_http_route_config c)
            >> validate_route_config c protocol
            >> validate_matcher_conflict folding (list_by_domain_id (domain_or_nil domain) w) c
                exclude)

    -- The first four checks of `validateRouteTrafficPolicies`.
    unfoldable pub validate_backends : RouteConfig → ℕ → W → Check
    validate_backends c project w = do
      validate_backend_required_fields c
      validate_backend_namespaces (exists_by_project_and_namespace project w) c
      validate_mirror_targets keys c
      validate_failover_config keys c

    abbrev pub config_checks : ConfigChecks RouteConfig std W
    config_checks = record {
      backends = validate_backends;
      direct_response = validate_direct_response_input;
      shape = validate_route_shape_and_conflicts;
    }
