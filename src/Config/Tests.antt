-- ===== src/Config/Tests.antt =====
-- The checks of a configuration on small ones.
use backend_v.Write.Samples.{plain_text, blank}
use backend_v.Base.{
  if◌then◌else◌, Passes, ok, err, reject_if, ℕ, String, ◌≡◌, refl, ap, ◌≢◌, ◌↔◌, Bool, true, false,
  not, Option, none, some, List, [], ◌∷◌, str_eq, Result,
}
use backend_v.Base.Int.{ℤ, eq_ℤ, pos}
use backend_v.Config.Warnings.{backend_tls_warnings, direct_response_percent_warnings}
use backend_v.Config.Updated.{accepted_update}
use backend_v.Config.Backends.{
  validate_failover_config, Keys, primary_keys, validate_mirror_targets,
  validate_backend_namespaces, validate_backend_required_fields,
}
use backend_v.Config.Shape.{
  validate_backends, validate_direct_response_input, validate_l4_route_config,
  validate_route_config, config_checks, Sources, validate_route_shape_and_conflicts,
  validate_l4_listener,
}
use backend_v.Config.Model.{
  HeaderMatch, has_failover, RouteMatch, RouteBackend, RouteConfig, MirrorBackend,
}
use backend_v.Config.Conflicts.{conflicts_agree, repeated_header}
use backend_v.Config.Matchers.{
  header_key, keys_equal, check_matcher_conflicts, first_conflict, grpc_match_equal,
  validate_matcher_conflict, query_param_matches_equal, header_matches_equal, path_match_equal,
  route_matchers_equal, Folding,
}
use backend_v.Config.Accepted.{IsL4Config, IsListening, l4_shape_iff}
use backend_v.Config.Targets.{validate_mirror_targets_iff, IsMirrored}
use backend_v.Stream.Claims.{
  PortCheck, port_not_claimed, validate_listener_port, get_stream, check_route_port,
  StreamPortStore, DbError,
}
use backend_v.Stream.Model.{StreamPort, Stream, has}
use backend_v.Write.Security.{validate_security_mode_general, validate_write_security_mode}
use backend_v.Write.Checks.{
  validate_route_traffic_policies, resolve_stream, validate_route_owner, is_l4, route_project_id,
  validate_update, is_l4_protocol,
}
use backend_v.Write.Policies.{validate_l4_policy_inputs, validate_l4_backend_traffic_policy}
use backend_v.Write.Tables.{Tables, UpdateRouteInput}
use backend_v.Traffic.Checks.{Std}
use backend_v.Route.Status.{Route, RouteStatus}
use backend_v.Config.Granted.{stream_checker, IsHeldBy, update_holds_port}

abbrev same_case : Folding
same_case = record { equal_fold = str_eq; to_lower = λ s. s }

abbrev tenant : HeaderMatch
tenant = record { name = "x-tenant"; type = "Exact"; value = "a" }

abbrev region : HeaderMatch
region = record { name = "x-region"; type = "Exact"; value = "eu" }

tenant≢region : header_key same_case tenant ≢ header_key same_case region
tenant≢region e = absurd (cc clash)
  where
    clash : true ≡ false
    clash = ap (λ k. str_eq k.name "x-tenant") e

repeated_header_example :
    (header_matches_equal same_case (tenant ∷ region ∷ []) (tenant ∷ tenant ∷ []) ≡ true)
    × (header_matches_equal same_case (tenant ∷ tenant ∷ []) (tenant ∷ region ∷ []) ≡ false)
repeated_header_example = repeated_header same_case tenant region tenant≢region

abbrev on_path : String → RouteMatch
on_path p = record {
  path = some (record { type = "Prefix"; value = p });
  headers = [];
  method = "";
  query_params = [];
  grpc_service = none;
  grpc_method = none;
}

abbrev db : RouteBackend
db = record {
  type = "kubernetes";
  service = "db";
  namespace = "data";
  port = pos 5432;
  weight = pos 1;
  fallback = false;
  address_type = "";
  address = "";
  tls = none;
}

abbrev config_of : List RouteMatch → ℤ → List MirrorBackend → RouteConfig
config_of ms port mirrors = record {
  route_type = "backend";
  matches = ms;
  backends = db ∷ [];
  mirrors = mirrors;
  redirect = none;
  direct_response = none;
  request_header_modifier = none;
  response_header_modifier = none;
  url_rewrite = none;
  listener_port = port;
  default_traffic_policy = "";
  default_allowed_cidrs = [];
}

abbrev row : ℕ → String → RouteConfig → Route RouteConfig
row id protocol c = record {
  id = id;
  domain_id = if is_l4_protocol protocol then none else some 9;
  stream_id = if is_l4_protocol protocol then some 4 else none;
  team_id = 2;
  name = "orders";
  description = "orders";
  protocol = protocol;
  security_mode = "general";
  k8s_route_name = "orders-1";
  created_by = 5;
  labels = [];
  config = c;
  status = RouteStatus.active;
}

abbrev api : RouteConfig
api = config_of (on_path "/api" ∷ []) (pos 0) []

abbrev in_domain : Option (List (Route RouteConfig))
in_domain = some (row 1 "http" api ∷ [])

-- The new configuration has the matcher of the route that is there, so both checks report it.
conflicts_agree_example :
    Passes (validate_matcher_conflict same_case in_domain api none)
    ↔ (check_matcher_conflicts same_case in_domain (on_path "/api") none ≡ ok [])
conflicts_agree_example = conflicts_agree same_case in_domain api none (on_path "/api") [] refl

same_path_refused :
    validate_matcher_conflict same_case in_domain api none
    ≡ err "route matcher conflicts with existing route"
unfolding validate_matcher_conflict first_conflict route_matchers_equal path_match_equal
    grpc_match_equal header_matches_equal query_param_matches_equal keys_equal
same_path_refused = refl

abbrev by_service : Keys
by_service = record { target_key = λ n s p. s; k8s_key = λ n s p. s; ext_key = λ a p. a }

abbrev audit : MirrorBackend
audit = record { type = "kubernetes"; service = "audit"; namespace = "data"; port = pos 80 }

abbrev mirrored : RouteConfig
mirrored = config_of (on_path "/" ∷ []) (pos 0) (audit ∷ [])

audit_allowed : Passes (validate_mirror_targets by_service mirrored)
unfolding validate_mirror_targets primary_keys
audit_allowed = refl

mirrors-nil : mirrored.mirrors ≢ []
mirrors-nil e = absurd (cc e)

validate_mirror_targets_iff_example : IsMirrored by_service mirrored
validate_mirror_targets_iff_example =
    (validate_mirror_targets_iff by_service mirrored).0 audit_allowed mirrors-nil

abbrev no_float : Std
no_float = record {
  parse_duration = λ s. none;
  parse_cidr = λ s. true;
  parse_ip = λ s. true;
  size_pattern = λ s. true;
  Float32 = Bool;
  below_zero = λ b. false;
  above_hundred = λ b. false;
}

-- A checker that grants port 5432, in a database that nothing is read of.
abbrev granting : ℕ → StreamPort → Option ℕ → Unit {0} → PortCheck
granting stream p exclude w = reject_if (not (eq_ℤ p.port (pos 5432))) port_not_claimed

abbrev wired : Sources no_float (Unit {0})
wired = record {
  keys = by_service;
  folding = same_case;
  exists_by_project_and_namespace = λ p w n. some true;
  list_by_domain_id = λ d w. in_domain;
  l4_ports = some granting;
}

abbrev database : RouteConfig
database = config_of [] (pos 5432) []

database_accepted :
    Passes
      (validate_route_shape_and_conflicts no_float wired database none "tcp" none (some 4) none tt)
unfolding validate_route_shape_and_conflicts validate_route_config validate_l4_route_config
    validate_l4_backend_traffic_policy validate_l4_listener validate_listener_port
database_accepted = refl

l4_shape_iff_example :
    (IsL4Config database × Passes (validate_l4_backend_traffic_policy no_float none "tcp"))
    × IsListening no_float wired database "tcp" (some 4) none tt
l4_shape_iff_example =
    (l4_shape_iff no_float wired database none "tcp" none (some 4) none tt refl).0 database_accepted

abbrev only_route : Tables RouteConfig no_float (Unit {0})
only_route = record {
  get_route = λ id w. ok (row 1 "tcp" database);
  create_route = λ r w. (ok tt, w);
  update_route = λ r w. (ok tt, w);
  delete_route = λ id w. (ok tt, w);
  exists_by_name = λ d n w. ok false;
  exists_by_stream_and_name = λ d n w. ok false;
  domain_project = λ d w. some 3;
  stream_project = λ d w. some 3;
  team_exists = λ t w. true;
  get_pending = λ id w. none;
  security = blank;
  traffic = blank;
  extension = blank;
  waf = blank;
}

abbrev new_config : UpdateRouteInput RouteConfig no_float
new_config = record {
  description = "";
  config = database;
  security = none;
  traffic = none;
  extension = none;
  waf = none;
  change_description = "";
  ai_review = none;
  labels = none;
}

update_accepted :
    validate_update plain_text only_route
      (config_checks no_float wired)
      1
      (row 1 "tcp" database)
      new_config
      tt
    ≡ ok 3
unfolding validate_update route_project_id validate_route_owner is_l4 resolve_stream
    validate_route_traffic_policies validate_backends validate_backend_required_fields
    validate_backend_namespaces validate_mirror_targets validate_failover_config has_failover
    validate_write_security_mode validate_security_mode_general validate_l4_policy_inputs
    validate_l4_backend_traffic_policy validate_route_shape_and_conflicts validate_route_config
    validate_l4_route_config validate_l4_listener validate_listener_port
    validate_direct_response_input
update_accepted = refl

is_l4-database : is_l4 (row 1 "tcp" database) ≡ true
unfolding is_l4
is_l4-database = refl

database_listens :
    IsL4Config database × IsListening no_float wired database "tcp" (some 4) (some 1) tt
database_listens =
    accepted_update no_float wired plain_text only_route 1 (row 1 "tcp" database) new_config tt
      is_l4-database update_accepted

abbrev stored : Stream
stored = record {
  id = 4;
  project_id = 3;
  name = 100 ∷ 98 ∷ [];
  namespace = "data";
  gateway_template_id = 1;
  k8s_gateway_name = 115 ∷ 116 ∷ 114 ∷ 45 ∷ 100 ∷ 98 ∷ [];
  k8s_gateway_class = "envoy";
  status = "active";
  status_message = "";
  created_by = none;
  ports = (record { transport = "TCP"; port = pos 5432 }) ∷ [];
}

abbrev only_stream : Unit {0} → ℕ → Result DbError Stream
only_stream w id = ok stored

abbrev unused : Unit {0} → Option StreamPortStore
unused w = some (record {
  used_ports_by_stream = λ id exclude. some [];
  claimed_ports_by_template = λ id exclude. some [];
  l4_port_owners_by_stream = λ id. [];
  pending_l4_port_owners_by_stream = λ id. [];
  deployed_l4_port_owners_by_stream = λ id. [];
})

abbrev with_streams : Sources no_float (Unit {0})
with_streams = record wired { l4_ports = some (stream_checker (λ s. s) only_stream unused none) }

stream_update_accepted :
    validate_update plain_text only_route
      (config_checks no_float with_streams)
      1
      (row 1 "tcp" database)
      new_config
      tt
    ≡ ok 3
unfolding validate_update route_project_id validate_route_owner is_l4 resolve_stream
    validate_route_traffic_policies validate_backends validate_backend_required_fields
    validate_backend_namespaces validate_mirror_targets validate_failover_config has_failover
    validate_write_security_mode validate_security_mode_general validate_l4_policy_inputs
    validate_l4_backend_traffic_policy validate_route_shape_and_conflicts validate_route_config
    validate_l4_route_config validate_l4_listener validate_listener_port
    validate_direct_response_input check_route_port get_stream has
stream_update_accepted = refl

update_holds_port_example :
    (stream : ℕ) × ((row 1 "tcp" database).stream_id ≡ some stream)
    × IsHeldBy
        (λ s. s)
        only_stream
        unused
        none
        stream
        (record { transport = "TCP"; port = pos 5432 })
        (some 1)
        tt
update_holds_port_example =
    update_holds_port (λ s. s) only_stream unused none no_float with_streams plain_text only_route 1
      (row 1 "tcp" database) new_config tt refl is_l4-database stream_update_accepted

abbrev with_body : List ℕ → RouteConfig
with_body text = record api {
  direct_response = some (record {
    status_code = pos 200;
    content_type = "text/plain";
    body = some (record { type = "Inline"; inline = text });
  });
}

percent_warned :
    direct_response_percent_warnings (some (with_body (53 ∷ 37 ∷ [])))
    ≡ "DirectResponse inline body contains '%'" ∷ []
unfolding direct_response_percent_warnings
percent_warned = refl

verified_backends : backend_tls_warnings api ≡ []
unfolding backend_tls_warnings
verified_backends = refl
