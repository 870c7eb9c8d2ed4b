-- ===== src/Write/Checks.antt =====
-- The checks of a route's name, labels, owner and input that precede every write.
use backend_v.Base.{
  ◌>>=◌, ◌>>◌, ◌==◌, ltb, if◌then◌else◌, leb, each, length, all, ok, err, reject_if, Result, ℕ,
  String, Bool, true, false, not, ◌&&◌, ◌||◌, Option, none, some, List, [], ◌∷◌, str_eq,
}
use backend_v.Write.Tables.{
  stream_not_found, Tables, domain_not_found, ConfigChecks, not_l4, team_not_found, owner_ambiguous,
  WriteError, name_taken, UpdateRouteInput, route_failure, CreateRouteInput, invalid_request,
}
use backend_v.Write.Security.{validate_write_security_mode, Text}
use backend_v.Write.Policies.{validate_l4_policy_inputs, BackendTrafficPolicy}
use backend_v.Traffic.Checks.{Std, Check}
use backend_v.Route.Status.{Route}
use backend_v.Route.Machine.{RouteError}
use backend_v.Traffic.Retry.{validate_retry}
use backend_v.Traffic.RateLimit.{validate_rate_limit}
use backend_v.Traffic.Balance.{validate_circuit_breaker, validate_load_balancer}
use backend_v.Traffic.Health.{validate_health_check}
use backend_v.Traffic.Faults.{validate_timeout, validate_fault_injection}

abbrev pub lowercase : ℕ → Bool
lowercase c = leb 97 c && leb c 122

abbrev pub lower_alnum : ℕ → Bool
lower_alnum c = lowercase c || (leb 48 c && leb c 57)

unfoldable pub ends_alnum : List ℕ → Bool
ends_alnum [] = false
ends_alnum (c ∷ []) = lower_alnum c
ends_alnum (c ∷ d ∷ s) = ends_alnum (d ∷ s)

abbrev pub starts_lowercase : List ℕ → Bool
starts_lowercase [] = false
starts_lowercase (c ∷ s) = lowercase c

unfoldable pub is_valid_k8s_name : List ℕ → Bool
is_valid_k8s_name name =
    not (ltb 63 (length name))
    && (starts_lowercase name && (ends_alnum name && all (λ c. lower_alnum c || c == 45) name))

abbrev pub max_labels : ℕ
max_labels = 10

-- `key_matches` and `value_matches` are the package regexp on the two patterns.
unfoldable pub validate_labels :
    (key_matches value_matches : String → Bool) → List (String × String) → Check
validate_labels key_matches value_matches labels = do
  reject_if (ltb max_labels (length labels)) "too many labels"
  each
      (λ l.
        reject_if (str_eq l.0 "") "label key cannot be empty"
        >> reject_if (not (key_matches l.0)) "invalid label key"
        >> reject_if (not (str_eq l.1 "") && not (value_matches l.1)) "invalid label value")
      labels

unfoldable pub validate_route_owner : Option ℕ → Option ℕ → Result WriteError (Unit {0})
validate_route_owner none none = err owner_ambiguous
validate_route_owner (some d) (some s) = err owner_ambiguous
validate_route_owner _ _ = ok tt

abbrev pub is_l4_protocol : String → Bool
is_l4_protocol protocol = str_eq protocol "tcp" || str_eq protocol "udp"

unfoldable pub is_l4 : {Config : Type 0} → Route Config → Bool
is_l4 r = is_l4_protocol r.protocol

abbrev pub refuse : Check → Result WriteError (Unit {0})
refuse (ok a) = ok a
refuse (err e) = err (invalid_request e)

-- A read that wraps its failure.
abbrev pub or_error : {A : Type 0} → WriteError → Option A → Result WriteError A
or_error e none = err e
or_error e (some a) = ok a

abbrev pub read_route : {A : Type 0} → Result RouteError A → Result WriteError A
read_route (ok a) = ok a
read_route (err e) = err (route_failure e)

abbrev pub or_kept : {A : Type 0} → A → Option A → A
or_kept kept none = kept
or_kept kept (some new) = new

module _ (key_matches value_matches : String → Bool) where
  abbrev pub labels_of :
      Option (List (String × String)) → Result WriteError (Option (List (String × String)))
  labels_of none = ok none
  labels_of (some labels) =
      refuse (validate_labels key_matches value_matches labels) >>= λ _. ok (some labels)

  -- The description, unless it is empty, and the labels, if there are any.
  unfoldable pub apply_fields :
      {Config : Type 0} {std : Std}
      → UpdateRouteInput Config std
      → Route Config
      → Result WriteError (Route Config)
  apply_fields input r = labels_of input.labels >>= λ labels. ok (record r {
    description = if str_eq input.description "" then r.description else input.description;
    labels = or_kept r.labels labels;
  })

module _ {Config : Type 0} {std : Std} {W : Type 0} (text : Text) (tables : Tables Config std W)
    (checks : ConfigChecks Config std W) where
  open tables use {
    exists_by_name, exists_by_stream_and_name, domain_project, stream_project, team_exists,
  }
  open checks use {backends, direct_response, shape}

  unfoldable pub validate_route_traffic_policies :
      Config → Option (BackendTrafficPolicy std) → ℕ → W → Check
  validate_route_traffic_policies config none project w = backends config project w
  validate_route_traffic_policies config (some p) project w = do
    backends config project w
    validate_retry std p.retry
    validate_load_balancer std p.load_balancer
    validate_circuit_breaker p.circuit_breaker
    validate_health_check std p.health_check
    validate_fault_injection std p.fault_injection
    validate_rate_limit std p.rate_limit
    validate_timeout std p.timeout

  abbrev pub same_project : Option ℕ → ℕ → Result WriteError ℕ
  same_project none project = ok project
  same_project (some want) project = if project == want then ok project else err stream_not_found

  -- `resolveStream`, for the stream's project.
  unfoldable pub resolve_stream : ℕ → Option ℕ → W → Result WriteError ℕ
  resolve_stream stream_id want_project w =
      or_error stream_not_found (stream_project stream_id w) >>= same_project want_project

  abbrev pub stream_owner : Result WriteError ℕ → W → Result WriteError ℕ
  stream_owner id w = id >>= λ stream. resolve_stream stream none w

  abbrev pub domain_owner : Result WriteError ℕ → W → Result WriteError ℕ
  domain_owner id w = id >>= λ domain. or_error domain_not_found (domain_project domain w)

  unfoldable pub route_project_id : Route Config → W → Result WriteError ℕ
  route_project_id r w = do
    validate_route_owner r.domain_id r.stream_id
    (if is_l4 r
        then stream_owner
            (or_error (invalid_request "an L4 route must belong to a stream") r.stream_id) w
        else domain_owner
            (or_error (invalid_request "a non-L4 route must belong to a domain") r.domain_id) w)

  unfoldable pub validate_update :
      ℕ → Route Config → UpdateRouteInput Config std → W → Result WriteError ℕ
  validate_update id r input w = do
    project ← route_project_id r w
    refuse (validate_route_traffic_policies input.config input.traffic project w)
    refuse (validate_write_security_mode text r.security_mode input.security false)
    (if is_l4 r
        then refuse (
            validate_l4_policy_inputs std r.protocol r.security_mode input.security input.extension
              input.waf input.traffic)
        else ok tt)
    refuse (shape input.config input.traffic r.protocol r.domain_id r.stream_id (some id) w)
    refuse (direct_response input.config input.traffic)
    ok project

  -- The project of the stream or domain under which the route is created.
  abbrev pub owner_project :
      Option ℕ → Option ℕ → Option ℕ → CreateRouteInput Config std → W → Result WriteError ℕ
  owner_project domain none want input w = do
    taken ← read_route (exists_by_name (elim domain [ none ↦ 0 | some d ↦ d ]) input.name w)
    reject_if taken name_taken
    or_error domain_not_found (elim domain [ none ↦ none | some d ↦ domain_project d w ])
  owner_project domain (some stream) want input w = do
    reject_if (not (is_l4_protocol input.protocol)) not_l4
    project ← resolve_stream stream want w
    taken ← read_route (exists_by_stream_and_name stream input.name w)
    reject_if taken name_taken
    ok project

  pub record CreatePlan : Type 0 where
    pub project_id : ℕ
    pub protocol : String
    pub security_mode : String

  abbrev pub or_default : String → String → String
  or_default default s = if str_eq s "" then default else s

  unfoldable pub validate_create :
      Option ℕ → CreateRouteInput Config std → Option ℕ → W → Result WriteError CreatePlan
  validate_create domain input want w =
      let protocol = or_default "http" input.protocol in
      let mode = or_default "general" input.security_mode in
      do
        validate_route_owner domain input.stream_id
        reject_if (text.contains input.name " ")
            (invalid_request "route name cannot contain spaces")
        reject_if (not (is_valid_k8s_name (text.bytes input.name))) (invalid_request "route name")
        project ← owner_project domain input.stream_id want input w
        refuse (validate_route_traffic_policies input.config input.traffic project w)
        refuse (direct_response input.config input.traffic)
        reject_if (not (team_exists input.team_id w)) team_not_found
        refuse (validate_write_security_mode text mode input.security true)
        (if is_l4_protocol protocol
            then refuse (
                validate_l4_policy_inputs std protocol mode input.security input.extension input.waf
                  input.traffic)
            else ok tt)
        refuse (shape input.config input.traffic protocol domain input.stream_id none w)
        ok record { project_id = project; protocol = protocol; security_mode = mode }
