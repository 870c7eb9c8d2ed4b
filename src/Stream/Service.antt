-- ===== src/Stream/Service.antt =====
-- internal/services/stream_service.go: creating, changing, deleting and reconciling streams.
use backend_v.Base.Exec.{Exec, pure, fail_if, read, or_fail, best_effort, ◌>>=◌, ◌>>◌}
use backend_v.Base.{
  same_bytes, ltb, ◌==◌, if◌then◌else◌, is_nil, err, Result, ok, ℕ, String, Bool, true, false, not,
  Option, none, some, List, [], ◌∷◌, str_eq,
}
use backend_v.Stream.Names.{stream_gateway_name}
use backend_v.Stream.Claims.{
  DbError, check_used_claims_kept, record_not_found, Reader, other_failure, stream_found, PortError,
  validate_stream_ports, StreamPortStore,
}
use backend_v.Stream.Model.{has, stream_range, DomainTemplate, StreamPort, Stream}
use backend_v.Approval.Model.{User}

pub data StreamError : Type 0 where
  streams_unsupported stream_template_not_found template_wrong_project : StreamError
  template_not_stream_enabled namespace_not_registered namespace_not_deployable : StreamError
  stream_name_taken stream_has_routes store_failed apply_failed : StreamError
  port_refused : PortError → StreamError

-- What a write and a call of the cluster may answer.
pub data StreamWriteError : Type 0 where
  unique_violation write_failed : StreamWriteError

pub data GatewayError : Type 0 where
  gateway_missing : GatewayError
  gateway_failed : String → GatewayError

pub record CreateStreamInput : Type 0 where
  pub name : List ℕ
  pub namespace : String
  pub gateway_template_id : ℕ
  pub ports : List StreamPort

pub record UpdateStreamInput : Type 0 where
  pub name : Option (List ℕ)
  pub ports : Option (List StreamPort)

-- `StreamService` and what it calls; a failed read without a kind of its own is `none`. `deployable`
-- is whether the registered namespace has the capability, `failure` renders an error, `cancelled`
-- is that of the context.
pub record StreamService : Type 1 where
  pub World : Type 0
  pub to_upper : String → String
  pub matches : List ℕ → Bool
  pub lower_runes : List ℕ → List ℕ
  pub failure : GatewayError → String
  pub capabilities : Option (ℕ → World → Bool)
  pub get_template : ℕ → World → Result DbError DomainTemplate
  pub deployable : ℕ → String → World → Result DbError Bool
  pub create_row : Stream → Exec StreamWriteError World Stream
  pub get_row : ℕ → World → Result DbError Stream
  pub list_all : World → Option (List Stream)
  pub exists_by_name : ℕ → List ℕ → World → Option Bool
  pub update_row : Stream → Exec StreamWriteError World (Unit {0})
  pub update_status : ℕ → String → String → Exec StreamWriteError World (Unit {0})
  pub delete_row : ℕ → Exec StreamWriteError World (Unit {0})
  pub count_by_stream_id : ℕ → World → Option ℕ
  pub delete_gateway : ℕ → String → List ℕ → Exec GatewayError World (Unit {0})
  pub update_gateway : Stream → Exec GatewayError World (Unit {0})
  pub port_store : World → Option StreamPortStore
  pub domain_ports : World → Option Reader
  pub cancelled : World → Bool

abbrev fast_gateway_namespace : String
fast_gateway_namespace = "fastgateway-system"

module _ (service : StreamService) where
  open service use {
    World, to_upper, matches, lower_runes, failure, capabilities, get_template, deployable,
    create_row, get_row, list_all, exists_by_name, update_row, update_status, delete_row,
    count_by_stream_id, delete_gateway, update_gateway, port_store, domain_ports, cancelled,
  }

  abbrev pub Action : Type 0 → Type 0
  Action A = Exec StreamError World A

  -- `mapStreamWriteError`
  abbrev pub map_stream_write_error : StreamWriteError → StreamError
  map_stream_write_error unique_violation = stream_name_taken
  map_stream_write_error write_failed = store_failed

  abbrev pub failed_as :
      {E A : Type 0} → (E → StreamError) → Result E A × World → Result StreamError A × World
  failed_as f (ok a, w) = (ok a, w)
  failed_as f (err e, w) = (err (f e), w)

  -- An absent Gateway counts as deleted.
  abbrev pub or_missing :
      Result GatewayError (Unit {0}) × World → Result GatewayError (Unit {0}) × World
  or_missing (ok a, w) = (ok a, w)
  or_missing (err gateway_missing, w) = (ok tt, w)
  or_missing (err (gateway_failed m), w) = (err (gateway_failed m), w)

  abbrev pub gateway_call : Stream → World → Result GatewayError (Unit {0}) × World
  gateway_call s w =
      if is_nil s.ports
      then or_missing (delete_gateway s.project_id s.namespace s.k8s_gateway_name w)
      else update_gateway s w

  abbrev pub with_status : String → String → Stream → Stream
  with_status status message s = record s { status = status; status_message = message }

  -- The status is set in memory and then written, an error's failed write being joined to it.
  abbrev pub status_recorded :
      Stream
      → Result GatewayError (Unit {0}) × World
      → Result StreamError (Unit {0}) × Stream × World
  status_recorded s (err e, w) = (
    err apply_failed,
    with_status "error" (failure e) s,
    (update_status s.id "error" (failure e) w).1,
  )
  status_recorded s (ok a, w) =
      let message =
        if is_nil s.ports
        then "No ports claimed; no Gateway deployed"
        else "Gateway applied successfully" in
      let (res, w') = failed_as (λ e. store_failed) (update_status s.id "active" message w) in
      (res, with_status "active" message s, w')

  unfoldable pub apply_gateway : Stream → World → Result StreamError (Unit {0}) × Stream × World
  apply_gateway s w = status_recorded s (gateway_call s w)

  -- A failed apply is logged only; the stream carries its status.
  abbrev pub logged :
      Result StreamError (Unit {0}) × Stream × World → Result StreamError Stream × World
  logged (res, s, w) = (ok s, w)

  abbrev pub apply_logged : Stream → Action Stream
  apply_logged s w = logged (apply_gateway s w)

  abbrev pub template_found : Result DbError DomainTemplate → Result StreamError DomainTemplate
  template_found (ok t) = ok t
  template_found (err record_not_found) = err stream_template_not_found
  template_found (err other_failure) = err store_failed

  abbrev pub namespace_found : Result DbError Bool → Result StreamError (Unit {0})
  namespace_found (ok true) = ok tt
  namespace_found (ok false) = err namespace_not_deployable
  namespace_found (err record_not_found) = err namespace_not_registered
  namespace_found (err other_failure) = err store_failed

  abbrev pub port_checked : {A : Type 0} → Result PortError A → Result StreamError A
  port_checked (ok a) = ok a
  port_checked (err e) = err (port_refused e)

  abbrev pub unsupported : ℕ → World → Bool
  unsupported project w = elim capabilities [ none ↦ false | some has ↦ not (has project w) ]

  abbrev pub name_free : ℕ → List ℕ → Action (Unit {0})
  name_free project name w =
      (or_fail (exists_by_name project name w) store_failed >>= λ taken.
      fail_if taken stream_name_taken)
        w

  abbrev pub claims_of :
      DomainTemplate → Option ℕ → List StreamPort → World → Result StreamError (List StreamPort)
  claims_of tmpl self_id ports w = port_checked (
      validate_stream_ports to_upper (λ i. get_row i w) (port_store w) (domain_ports w) tmpl self_id
        ports)

  abbrev pub new_stream :
      ℕ → CreateStreamInput → DomainTemplate → List StreamPort → Option User → Stream
  new_stream project input tmpl ports user = record {
    id = 0;
    project_id = project;
    name = input.name;
    namespace = input.namespace;
    gateway_template_id = input.gateway_template_id;
    k8s_gateway_name = stream_gateway_name matches lower_runes input.name;
    k8s_gateway_class = tmpl.k8s_gateway_class_name;
    status = "";
    status_message = "";
    created_by = elim user [ none ↦ none | some u ↦ some u.id ];
    ports = ports;
  }

  abbrev pub is_none : {A : Type 0} → Option A → Bool
  is_none none = true
  is_none (some a) = false

  unfoldable pub create : ℕ → CreateStreamInput → Option User → Action Stream
  create project input user = do
    (λ w. fail_if (unsupported project w) streams_unsupported w)
    tmpl ← read (λ w. template_found (get_template input.gateway_template_id w))
    fail_if (not (tmpl.project_id == project)) template_wrong_project
    fail_if (is_none (stream_range tmpl.listeners)) template_not_stream_enabled
    (if str_eq input.namespace fast_gateway_namespace
        then pure tt
        else read (λ w. namespace_found (deployable project input.namespace w)))
    name_free project input.name
    ports ← read (claims_of tmpl none input.ports)
    stream ← λ w.
        failed_as map_stream_write_error (create_row (new_stream project input tmpl ports user) w)
    apply_logged stream

  abbrev pub template_loaded : Result DbError DomainTemplate → Result StreamError DomainTemplate
  template_loaded (ok t) = ok t
  template_loaded (err e) = err store_failed

  -- The new name, if it is another one and free.
  unfoldable pub rename : Option (List ℕ) → Stream → Action Stream
  rename none s = pure s
  rename (some name) s =
      if same_bytes name s.name
      then pure s
      else (name_free s.project_id name >> pure (record s { name = name }))

  unfoldable pub claim : Option (List StreamPort) → Stream → Action Stream
  claim none s = pure s
  claim (some ports) s = do
    tmpl ← read (λ w. template_loaded (get_template s.gateway_template_id w))
    claims ← read (claims_of tmpl (some s.id) ports)
    read (λ w. port_checked (
        check_used_claims_kept to_upper (λ i. get_row i w) (port_store w) (domain_ports w) s
          claims))
    pure (record s { ports = claims })

  abbrev pub apply_claims : Option (List StreamPort) → Stream → Action Stream
  apply_claims none s = pure s
  apply_claims (some ports) s = apply_logged s

  unfoldable pub update : ℕ → UpdateStreamInput → Action Stream
  update id input = do
    old ← read (λ w.
        port_checked
          (stream_found to_upper (λ i. get_row i w) (port_store w) (domain_ports w) (get_row id w)))
    named ← rename input.name old
    claimed ← claim input.ports named
    (λ w. failed_as map_stream_write_error (update_row claimed w))
    apply_claims input.ports claimed

  -- `Delete`: the Gateway goes first, its failure being logged only.
  unfoldable pub delete : ℕ → Action (Unit {0})
  delete id = do
    s ← read (λ w.
        port_checked
          (stream_found to_upper (λ i. get_row i w) (port_store w) (domain_ports w) (get_row id w)))
    n ← λ w. or_fail (count_by_stream_id id w) store_failed w
    fail_if (ltb 0 n) stream_has_routes
    best_effort (λ w.
        failed_as (λ e. apply_failed)
          (delete_gateway s.project_id s.namespace s.k8s_gateway_name w))
    (λ w. failed_as map_stream_write_error (delete_row id w))

  abbrev pub reapply : Result DbError Stream → World → World
  reapply (ok s) w = let (res, s', w') = apply_gateway s w in w'
  reapply (err e) w = w

  -- The loop of `ReconcileGateways` over the listed streams; `false` is a cancelled context.
  unfoldable pub reconcile : List Stream → World → Bool × World
  reconcile [] w = (not (cancelled w), w)
  reconcile (s ∷ ss) w =
      let rest = reconcile ss (reapply (get_row s.id w) w) in
      if cancelled w then (false, w) else rest

  unfoldable pub reconcile_gateways : World → Result StreamError Bool × World
  reconcile_gateways w = elim (list_all w) [
    | none ↦ (err store_failed, w)
    | some listed ↦ let (finished, w') = reconcile listed w in (ok finished, w')
  ]
