-- ===== src/Write/Submit.antt =====
-- `RouteService.Create`, `Update` and `Delete` up to the answer: internal/services/
-- route_write_service.go and route_write_approval.go. `marshal` is json.Marshal of a snapshot. The
-- generated identifier of a new route and the resource name derived from it are arguments.
use backend_v.Base.Exec.{Exec, pure, read, best_effort, fail_if, ◌>>=◌, ◌>>◌}
use backend_v.Base.{
  if◌then◌else◌, ok, Result, err, ℕ, String, Bool, true, false, ◌||◌, Option, none, some, str_eq,
}
use backend_v.Approval.Traversal.{Spec, submit}
use backend_v.Write.Tables.{
  WriteError, Written, wrap, route_failure, approval_failure, Snapshot, pending_exists,
  UpdateRouteInput, PolicyTable, RouteService,
}
use backend_v.Approval.Model.{ApprovalEntityType, ApprovalAction, Approval}
use backend_v.Write.Security.{with_security}
use backend_v.Write.Checks.{refuse, validate_update, apply_fields, route_project_id}
use backend_v.Write.Policies.{validate_waf, WafPolicyConfig, with_traffic, with_waf, with_extension}
use backend_v.Traffic.Checks.{is_some}
use backend_v.Route.Status.{
  route_update, route_update_fast_path, Route, TransitionSite, status_eq, RouteStatus,
  route_delete_fast_path, route_delete,
}
use backend_v.Route.Machine.{RouteStore, Outcome, to_status}

module _ (service : RouteService) where
  open service use {Config, std, text, ports, tables, checks, key_matches, value_matches, marshal}
  open ports use {World, get_project}
  open tables use {
    get_route, create_route, update_route, delete_route, get_pending, security, traffic, extension,
    waf,
  }

  abbrev pub Action : Type 0 → Type 0
  Action A = Exec WriteError World A

  -- The routes as the state machine sees them.
  abbrev pub route_store : RouteStore Config
  route_store = record {
    World = World;
    get_by_id = get_route;
    update = update_route;
    delete = delete_route;
  }

  -- `w.state.To`: the route goes on as the machine left it in memory.
  abbrev pub moved : Route Config → Outcome route_store → Result WriteError (Route Config) × World
  moved r (ok a, none, w) = (ok r, w)
  moved r (ok a, some r', w) = (ok r', w)
  moved r (err e, m, w) = (err (route_failure e), w)

  unfoldable pub transition : TransitionSite → Route Config → RouteStatus → Action (Route Config)
  transition site r next w = moved r (to_status route_store site (some r) next w)

  -- The write of a route that is already pending_update, whose status does not change.
  abbrev pub rewrite_row : Route Config → Action (Route Config)
  rewrite_row r = wrap route_failure (update_route r) >>= λ _. pure r

  abbrev pub begin_update : Route Config → Action (Route Config)
  begin_update r =
      if status_eq r.status RouteStatus.pending_update
      then rewrite_row r
      else transition route_update r RouteStatus.pending_update

  abbrev pub is_general : String → Bool
  is_general mode = str_eq mode "general" || str_eq mode ""

  unfoldable pub proposed : Bool → UpdateRouteInput Config std → Snapshot Config std
  proposed general input = record {
    route_config = input.config;
    security = with_security text general input.security;
    traffic = with_traffic std input.traffic;
    extension = with_extension input.extension;
    waf = with_waf input.waf;
  }

  -- A route's current policies, for the record of what a change replaces.
  unfoldable pub current : Route Config → World → Snapshot Config std
  current r w = record {
    route_config = r.config;
    security = security.get_by_route_id r.id w;
    traffic = traffic.get_by_route_id r.id w;
    extension = extension.get_by_route_id r.id w;
    waf = waf.get_by_route_id r.id w;
  }

  abbrev pub spec_of :
      ℕ
      → ℕ
      → ApprovalAction
      → ℕ
      → Snapshot Config std
      → Option (Snapshot Config std)
      → Option String
      → String
      → Spec
  spec_of project id action user snapshot previous review why = record {
    project_id = project;
    entity_type = ApprovalEntityType.route;
    entity_id = id;
    action = action;
    submitted_by = user;
    config_snapshot = some (marshal snapshot);
    previous_config = elim previous [ none ↦ none | some p ↦ some (marshal p) ];
    ai_review = review;
    change_description = why;
  }

  -- With approvals, the request is submitted; without, the route moves on at once. The answer has
  -- no approval on that fast path.
  abbrev pub gate :
      Bool
      → TransitionSite
      → RouteStatus
      → Route Config
      → Spec
      → Action (Option Approval × Route Config)
  gate true site next r spec = wrap approval_failure (submit ports spec) >>= λ a. pure (some a, r)
  gate false site next r spec = transition site r next >>= λ r'. pure (none, r')

  unfoldable pub submit_approval :
      TransitionSite → RouteStatus → Route Config → Spec → Action (Option Approval × Route Config)
  submit_approval site next r spec =
      wrap approval_failure (read (get_project spec.project_id)) >>= λ project.
      gate project.approval_enabled site next r spec

  -- Write a policy that is there, or delete it and ignore the outcome.
  abbrev pub put : {C : Type 0} → PolicyTable C World → ℕ → ℕ → Option C → Action (Unit {0})
  put table id project none = best_effort (wrap route_failure (table.delete_by_route_id id))
  put table id project (some c) = wrap route_failure (table.upsert id project c)

  abbrev pub put_waf : ℕ → ℕ → Option WafPolicyConfig → Action (Unit {0})
  put_waf id project none = pure tt
  put_waf id project (some c) =
      read (λ w. refuse (validate_waf c)) >>= λ _. wrap route_failure (waf.upsert id project c)

  unfoldable pub persist_update_policies :
      Route Config → ℕ → UpdateRouteInput Config std → Action (Unit {0})
  persist_update_policies r project input = do
    put security r.id project (with_security text (is_general r.security_mode) input.security)
    put traffic r.id project (with_traffic std input.traffic)
    put extension r.id project (with_extension input.extension)
    put_waf r.id project input.waf

  abbrev pub finish_update :
      ℕ → UpdateRouteInput Config std → Option Approval × Route Config → Action (Written Config)
  finish_update project input (none, r) = pure record { row = r; pending_approval = none }
  finish_update project input (some a, r) = persist_update_policies r project input >>= λ _.
      pure record { row = r; pending_approval = some a }

  -- The pending-approval check; the read's error is dropped.
  abbrev pub no_pending : ℕ → Action (Unit {0})
  no_pending id w = fail_if (is_some (get_pending id w)) pending_exists w

  -- `Update` from the applied fields on; `old` are the policies read before, and the firewall's is
  -- read after the status write.
  unfoldable pub submit_update :
      ℕ
      → UpdateRouteInput Config std
      → ℕ
      → Snapshot Config std
      → Route Config
      → Action (Written Config)
  submit_update project input user old r = do
    r' ← begin_update r
    previous_waf ← λ w. (ok (waf.get_by_route_id r'.id w), w)
    gated ← submit_approval route_update_fast_path RouteStatus.pending_deploy r' (
        spec_of project r'.id ApprovalAction.update user
          (proposed (is_general r'.security_mode) input) (some (record old { waf = previous_waf }))
          input.ai_review input.change_description)
    finish_update project input gated

  unfoldable pub update : ℕ → UpdateRouteInput Config std → ℕ → Action (Written Config)
  update id input user = do
    r ← wrap route_failure (read (get_route id))
    project ← read (validate_update text tables checks id r input)
    no_pending id
    old ← λ w. (ok (current r w), w)
    r' ← read (λ w. apply_fields key_matches value_matches input r)
    submit_update project input user old r'

  unfoldable pub delete : ℕ → ℕ → Action (Written Config)
  delete id user = do
    r ← wrap route_failure (read (get_route id))
    no_pending id
    project ← read (route_project_id text tables checks r)
    r' ← transition route_delete r RouteStatus.pending_delete
    snapshot ← λ w. (ok (current r' w), w)
    gated ←
        submit_approval route_delete_fast_path RouteStatus.pending_deploy r'
          (spec_of project r'.id ApprovalAction.delete user snapshot none none "")
    pure record { row = gated.1; pending_approval = gated.0 }
