-- ===== src/Write/Create.antt =====
-- `RouteService.Create` and `CreateForStream`: a new route, its request and its policies.
use backend_v.Base.Exec.{Exec, pure, read, ◌>>=◌, ◌>>◌}
use backend_v.Write.Tables.{
  port_collision, CreateRouteInput, duplicated_key, Snapshot, route_failure, InsertError,
  insert_failed, WriteError, wrap, PolicyTable, Written, duplicate_row, RouteService,
}
use backend_v.Write.Security.{with_security}
use backend_v.Write.Checks.{CreatePlan, or_kept, validate_labels, refuse, validate_create}
use backend_v.Write.Submit.{submit_approval, spec_of}
use backend_v.Traffic.Checks.{is_some}
use backend_v.Route.Status.{RouteStatus, Route, route_create_fast_path}
use backend_v.Base.{ℕ, String, Bool, true, false, Option, [], ok, Result, none, some, List, str_eq}
use backend_v.Approval.Model.{ApprovalAction, Approval}
use backend_v.Write.Policies.{validate_waf, with_traffic, WafPolicyConfig, with_waf, with_extension}

module _ (service : RouteService) where
  open service use {Config, std, text, ports, tables, checks, key_matches, value_matches, marshal}
  open ports use {World}
  open tables use {create_route, security, traffic, extension, waf}

  abbrev Action : Type 0 → Type 0
  Action A = Exec WriteError World A

  -- The route as it is inserted: `pending_create`, with the defaults filled in.
  unfoldable pub new_route :
      ℕ
      → String
      → Option ℕ
      → CreateRouteInput Config std
      → ℕ
      → CreatePlan text tables checks
      → Route Config
  new_route id k8s_name domain input user plan = record {
    id = id;
    domain_id = domain;
    stream_id = input.stream_id;
    team_id = input.team_id;
    name = input.name;
    description = input.description;
    protocol = plan.protocol;
    security_mode = plan.security_mode;
    k8s_route_name = k8s_name;
    created_by = user;
    labels = or_kept [] input.labels;
    config = input.config;
    status = RouteStatus.pending_create;
  }

  -- `mapL4PersistError`, for a route of a stream.
  abbrev pub persist_error : Bool → InsertError → WriteError
  persist_error true duplicated_key = port_collision
  persist_error false duplicated_key = duplicate_row
  persist_error on_stream (insert_failed e) = route_failure e

  unfoldable pub first_snapshot : Bool → CreateRouteInput Config std → Snapshot Config std
  first_snapshot general input = record {
    route_config = input.config;
    security = with_security text general input.security;
    traffic = with_traffic std input.traffic;
    extension = with_extension input.extension;
    waf = with_waf input.waf;
  }

  -- Insert a policy that is there.
  abbrev pub insert : {C : Type 0} → PolicyTable C World → ℕ → ℕ → Option C → Action (Unit {0})
  insert table id project none = pure tt
  insert table id project (some c) = wrap route_failure (table.create id project c)

  abbrev pub insert_waf : ℕ → ℕ → Option WafPolicyConfig → Action (Unit {0})
  insert_waf id project none = pure tt
  insert_waf id project (some c) =
      read (λ w. refuse (validate_waf c)) >>= λ _. wrap route_failure (waf.create id project c)

  unfoldable pub persist_create_policies :
      ℕ → ℕ → Bool → CreateRouteInput Config std → Action (Unit {0})
  persist_create_policies id project general input = do
    insert security id project (with_security text general input.security)
    insert traffic id project (with_traffic std input.traffic)
    insert extension id project (with_extension input.extension)
    insert_waf id project input.waf

  abbrev pub finish_create :
      ℕ
      → Bool
      → CreateRouteInput Config std
      → Option Approval × Route Config
      → Action (Written Config)
  finish_create project general input (none, r) = pure record { row = r; pending_approval = none }
  finish_create project general input (some a, r) =
      persist_create_policies r.id project general input >>= λ _.
      pure record { row = r; pending_approval = some a }

  abbrev pub valid_labels : Option (List (String × String)) → Result WriteError (Unit {0})
  valid_labels none = ok tt
  valid_labels (some labels) = refuse (validate_labels key_matches value_matches labels)

  unfoldable pub create :
      ℕ → String → Option ℕ → CreateRouteInput Config std → ℕ → Option ℕ → Action (Written Config)
  create id k8s_name domain input user want_project = do
    plan ← read (validate_create text tables checks domain input want_project)
    read (λ w. valid_labels input.labels)
    wrap (persist_error (is_some input.stream_id))
        (create_route (new_route id k8s_name domain input user plan))
    gated ←
        submit_approval service route_create_fast_path RouteStatus.approved
          (new_route id k8s_name domain input user plan)
          (spec_of service plan.project_id id ApprovalAction.create user
            (first_snapshot (str_eq plan.security_mode "general") input) none input.ai_review
            input.change_description)
    finish_create plan.project_id (str_eq plan.security_mode "general") input gated

  -- `CreateForStream`: the stream of the path wins over that of the input.
  unfoldable pub create_for_stream :
      ℕ → ℕ → ℕ → String → CreateRouteInput Config std → ℕ → Action (Written Config)
  create_for_stream project stream id k8s_name input user =
      create id k8s_name none (record input { stream_id = some stream }) user (some project)
