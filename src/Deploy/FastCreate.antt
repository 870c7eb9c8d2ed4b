-- ===== src/Deploy/FastCreate.antt =====
-- That a route created without approvals cannot be deployed.
use backend_v.Base.{
  ok, err, ℕ, String, ◌≡◌, refl, sym, ap, ◌∙◌, subst, Bool, true, false, Option, none, some, str_eq,
  ok_inj, Result,
}
use backend_v.Base.Exec.{with_step}
use backend_v.Approval.Traversal.{Spec}
use backend_v.Approval.Model.{Project, Approval, ApprovalAction}
use backend_v.Write.Submit.{transition, moved, gate, submit_approval, route_store, spec_of}
use backend_v.Write.Checks.{validate_create}
use backend_v.Traffic.Checks.{is_some}
use backend_v.Write.Tables.{CreateRouteInput, approval_failure, Written, with_wrapped, wrap}
use backend_v.Write.Create.{
  create, new_route, finish_create, first_snapshot, persist_error, valid_labels,
}
use backend_v.Deploy.Model.{RouteDeploy, no_approved_request}
use backend_v.Deploy.Service.{deploy}
use backend_v.Deploy.Laws.{DeployLaws}
use backend_v.Route.Status.{Route, RouteStatus, route_create_fast_path}
use backend_v.Route.Machine.{RouteError}
use backend_v.Route.Lifecycle.{to_status-Legal}
use backend_v.Route.Legal.{Legal, create_now}

module _ (deployer : RouteDeploy) (laws : DeployLaws deployer) where
  open deployer use {service, Cluster, latest_approved}
  open service use {Config, std, text, ports, tables, checks}
  open ports use {World, get_project}
  open tables use {get_route, update_route, create_route}

  abbrev ready : Route Config → Route Config
  ready r = record r { status = RouteStatus.approved }

  -- The route is stored as approved.
  abbrev IsReady : Route Config → Route Config → World → Type 0
  IsReady r s v = (s ≡ ready r) × (get_route r.id v ≡ ok (ready r))

  transition-IsReady :
      (r s : Route Config) (w v : World)
      → r.status ≡ RouteStatus.pending_create
      → transition service route_create_fast_path r RouteStatus.approved w ≡ (ok s, v)
      → IsReady r s v
  unfolding transition
  transition-IsReady r s w v e h = split (update_route (ready r) w) refl (
      subst (λ o. moved service r o ≡ (ok s, v))
        (to_status-Legal (route_store service) route_create_fast_path r RouteStatus.approved w
          (subst (λ x. Legal route_create_fast_path x RouteStatus.approved) (sym e) create_now))
        h)
    where
      split :
          (u : Result RouteError (Unit {0}) × World)
          → update_route (ready r) w ≡ u
          → moved service r (u.0, some (ready r), u.1) ≡ (ok s, v)
          → IsReady r s v
      split (ok tt, x) f h = (
        sym (ok_inj (ap (λ o. o.0) h)),
        subst (λ x. get_route r.id x ≡ ok (ready r)) (ap (λ o. o.1) f ∙ ap (λ o. o.1) h)
            (laws.updated (ready r) w (ap (λ o. o.0) f)),
      )
      split (err x, y) f h = absurd (cc (ap (λ o. o.0) h))

  -- The gate of a creation, in a project without approvals.
  abbrev IsPassed : Route Config → Option Approval × Route Config → World → Type 0
  IsPassed r gated v = (gated.0 ≡ none) × IsReady r gated.1 v

  gate-IsPassed :
      (on : Bool) (r : Route Config) (spec : Spec) (w v : World)
      (gated : Option Approval × Route Config)
      → on ≡ false
      → r.status ≡ RouteStatus.pending_create
      → gate service on route_create_fast_path RouteStatus.approved r spec w ≡ (ok gated, v)
      → IsPassed r gated v
  gate-IsPassed true r spec w v gated e f h = absurd (cc e)
  gate-IsPassed false r spec w v gated e f h =
      with_step (transition service route_create_fast_path r RouteStatus.approved w) _ h (λ s g h.
        let w1 = (transition service route_create_fast_path r RouteStatus.approved w).1 in
        let (same, found) = transition-IsReady r s w w1 f (λ i. (g i, w1)) in
        let answered = ok_inj (ap (λ o. o.0) h) in
        (
          sym (ap (λ g. g.0) answered),
          (
            sym (ap (λ g. g.1) answered) ∙ same,
            subst (λ x. get_route r.id x ≡ ok (ready r)) (ap (λ o. o.1) h) found,
          ),
        ))

  submit-IsPassed :
      (r : Route Config) (spec : Spec) (w v : World) (gated : Option Approval × Route Config)
      → ((n : ℕ) (w : World) (p : Project) → get_project n w ≡ ok p → p.approval_enabled ≡ false)
      → r.status ≡ RouteStatus.pending_create
      → submit_approval service route_create_fast_path RouteStatus.approved r spec w ≡ (ok gated, v)
      → IsPassed r gated v
  unfolding submit_approval
  submit-IsPassed r spec w v gated disabled e h =
      with_wrapped approval_failure (get_project spec.project_id w, w) _ h
        (λ p f h.
          gate-IsPassed p.approval_enabled r spec w v gated (disabled spec.project_id w p f) e h)

  deploy-refuses :
      (id user : ℕ) (r : Route Config) (v : World) (k : Cluster)
      → get_route id v ≡ ok (ready r)
      → latest_approved id v ≡ none
      → deploy deployer id user (v, k) ≡ (err no_approved_request, (v, k))
  unfolding deploy
  deploy-refuses id user r v k found latest = rw (found, latest) refl

  finish_create-none :
      (project : ℕ) (general : Bool) (input : CreateRouteInput Config std) (r : Route Config)
      (gated : Option Approval × Route Config) (w v : World) (written : Written Config)
      → IsPassed r gated w
      → finish_create service project general input gated w ≡ (ok written, v)
      → (written.row ≡ ready r) × (get_route r.id v ≡ ok (ready r))
  finish_create-none project general input r (some a, s) w v written (e, f) h = absurd (cc e)
  finish_create-none project general input r (none, s) w v written (e, (same, found)) h = (
    ap (λ x. x.row) (sym (ok_inj (ap (λ o. o.0) h))) ∙ same,
    subst (λ x. get_route r.id x ≡ ok (ready r)) (ap (λ o. o.1) h) found,
  )

  -- In projects whose approvals are disabled, a route whose creation succeeded is answered as approved,
  -- and as long as it has no approved approval its deploy fails and changes nothing.
  pub created_route_stuck :
      (id user deployed_by : ℕ) (k8s_name : String) (domain project : Option ℕ)
      (input : CreateRouteInput Config std) (w v : World) (k : Cluster) (written : Written Config)
      → ((n : ℕ) (w : World) (p : Project) → get_project n w ≡ ok p → p.approval_enabled ≡ false)
      → create service id k8s_name domain input user project w ≡ (ok written, v)
      → latest_approved id v ≡ none
      → (written.row.status ≡ RouteStatus.approved)
        × (deploy deployer id deployed_by (v, k) ≡ (err no_approved_request, (v, k)))
  unfolding create new_route
  created_route_stuck id user deployed_by k8s_name domain project input w v k written disabled h
        none_yet =
      with_step (validate_create text tables checks domain input project w, w) _ h
        (λ plan e h.
          with_step (valid_labels service input.labels, w) _ h
            (λ u e h.
              let r = new_route service id k8s_name domain input user plan in
              with_step (wrap (persist_error service (is_some input.stream_id)) (create_route r) w)
                _ h
                (λ u e h.
                  let w1 =
                    (wrap (persist_error service (is_some input.stream_id)) (create_route r) w).1 in
                  let general = str_eq plan.security_mode "general" in
                  let spec =
                    spec_of service plan.project_id id ApprovalAction.create user
                      (first_snapshot service general input) none input.ai_review
                      input.change_description in
                  let submitted =
                    submit_approval service route_create_fast_path RouteStatus.approved r spec w1 in
                  with_step submitted _ h (λ gated e h.
                    let passed =
                      submit-IsPassed r spec w1 submitted.1 gated disabled refl
                        (λ i. (e i, submitted.1)) in
                    let (row, found) =
                      finish_create-none plan.project_id general input r gated submitted.1 v written
                        passed h in
                    (ap (λ x. x.status) row, deploy-refuses id deployed_by r v k found none_yet)))))
