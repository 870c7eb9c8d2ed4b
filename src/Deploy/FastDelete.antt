-- ===== src/Deploy/FastDelete.antt =====
-- That a deletion without approvals is not carried out by the deploy.
use backend_v.Write.Submit.{
  delete, transition, gate, moved, submit_approval, route_store, current, spec_of,
}
use backend_v.Deploy.Service.{deploy}
use backend_v.Base.{
  ok, err, ℕ, ◌≡◌, refl, sym, ap, ◌∙◌, subst, ◌≢◌, ◌⊎◌, inl, inr, Bool, true, false, Option, none,
  some,
}
use backend_v.Base.Exec.{with_step, with_unless}
use backend_v.Deploy.Model.{route_failure, RouteDeploy}
use backend_v.Approval.Traversal.{Spec}
use backend_v.Approval.Model.{ApprovalAction, Project, Approval}
use backend_v.Write.Checks.{route_project_id}
use backend_v.Write.Tables.{approval_failure, route_failure, Written, pending_exists, with_wrapped}
use backend_v.Deploy.Deployed.{deploy-IsLive}
use backend_v.Deploy.Laws.{DeployLaws, IsLive}
use backend_v.Traffic.Checks.{is_some}
use backend_v.Route.Moved.{to_status-ok}
use backend_v.Route.Status.{
  RouteStatus, route_delete_fast_path, Route, route_delete, TransitionSite,
}
use backend_v.Route.Machine.{Outcome, to_status}

module _ (deployer : RouteDeploy) (laws : DeployLaws deployer) where
  open deployer use {service, Cluster, latest_approved}
  open service use {Config, ports, tables, text, checks}
  open ports use {World, get_project}
  open tables use {get_route, update_route}

  -- What a write of the route's status leaves of the approvals.
  transition-approvals :
      (site : TransitionSite) (r s : Route Config) (n : RouteStatus) (w v : World) (id : ℕ)
      → transition service site r n w ≡ (ok s, v)
      → latest_approved id v ≡ latest_approved id w
  unfolding transition
  transition-approvals site r s n w v id h =
      let o = to_status (route_store service) site (some r) n w in
      let (done, same) = moved-ok o h in
      split (to_status-ok (route_store service) site r n w done) same
    where
      moved-ok :
          (o : Outcome (route_store service))
          → moved service r o ≡ (ok s, v)
          → (o.0 ≡ ok tt) × (o.2 ≡ v)
      moved-ok (ok tt, none, u) h = (refl, ap (λ o. o.1) h)
      moved-ok (ok tt, some t, u) h = (refl, ap (λ o. o.1) h)
      moved-ok (err e, m, u) h = absurd (cc (ap (λ o. o.0) h))

      split :
          ((r.status ≡ n) × ((to_status (route_store service) site (some r) n w).2 ≡ w))
            ⊎ (((update_route (record r { status = n }) w).0 ≡ ok tt)
                × ((to_status (route_store service) site (some r) n w).2
                    ≡ (update_route (record r { status = n }) w).1))
          → (to_status (route_store service) site (some r) n w).2 ≡ v
          → latest_approved id v ≡ latest_approved id w
      split (inl (e, f)) g = ap (latest_approved id) (sym g ∙ f)
      split (inr (e, f)) g =
          ap (latest_approved id) (sym g ∙ f) ∙ laws.update-approvals (record r { status = n }) w id

  gate-approvals :
      (on : Bool) (r : Route Config) (spec : Spec) (w v : World)
      (gated : Option Approval × Route Config) (id : ℕ)
      → on ≡ false
      → gate service on route_delete_fast_path RouteStatus.pending_deploy r spec w ≡ (ok gated, v)
      → latest_approved id v ≡ latest_approved id w
  gate-approvals true r spec w v gated id e h = absurd (cc e)
  gate-approvals false r spec w v gated id e h =
      with_step (transition service route_delete_fast_path r RouteStatus.pending_deploy w) _ h
        (λ s f h.
          let w1 = (transition service route_delete_fast_path r RouteStatus.pending_deploy w).1 in
          subst (λ x. latest_approved id x ≡ latest_approved id w) (ap (λ o. o.1) h)
            (transition-approvals route_delete_fast_path r s RouteStatus.pending_deploy w w1 id
              (λ i. (f i, w1))))

  submit-approvals :
      (r : Route Config) (spec : Spec) (w v : World) (gated : Option Approval × Route Config)
      (id : ℕ)
      → ((n : ℕ) (w : World) (p : Project) → get_project n w ≡ ok p → p.approval_enabled ≡ false)
      → submit_approval service route_delete_fast_path RouteStatus.pending_deploy r spec w
        ≡ (ok gated, v)
      → latest_approved id v ≡ latest_approved id w
  unfolding submit_approval
  submit-approvals r spec w v gated id disabled h =
      with_wrapped approval_failure (get_project spec.project_id w, w) _ h
        (λ p e h.
          gate-approvals p.approval_enabled r spec w v gated id (disabled spec.project_id w p e) h)

  -- Without approvals, a delete request leaves the approvals as they were.
  fast_delete-approvals :
      (id user : ℕ) (w v : World) (written : Written Config)
      → ((n : ℕ) (w : World) (p : Project) → get_project n w ≡ ok p → p.approval_enabled ≡ false)
      → delete service id user w ≡ (ok written, v)
      → latest_approved id v ≡ latest_approved id w
  unfolding delete
  fast_delete-approvals id user w v written disabled h =
      with_wrapped route_failure (get_route id w, w) _ h
        (λ r e h. with_unless (is_some (tables.get_pending id w)) pending_exists w _ h (λ h.
          with_step (route_project_id text tables checks r w, w) _ h
            (λ project e h.
              let begun = transition service route_delete r RouteStatus.pending_delete w in
              with_step begun _ h (λ r' e h.
                let first =
                  transition-approvals route_delete r r' RouteStatus.pending_delete w begun.1 id
                    (λ i. (e i, begun.1)) in
                let spec =
                  spec_of service project r'.id ApprovalAction.delete user
                    (current service r' begun.1) none none "" in
                let submitted =
                  submit_approval service route_delete_fast_path RouteStatus.pending_deploy r' spec
                    begun.1 in
                with_step submitted _ h (λ gated e h.
                  subst (λ x. latest_approved id x ≡ latest_approved id w) (ap (λ o. o.1) h)
                    (submit-approvals r' spec begun.1 submitted.1 gated id disabled
                        (λ i. (e i, submitted.1))
                      ∙ first))))))

  -- In projects whose approvals are disabled, a route whose deletion was accepted is not deleted by
  -- the deploy that follows, unless the deletion of an earlier request was approved: the deploy that
  -- succeeds leaves the route stored and active.
  pub deleted_route_lives :
      (id user deployed_by : ℕ) (w v u : World) (k k' : Cluster) (written : Written Config)
      (shown : Route Config)
      → ((n : ℕ) (w : World) (p : Project) → get_project n w ≡ ok p → p.approval_enabled ≡ false)
      → ((a : Approval) → latest_approved id w ≡ some a → a.action ≢ ApprovalAction.delete)
      → delete service id user w ≡ (ok written, v)
      → deploy deployer id deployed_by (v, k) ≡ (ok shown, (u, k'))
      → IsLive deployer id shown u
  deleted_route_lives id user deployed_by w v u k k' written shown disabled n deleted deployed =
      deploy-IsLive deployer laws id deployed_by v u k k' shown
        (λ a e. n a (sym (fast_delete-approvals id user w v written disabled deleted) ∙ e)) deployed
