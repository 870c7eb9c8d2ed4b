-- ===== src/Deploy/Deployed.antt =====
-- What a deploy that succeeds leaves behind.
use backend_v.Base.{
  ok, err, ℕ, ◌≡◌, refl, ap, none, some, if◌then◌else◌, ok_inj, Result, sym, ◌∙◌, subst, ◌≢◌, Bool,
  true, false, not, Option,
}
use backend_v.Approval.Model.{Approval, ApprovalAction}
use backend_v.Deploy.Service.{synthetic_update, is_deployable, choose_approval, deploy}
use backend_v.Deploy.Model.{RouteDeploy, no_approved_request, not_deployable}
use backend_v.Route.Status.{RouteStatus, Route, status_eq, TransitionSite}
use backend_v.Route.Machine.{RouteError}
use backend_v.Deploy.Steps.{stored}
use backend_v.Base.Exec.{fail, pure, unless-passed, with_unless, with_step}
use backend_v.Route.Legal.{Legal, first_deploy, next_deploy}
use backend_v.Deploy.Finished.{deploy_approved-Finished}
use backend_v.Deploy.Laws.{IsLive, DeployLaws}

module _ (deployer : RouteDeploy) (laws : DeployLaws deployer) where
  open deployer use {
    service, Cluster, latest_approved, get_domain, get_stream, listener_port, create_version,
    delete_approvals, run,
  }
  open service use {Config, ports, tables, text, checks}
  open ports use {World, get_project}
  open tables use {get_route, update_route}

  deployable-Legal :
      (s : RouteStatus)
      → not (is_deployable deployer s) ≡ false
      → Legal TransitionSite.deploy s RouteStatus.active
  deployable-Legal RouteStatus.approved h = first_deploy
  deployable-Legal RouteStatus.pending_deploy h = next_deploy
  deployable-Legal _ h = absurd (cc h)

  chosen-action :
      (o : Option Approval) (s : RouteStatus) (w : World) (k : Cluster) (a : Approval)
      → (choose_approval deployer o s (w, k)).0 ≡ ok a
      → ((b : Approval) → o ≡ some b → b.action ≢ ApprovalAction.delete)
      → a.action ≢ ApprovalAction.delete
  chosen-action (some b) s w k a h n = λ e. n b refl (ap (λ x. x.action) (ok_inj h) ∙ e)
  chosen-action none s w k a h n = split (status_eq s RouteStatus.pending_deploy) h
    where
      split :
          (b : Bool)
          → ((if b then pure {W = World × Cluster} synthetic_update else fail no_approved_request)
              (w, k)).0
            ≡ ok a
          → a.action ≢ ApprovalAction.delete
      split true h = λ e. cc (ap (λ x. x.action) (ok_inj h), e)
      split false h = absurd (cc h)

  stored-ok :
      {A : Type 0} (k : Cluster) (o : Result RouteError A) (w : World) (a : A)
      → (stored deployer k (o, w)).0 ≡ ok a
      → (o ≡ ok a) × ((stored deployer k (o, w)).1 ≡ (w, k))
  stored-ok k (ok b) w a h = (ap ok (ok_inj h), refl)
  stored-ok k (err e) w a h = absurd (cc h)

  -- A deploy that succeeds, the latest approved approval not being a deletion, ends with the route
  -- stored as active and answered so.
  pub deploy-IsLive :
      (id user : ℕ) (w v : World) (k k' : Cluster) (shown : Route Config)
      → ((a : Approval) → latest_approved id w ≡ some a → a.action ≢ ApprovalAction.delete)
      → deploy deployer id user (w, k) ≡ (ok shown, (v, k'))
      → IsLive deployer id shown v
  unfolding deploy
  deploy-IsLive id user w v k k' shown n h =
      with_step (stored deployer k (get_route id w, w)) _ h (λ r e h.
        let (found, same) = stored-ok k (get_route id w) w r e in
        let o = (stored deployer k (get_route id w, w)).1 in
        let deployable =
          unless-passed (not (is_deployable deployer r.status)) not_deployable o _ h in
        with_unless (not (is_deployable deployer r.status)) not_deployable o _ h (λ h.
          with_step (choose_approval deployer (latest_approved id o.0) r.status o) _ h (λ a e h.
            let not_delete =
              chosen-action (latest_approved id o.0) r.status o.0 o.1 a e
                (λ b f. n b (ap (λ x. latest_approved id x.0) (sym same) ∙ f)) in
            let rest = (choose_approval deployer (latest_approved id o.0) r.status o).1 in
            let live =
              deploy_approved-Finished deployer laws r a user rest.0 rest.1
                (deployable-Legal r.status deployable) not_delete shown v k' h in
            subst (λ i. IsLive deployer i shown v) (laws.keyed id w r found) live)))
