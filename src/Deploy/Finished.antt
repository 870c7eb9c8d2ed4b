-- ===== src/Deploy/Finished.antt =====
-- What the parts of a deploy leave behind when they return.
use backend_v.Base.{
  ok, err, ℕ, ◌≡◌, refl, ap, none, some, if◌then◌else◌, ok_inj, Result, sym, ◌∙◌, subst, ◌≢◌, Bool,
  true, false, not, List,
}
use backend_v.Approval.Model.{Approval, ApprovalAction}
use backend_v.Write.Submit.{route_store}
use backend_v.Deploy.Service.{
  as_moved, apply_claimed, finish_deploy, is_claimed, apply_l4_route,
  update_client_attachment_statuses, deploy_l4, to_active, grants, deploy_http, deploy_approved,
  need,
}
use backend_v.Deploy.Model.{
  RouteDeploy, nil_domain, port_not_claimed, stream_not_found, domain_not_found, no_stream,
  DeployError, apply_backend_traffic_policy, Domain,
}
use backend_v.Route.Status.{RouteStatus, Route, TransitionSite}
use backend_v.Route.Machine.{Outcome, RouteError}
use backend_v.Deploy.Steps.{stored, call, Step, update_steps, run_steps, create_steps}
use backend_v.Base.Exec.{◌>>◌, ◌>>=◌, fail_if, continue, Exec}
use backend_v.Stream.Model.{Stream}
use backend_v.Write.Checks.{is_l4}
use backend_v.Route.Lifecycle.{to_status-Legal}
use backend_v.Route.Legal.{Legal}
use backend_v.Deploy.Laws.{IsLive, DeployLaws}

module _ (deployer : RouteDeploy) (laws : DeployLaws deployer) where
  open deployer use {
    service, Cluster, latest_approved, get_domain, get_stream, listener_port, create_version,
    delete_approvals, run,
  }
  open service use {Config, ports, tables, text, checks}
  open ports use {World, get_project}
  open tables use {get_route, update_route}

  as_moved-ok :
      (k : Cluster) (r : Route Config) (o : Outcome (route_store service)) (shown : Route Config)
      (w : World) (k' : Cluster)
      → as_moved deployer k r o ≡ (ok shown, (w, k'))
      → (o.0 ≡ ok tt) × (o.2 ≡ w)
  as_moved-ok k r (ok tt, none, v) shown w k' h = (refl, ap (λ o. o.1.0) h)
  as_moved-ok k r (ok tt, some s, v) shown w k' h = (refl, ap (λ o. o.1.0) h)
  as_moved-ok k r (err e, m, v) shown w k' h = absurd (cc (ap (λ o. o.0) h))

  stored-world :
      {A : Type 0} (k : Cluster) (o : Result RouteError A × World) → (stored deployer k o).1.0 ≡ o.1
  stored-world k (ok a, w) = refl
  stored-world k (err e, w) = refl

  -- The end of a deploy, which returned.
  abbrev pub Finished :
      Route Config → Result DeployError (Route Config) × (World × Cluster) → Type 0
  Finished r o =
      (shown : Route Config) (w : World) (k : Cluster)
      → o ≡ (ok shown, (w, k))
      → IsLive deployer r.id shown w

  finish_deploy-Finished :
      (r : Route Config) (a : Approval) (user : ℕ) (w : World) (k : Cluster)
      → Legal TransitionSite.deploy r.status RouteStatus.active
      → Finished r (finish_deploy deployer r a user (w, k))
  unfolding finish_deploy to_active
  finish_deploy-Finished r a user w k legal shown w' k' h = split (update_route live w) refl (
      subst (λ o. continue (as_moved deployer k r o) after ≡ (ok shown, (w', k')))
        (to_status-Legal (route_store service) TransitionSite.deploy r RouteStatus.active w legal)
        h)
    where
      live : Route Config
      live = record r { status = RouteStatus.active }

      after : Route Config → Exec DeployError (World × Cluster) (Route Config)
      after r' o = (ok r', (stored deployer o.1 (create_version r' a user o.0)).1)

      split :
          (u : Result RouteError (Unit {0}) × World)
          → update_route live w ≡ u
          → continue (as_moved deployer k r (u.0, some live, u.1)) after ≡ (ok shown, (w', k'))
          → IsLive deployer r.id shown w'
      split (ok tt, v) f h =
          let same : live ≡ shown = ok_inj (ap (λ o. o.0) h) in
          let world : (create_version live a user v).1 ≡ w' =
            sym (stored-world k (create_version live a user v)) ∙ ap (λ o. o.1.0) h in
          let kept = laws.version-routes live a user v r.id in
          let written =
            subst (λ x. get_route r.id x ≡ ok live) (ap (λ x. x.1) f)
              (laws.updated live w (ap (λ x. x.0) f)) in
          (
            sym (ap (λ x. x.status) same),
            subst (λ x. get_route r.id w' ≡ ok x) same
                (subst (λ x. get_route r.id x ≡ ok live) world (kept ∙ written)),
          )
      split (err e, v) f h = absurd (cc (ap (λ o. o.0) h))

  -- What follows a step.
  continue-Finished :
      {A : Type 0} (r : Route Config) (o : Result DeployError A × (World × Cluster))
      (f : A → Exec DeployError (World × Cluster) (Route Config))
      → ((a : A) (w : World) (k : Cluster) → o.0 ≡ ok a → Finished r (f a (w, k)))
      → Finished r (continue o f)
  continue-Finished r (ok a, (w, k)) f h = h a w k refl
  continue-Finished r (err e, o) f h = λ shown w k g. absurd (cc (ap (λ o. o.0) g))

  stepped-Finished :
      (r : Route Config) (a : Approval) (user : ℕ) (steps : List (Step Config)) (w : World)
      (k : Cluster)
      → Legal TransitionSite.deploy r.status RouteStatus.active
      → Finished r (
          continue (run_steps deployer steps (w, k)) (λ u.
            update_client_attachment_statuses deployer r.id >> finish_deploy deployer r a user))
  stepped-Finished r a user steps w k legal =
      continue-Finished r (run_steps deployer steps (w, k)) _ (λ u w k f.
        continue-Finished r (update_client_attachment_statuses deployer r.id (w, k))
          (λ u. finish_deploy deployer r a user)
          (λ u w k g. finish_deploy-Finished r a user w k legal))

  deploy_http-Finished :
      (act : ApprovalAction) (r : Route Config) (a : Approval) (user : ℕ) (d : Domain) (w : World)
      (k : Cluster)
      → Legal TransitionSite.deploy r.status RouteStatus.active
      → act ≢ ApprovalAction.delete
      → Finished r (deploy_http deployer act r a user d (w, k))
  unfolding deploy_http
  deploy_http-Finished ApprovalAction.create r a user d w k legal n =
      stepped-Finished r a user (create_steps r d) w k legal
  deploy_http-Finished ApprovalAction.update r a user d w k legal n =
      stepped-Finished r a user (update_steps r d) w k legal
  deploy_http-Finished ApprovalAction.delete r a user d w k legal n = absurd (n refl)
  deploy_http-Finished _ r a user d w k legal n = finish_deploy-Finished r a user w k legal

  apply_claimed-Finished :
      (r : Route Config) (a : Approval) (user : ℕ) (s : Stream) (create : Bool) (w : World)
      (k : Cluster)
      → Legal TransitionSite.deploy r.status RouteStatus.active
      → Finished r (apply_claimed deployer r a user s create (w, k))
  apply_claimed-Finished r a user s create w k legal =
      continue-Finished r (fail_if (not (is_claimed deployer r s)) port_not_claimed (w, k)) _
        (λ u w k f. continue-Finished r (apply_l4_route deployer r s create (w, k)) _ (λ u w k f.
          continue-Finished r (call deployer (apply_backend_traffic_policy r s) (w, k)) _
            (λ u w k f. finish_deploy-Finished r a user w k legal)))

  deploy_l4-Finished :
      (act : ApprovalAction) (r : Route Config) (a : Approval) (user : ℕ) (s : Stream) (w : World)
      (k : Cluster)
      → Legal TransitionSite.deploy r.status RouteStatus.active
      → act ≢ ApprovalAction.delete
      → Finished r (deploy_l4 deployer act r a user s (w, k))
  unfolding deploy_l4
  deploy_l4-Finished ApprovalAction.create r a user s w k legal n =
      apply_claimed-Finished r a user s true w k legal
  deploy_l4-Finished ApprovalAction.update r a user s w k legal n =
      apply_claimed-Finished r a user s false w k legal
  deploy_l4-Finished ApprovalAction.delete r a user s w k legal n = absurd (n refl)
  deploy_l4-Finished _ r a user s w k legal n = λ shown w k g. absurd (cc (ap (λ o. o.0) g))

  pub deploy_approved-Finished :
      (r : Route Config) (a : Approval) (user : ℕ) (w : World) (k : Cluster)
      → Legal TransitionSite.deploy r.status RouteStatus.active
      → a.action ≢ ApprovalAction.delete
      → Finished r (deploy_approved deployer r user a (w, k))
  unfolding deploy_approved
  deploy_approved-Finished r a user w k legal n = split (is_l4 r)
    where
      l4 : Exec DeployError (World × Cluster) (Route Config)
      l4 = (λ o. need deployer no_stream r.stream_id o) >>= λ id.
          (λ o. need deployer stream_not_found (get_stream id o.0) o) >>= λ s.
          deploy_l4 deployer a.action r a user s

      l7 : Exec DeployError (World × Cluster) (Route Config)
      l7 = (λ o. need deployer nil_domain r.domain_id o) >>= λ id.
          (λ o. need deployer domain_not_found (get_domain id o.0) o) >>= λ d.
          grants deployer r d >> deploy_http deployer a.action r a user d

      split : (b : Bool) → Finished r ((if b then l4 else l7) (w, k))
      split true = continue-Finished r (need deployer no_stream r.stream_id (w, k)) _ (λ id w k f.
          continue-Finished r (need deployer stream_not_found (get_stream id w) (w, k)) _
            (λ s w k f. deploy_l4-Finished a.action r a user s w k legal n))
      split false = continue-Finished r (need deployer nil_domain r.domain_id (w, k)) _ (λ id w k f.
          continue-Finished r (need deployer domain_not_found (get_domain id w) (w, k)) _
            (λ d w k f.
              continue-Finished r (grants deployer r d (w, k)) _
                (λ u w k f. deploy_http-Finished a.action r a user d w k legal n)))
