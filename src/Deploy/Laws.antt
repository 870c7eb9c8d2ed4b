-- ===== src/Deploy/Laws.antt =====
-- What the theorems on deploys rely on of the repositories.
use backend_v.Base.{ok, ℕ, ◌≡◌}
use backend_v.Approval.Model.{Approval}
use backend_v.Deploy.Model.{RouteDeploy}
use backend_v.Route.Status.{RouteStatus, Route}

module _ (deployer : RouteDeploy) where
  open deployer use {
    service, Cluster, latest_approved, get_domain, get_stream, listener_port, create_version,
    delete_approvals, run,
  }
  open service use {Config, ports, tables, text, checks}
  open ports use {World, get_project}
  open tables use {get_route, update_route}

  -- What the deploy relies on of the repositories.
  pub record DeployLaws : Type 0 where
    pub updated :
        (r : Route Config) (w : World)
        → (update_route r w).0 ≡ ok tt
        → get_route r.id (update_route r w).1 ≡ ok r
    pub keyed : (id : ℕ) (w : World) (r : Route Config) → get_route id w ≡ ok r → r.id ≡ id
    pub version-routes :
        (r : Route Config) (a : Approval) (user : ℕ) (w : World) (id : ℕ)
        → get_route id (create_version r a user w).1 ≡ get_route id w
    pub update-approvals :
        (r : Route Config) (w : World) (id : ℕ)
        → latest_approved id (update_route r w).1 ≡ latest_approved id w

  -- The route is answered as it is stored: active.
  abbrev pub IsLive : ℕ → Route Config → World → Type 0
  IsLive id shown w = (shown.status ≡ RouteStatus.active) × (get_route id w ≡ ok shown)
