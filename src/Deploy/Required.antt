-- ===== src/Deploy/Required.antt =====
-- That a deploy whose required calls fail leaves the database as it was.
use backend_v.Base.Exec.{Exec}
use backend_v.Base.{Result, err, String, ◌≡◌, List, []}
use backend_v.Approval.Model.{ApprovalAction, Approval}
use backend_v.Deploy.Model.{Domain, RouteDeploy, cluster_failure, DeployError, Call}
use backend_v.Deploy.Steps.{create_steps, delete_steps, Step, update_steps}
use backend_v.Route.Lifecycle.{IsErr}
use backend_v.Route.Status.{Route}

module _ (deployer : RouteDeploy) where
  open deployer use {service, Cluster, latest_approved, get_domain, run}
  open service use {Config, ports, tables}
  open ports use {World}
  open tables use {get_route}

  -- The calls of a deploy of an HTTP or gRPC route, by the approved action.
  abbrev pub steps_of : ApprovalAction → Route Config → Domain → List (Step Config)
  steps_of ApprovalAction.create r d = create_steps r d
  steps_of ApprovalAction.update r d = update_steps r d
  steps_of ApprovalAction.delete r d = delete_steps r d
  steps_of _ r d = []

  abbrev pub AlwaysFails : Call Config → Type 0
  AlwaysFails c = (w : World) (k : Cluster) → IsErr (run c w k).0

  -- The deploy ended with an error of the cluster, and the database is `w`.
  abbrev pub HasFailed : {A : Type 0} → World → Result DeployError A × (World × Cluster) → Type 0
  HasFailed {A} w o = (e : String) × (k : Cluster) × (o ≡ (err (cluster_failure e), (w, k)))
