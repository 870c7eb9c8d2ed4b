-- ===== src/Deploy/Steps.antt =====
-- The calls of a deploy in their order, each with what its failure does: it ends the deploy, or it is
-- logged.
use backend_v.Base.Exec.{◌>>◌, best_effort, Exec, pure}
use backend_v.Base.{if◌then◌else◌, err, Result, ok, String, Bool, List, [], ◌∷◌, str_eq}
use backend_v.Deploy.Model.{
  route_failure, delete_direct_response, create_http_route, deploy_api_key_clients,
  update_http_route, update_grpc_route, Domain, delete_backends, deploy_security_policy,
  cleanup_stale_backends, Call, deploy_backend_traffic_policy, delete_grpc_route, deploy_backends,
  cleanup_stale_api_key_routes, delete_security_policy, cluster_failure, delete_api_key_routes,
  DeployError, delete_backend_traffic_policy, delete_http_route, deploy_direct_response,
  RouteDeploy, create_grpc_route, delete_envoy_extension_policy, deploy_envoy_extension_policy,
}
use backend_v.Route.Status.{Route}
use backend_v.Route.Machine.{RouteError}

pub data Step (Config : Type 0) : Type 0 where
  must attempt : Call Config → Step Config

module _ {Config : Type 0} where
  abbrev pub is_grpc : Route Config → Bool
  is_grpc r = str_eq r.protocol "grpc"

  abbrev pub client_steps : Route Config → Domain → List (Step Config) → List (Step Config)
  client_steps r d rest =
      if str_eq r.security_mode "client"
      then must (deploy_api_key_clients r d) ∷ attempt (cleanup_stale_api_key_routes r d) ∷ rest
      else rest

  abbrev pub policy_steps : Route Config → Domain → List (Step Config)
  policy_steps r d =
      must (deploy_security_policy r d)
      ∷ client_steps r d
          (must (deploy_backend_traffic_policy r d) ∷ must (deploy_envoy_extension_policy r d) ∷ [])

  unfoldable pub create_steps : Route Config → Domain → List (Step Config)
  create_steps r d =
      must (deploy_backends r d)
      ∷ must (deploy_direct_response r d)
      ∷ must (if is_grpc r then create_grpc_route r d else create_http_route r d)
      ∷ policy_steps r d

  unfoldable pub update_steps : Route Config → Domain → List (Step Config)
  update_steps r d =
      must (deploy_backends r d)
      ∷ attempt (cleanup_stale_backends r d)
      ∷ must (deploy_direct_response r d)
      ∷ must (if is_grpc r then update_grpc_route r d else update_http_route r d)
      ∷ policy_steps r d

  unfoldable pub delete_steps : Route Config → Domain → List (Step Config)
  delete_steps r d =
      attempt (delete_api_key_routes r d)
      ∷ attempt (delete_backend_traffic_policy r d)
      ∷ attempt (delete_envoy_extension_policy r d)
      ∷ attempt (delete_security_policy r d)
      ∷ must (if is_grpc r then delete_grpc_route r d else delete_http_route r d)
      ∷ attempt (delete_direct_response r d)
      ∷ attempt (delete_backends r d)
      ∷ []

module _ (deployer : RouteDeploy) where
  open deployer use {service, Cluster, run}
  open service use {Config, ports}
  open ports use {World}

  abbrev pub Action : Type 0 → Type 0
  Action A = Exec DeployError (World × Cluster) A

  abbrev pub called :
      {A : Type 0} → World → Result String A × Cluster → Result DeployError A × (World × Cluster)
  called w (ok a, k) = (ok a, (w, k))
  called w (err e, k) = (err (cluster_failure e), (w, k))

  abbrev pub call : Call Config → Action (Unit {0})
  call c (w, k) = called w (run c w k)

  abbrev pub stored :
      {A : Type 0}
      → Cluster
      → Result RouteError A × World
      → Result DeployError A × (World × Cluster)
  stored k (ok a, w) = (ok a, (w, k))
  stored k (err e, w) = (err (route_failure e), (w, k))

  abbrev pub in_db : {A : Type 0} → Exec RouteError World A → Action A
  in_db m (w, k) = stored k (m w)

  abbrev pub step : Step Config → Action (Unit {0})
  step (must c) = call c
  step (attempt c) = best_effort (call c)

  unfoldable pub run_steps : List (Step Config) → Action (Unit {0})
  run_steps [] = pure tt
  run_steps (s ∷ steps) = step s >> run_steps steps
