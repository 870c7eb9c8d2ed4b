-- ===== src/Deploy/Clients.antt =====
-- The removal of a route's per-client resources (internal/services/route_deploy_clients.go), over the
-- database `W` and the cluster `K`.
use backend_v.Base.{
  if◌then◌else◌, keep_if, Result, ok, err, ℕ, String, Bool, ◌||◌, List, [], ◌∷◌, ◌++◌, map,
}
use backend_v.Base.Exec.{◌>>◌, Exec, pure, best_effort}
use backend_v.Attach.Model.{ClientRouteAttachment}
use backend_v.Route.Status.{Route}
use backend_v.Deploy.Model.{Domain}
use backend_v.Deploy.Names.{
  Name, client_prefix_name, per_client_http_route_name, security_policy_name,
  backend_traffic_policy_name, envoy_extension_policy_name,
}
use backend_v.Deploy.Stale.{
  Kind, ClusterApi, http_routes, grpc_routes, security_policies, backend_traffic_policies,
  envoy_extension_policies, delete_stale_api_key_resources,
}
use backend_v.Deploy.Steps.{is_grpc}

-- The repository's two lists of a route's attachments, the text of a uuid, and the deletions by name
-- of the policy and route appliers.
pub record ClientCluster (W K : Type 0) : Type 0 where
  pub api : ClusterApi K
  pub uuid_text : ℕ → Name
  pub bytes : String → Name
  pub list_active : ℕ → W → Result String (List ClientRouteAttachment)
  pub list_approved : ℕ → W → Result String (List ClientRouteAttachment)
  pub delete_named : Kind → ℕ → String → Name → Exec String K (Unit {0})

-- An error of this list is logged, or dropped.
abbrev pub or_empty : Result String (List ClientRouteAttachment) → List ClientRouteAttachment
or_empty (ok found) = found
or_empty (err e) = []

-- Whether the attachment has a route of its own.
abbrev pub has_own_route : ClientRouteAttachment → Bool
has_own_route a =
    a.credentials.enable_api_key || (a.credentials.enable_jwt || a.credentials.enable_mtls)

module _ {W K : Type 0} (clients : ClientCluster W K) where
  open clients use {uuid_text}

  abbrev pub prefix_of : ClientRouteAttachment → Name
  prefix_of a = client_prefix_name (uuid_text a.client_id)

  abbrev pub expected_client_prefixes : List ClientRouteAttachment → List Name
  expected_client_prefixes found = map prefix_of (keep_if has_own_route found)

module _ {Config W K : Type 0} (clients : ClientCluster W K) where
  open clients use {api, uuid_text, bytes, list_active, list_approved, delete_named}

  abbrev pub cleanup_active :
      Route Config
      → Domain
      → List ClientRouteAttachment
      → Result String (List ClientRouteAttachment)
      → Exec String K (Unit {0})
  cleanup_active r d approved (err e) k = (err e, k)
  cleanup_active r d approved (ok active) k =
      delete_stale_api_key_resources api d.project_id d.namespace r.id (bytes r.k8s_route_name)
        (expected_client_prefixes clients (active ++ approved)) k

  unfoldable pub cleanup_stale : Route Config → Domain → W → Exec String K (Unit {0})
  cleanup_stale r d w = cleanup_active r d (or_empty (list_approved r.id w)) (list_active r.id w)

  unfoldable pub delete_all_per_client_resources : Route Config → Domain → Exec String K (Unit {0})
  delete_all_per_client_resources r d =
      delete_stale_api_key_resources api d.project_id d.namespace r.id (bytes r.k8s_route_name) []

  abbrev pub route_kind : Route Config → Kind
  route_kind r = if is_grpc r then grpc_routes else http_routes

  abbrev pub own_route_name : Route Config → ClientRouteAttachment → Name
  own_route_name r a = per_client_http_route_name (bytes r.k8s_route_name) (uuid_text a.client_id)

  -- Every failure of these is logged.
  unfoldable pub delete_own_route :
      Route Config → Domain → ClientRouteAttachment → Exec String K (Unit {0})
  delete_own_route r d a =
      let name = own_route_name r a in
      do
        best_effort (
            delete_named backend_traffic_policies d.project_id d.namespace
              (backend_traffic_policy_name name))
        best_effort (
            delete_named envoy_extension_policies d.project_id d.namespace
              (envoy_extension_policy_name name))
        best_effort
            (delete_named security_policies d.project_id d.namespace (security_policy_name name))
        best_effort (delete_named (route_kind r) d.project_id d.namespace name)

  unfoldable pub delete_own_routes :
      Route Config → Domain → List ClientRouteAttachment → Exec String K (Unit {0})
  delete_own_routes r d [] = pure tt
  delete_own_routes r d (a ∷ found) =
      (if has_own_route a then delete_own_route r d a else pure tt) >> delete_own_routes r d found

  abbrev pub delete_found :
      Route Config → Domain → List ClientRouteAttachment → Exec String K (Unit {0})
  delete_found r d [] = delete_all_per_client_resources r d
  delete_found r d (a ∷ found) = delete_own_routes r d (a ∷ found)

  unfoldable pub delete_all : Route Config → Domain → W → Exec String K (Unit {0})
  delete_all r d w =
      delete_found r d (or_empty (list_active r.id w) ++ or_empty (list_approved r.id w))
