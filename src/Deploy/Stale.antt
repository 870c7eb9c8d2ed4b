-- ===== src/Deploy/Stale.antt =====
-- The removal of per-client resources that no client needs (internal/cluster/cleanup.go). The API of
-- the cluster `K` is a parameter.
use backend_v.Base.{
  if◌then◌else◌, is_nil, any, same_bytes, Result, ok, err, ℕ, String, Bool, not, ◌&&◌, List, [],
  ◌∷◌,
}
use backend_v.Base.Exec.{◌>>◌, ◌>>=◌, Exec, pure, read}
use backend_v.Deploy.Names.{Name, extract_client_prefix, is_per_client_resource}

pub data Kind : Type 0 where
  http_routes grpc_routes security_policies backend_traffic_policies : Kind
  envoy_extension_policies : Kind

-- The answer of a deletion; `not_found` is the error that errors.IsNotFound recognises.
pub data Deletion : Type 0 where
  deleted not_found : Deletion
  failed : String → Deletion

-- A project's client, and its calls by kind, namespace and route label, or name.
pub record ClusterApi (K : Type 0) : Type 0 where
  pub get_client : ℕ → K → Result String (Unit {0})
  pub list : Kind → String → ℕ → K → Result String (List Name)
  pub remove : Kind → String → Name → K → Deletion × K

module _ {K : Type 0} (api : ClusterApi K) where
  open api use {get_client, list, remove}

  abbrev Action : Type 0 → Type 0
  Action A = Exec String K A

  -- Both guards of the loop, which skip base resources and names without a client, and its test.
  unfoldable pub is_stale : Name → List Name → Name → Bool
  is_stale base expected name =
      let client = extract_client_prefix name base in
      is_per_client_resource name && (not (is_nil client) && not (any (same_bytes client) expected))

  abbrev pub deletion_done : Deletion × K → Result String (Unit {0}) × K
  deletion_done (deleted, k) = (ok tt, k)
  deletion_done (not_found, k) = (ok tt, k)
  deletion_done (failed e, k) = (err e, k)

  abbrev pub delete_if_stale : Kind → String → Name → List Name → Name → Action (Unit {0})
  delete_if_stale kind ns base expected name k =
      if is_stale base expected name then deletion_done (remove kind ns name k) else (ok tt, k)

  unfoldable pub delete_each : Kind → String → Name → List Name → List Name → Action (Unit {0})
  delete_each kind ns base expected [] = pure tt
  delete_each kind ns base expected (name ∷ names) =
      delete_if_stale kind ns base expected name >> delete_each kind ns base expected names

  unfoldable pub delete_stale_per_client_resources :
      Kind → String → ℕ → Name → List Name → Action (Unit {0})
  delete_stale_per_client_resources kind ns route base expected = do
    names ← read (list kind ns route)
    delete_each kind ns base expected names

  unfoldable pub delete_stale_api_key_resources :
      ℕ → String → ℕ → Name → List Name → Action (Unit {0})
  delete_stale_api_key_resources project ns route base expected = do
    read (get_client project)
    delete_stale_per_client_resources http_routes ns route base expected
    delete_stale_per_client_resources grpc_routes ns route base expected
    delete_stale_per_client_resources security_policies ns route base expected
    delete_stale_per_client_resources backend_traffic_policies ns route base expected
