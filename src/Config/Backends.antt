-- ===== src/Config/Backends.antt =====
-- The checks of a route's backends and mirrors: the `routeQuery` part of
-- internal/services/route_validation.go. `Keys` are the results of fmt.Sprintf.
use backend_v.Base.{
  ◌>>◌, if◌then◌else◌, if_set, is_nil, each, all, ok, reject_if, err, String, Bool, not, ◌&&◌, ◌||◌,
  Option, none, some, List, [], ◌∷◌, str_eq,
}
use backend_v.Base.Int.{pos, ltb_ℤ, ℤ}
use backend_v.Config.Model.{RouteBackend, validate_tls, has_failover, RouteConfig, MirrorBackend}
use backend_v.Traffic.Checks.{one_of, is_some, Check}

pub record Keys : Type 0 where
  -- "%s/%s:%d", "k8s:%s/%s:%d" and "ext:%s:%d"
  pub target_key : String → String → ℤ → String
  pub k8s_key : String → String → ℤ → String
  pub ext_key : String → ℤ → String

abbrev pub is_kubernetes : RouteBackend → Bool
is_kubernetes b = str_eq b.type "kubernetes"

abbrev pub is_external : RouteBackend → Bool
is_external b = str_eq b.type "external"

abbrev pub port_missing : ℤ → Bool
port_missing port = not (ltb_ℤ (pos 0) port)

-- `validateBackendRequiredFields`
abbrev pub backend_fields : RouteBackend → Check
backend_fields b =
    if is_kubernetes b
    then (reject_if (str_eq b.namespace "") "namespace is required for Kubernetes backends"
        >> reject_if (str_eq b.service "") "service is required for Kubernetes backends"
        >> reject_if (port_missing b.port) "port must be greater than 0 for Kubernetes backends"
        >> if_set b.tls validate_tls)
    else if is_external b
    then (reject_if (str_eq b.address "") "address is required for external backends"
        >> reject_if (port_missing b.port) "port must be greater than 0 for external backends"
        >> if_set b.tls validate_tls)
    else ok tt

abbrev pub mirror_fields : MirrorBackend → Check
mirror_fields m = do
  reject_if (str_eq m.namespace "") "namespace is required"
  reject_if (str_eq m.service "") "service is required"
  reject_if (port_missing m.port) "port must be greater than 0"

unfoldable pub validate_backend_required_fields : RouteConfig → Check
validate_backend_required_fields c = each backend_fields c.backends >> each mirror_fields c.mirrors

-- `ExistsByProjectAndNamespace`: `none` when the read fails.
abbrev pub is_managed : Option Bool → Check
is_managed none = err "failed to validate namespace"
is_managed (some found) = reject_if (not found) "namespace is not managed by this project"

abbrev pub namespace_allowed : (String → Option Bool) → String → Check
namespace_allowed managed namespace =
    if str_eq namespace "" || str_eq namespace "fastgateway-system"
    then ok tt
    else is_managed (managed namespace)

unfoldable pub validate_backend_namespaces : (String → Option Bool) → RouteConfig → Check
validate_backend_namespaces managed c = do
  each (λ b. namespace_allowed managed b.namespace) c.backends
  each (λ m. namespace_allowed managed m.namespace) c.mirrors

module _ (keys : Keys) where
  open keys use {target_key, k8s_key, ext_key}

  -- The keys of the map of primary backends.
  unfoldable pub primary_keys : List RouteBackend → List String
  primary_keys [] = []
  primary_keys (b ∷ bs) =
      let rest = primary_keys bs in
      if is_kubernetes b then target_key b.namespace b.service b.port ∷ rest else rest

  unfoldable pub validate_mirror_targets : RouteConfig → Check
  validate_mirror_targets c =
      if is_nil c.mirrors
      then ok tt
      else (reject_if
            (is_nil c.backends && (not (is_some c.redirect) && not (is_some c.direct_response)))
            "routes with mirrors must have at least one primary backend"
          >> each
              (λ m.
                reject_if
                  (one_of (target_key m.namespace m.service m.port) (primary_keys c.backends))
                  "mirror target cannot be the same as a primary backend")
              c.mirrors)

  -- The key of a backend in the map of the failover check, if it has one.
  unfoldable pub failover_key : RouteBackend → Option String
  failover_key b =
      if is_kubernetes b
      then some (k8s_key b.namespace b.service b.port)
      else if is_external b
      then some (ext_key b.address b.port)
      else none

  abbrev pub cons_some : Option String → List String → List String
  cons_some none ks = ks
  cons_some (some k) ks = k ∷ ks

  -- The keys of the primary backends.
  unfoldable pub failover_keys : List RouteBackend → List String
  failover_keys [] = []
  failover_keys (b ∷ bs) =
      let rest = failover_keys bs in if b.fallback then rest else cons_some (failover_key b) rest

  abbrev pub fallback_differs : List String → RouteBackend → Check
  fallback_differs primary b =
      if b.fallback
      then if_set (failover_key b) (λ k.
        reject_if (one_of k primary) "fallback backend cannot be the same as a primary backend")
      else ok tt

  unfoldable pub validate_failover_config : RouteConfig → Check
  validate_failover_config c =
      if not (has_failover c)
      then ok tt
      else (reject_if (all (λ b. b.fallback) c.backends)
            "failover requires at least one primary backend"
          >> reject_if (not (has_failover c)) "failover requires at least one fallback backend"
          >> each (fallback_differs (failover_keys c.backends)) c.backends)
