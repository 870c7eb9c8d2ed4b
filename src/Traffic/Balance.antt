-- ===== src/Traffic/Balance.antt =====
-- `LoadBalancerConfig.Validate` and `CircuitBreakerConfig.Validate`.
use backend_v.Base.{
  ◌>>◌, reject_if, if◌then◌else◌, err, ok, String, Bool, true, not, Option, none, some, [], ◌∷◌,
  str_eq, if_set,
}
use backend_v.Traffic.Checks.{Std, Check, is_some, duration_where, negative, one_of}
use backend_v.Base.Int.{ℤ}

pub record ConsistentHashCookie : Type 0 where
  pub name : String
  pub ttl : Option String

pub record ConsistentHashConfig : Type 0 where
  pub type : String
  pub header : Option String
  pub cookie : Option ConsistentHashCookie

pub record LoadBalancerConfig : Type 0 where
  pub type : String
  pub consistent_hash : Option ConsistentHashConfig

pub record CircuitBreakerConfig : Type 0 where
  pub max_connections : Option ℤ
  pub max_pending_requests : Option ℤ
  pub max_parallel_requests : Option ℤ
  pub max_parallel_retries : Option ℤ
  pub max_requests_per_connection : Option ℤ

module _ (std : Std) where
  unfoldable pub validate_cookie : Option ConsistentHashCookie → Check
  validate_cookie none = err "cookie name is required"
  validate_cookie (some c) = do
    reject_if (str_eq c.name "") "cookie name is required"
    if_set c.ttl (λ s.
        duration_where (std.parse_duration s) negative "invalid cookie TTL"
          "cookie TTL must be non-negative")

  abbrev pub header_missing : Option String → Bool
  header_missing none = true
  header_missing (some name) = str_eq name ""

  unfoldable pub validate_hash : Option ConsistentHashConfig → Check
  unfolding validate_cookie
  validate_hash none = err "consistentHash configuration is required"
  validate_hash (some h) = do
    reject_if (not (one_of h.type ("SourceIP" ∷ "Header" ∷ "Cookie" ∷ [])))
        "invalid consistent hash type"
    if str_eq h.type "Header"
        then reject_if (header_missing h.header) "header name is required"
        else if str_eq h.type "Cookie"
        then validate_cookie h.cookie
        else ok tt

  unfoldable pub validate_load_balancer : Option LoadBalancerConfig → Check
  unfolding validate_hash
  validate_load_balancer none = ok tt
  validate_load_balancer (some lb) = do
    reject_if
        (not (one_of lb.type ("RoundRobin" ∷ "Random" ∷ "LeastRequest" ∷ "ConsistentHash" ∷ [])))
        "invalid load balancer type"
    if str_eq lb.type "ConsistentHash"
        then validate_hash lb.consistent_hash
        else reject_if (is_some lb.consistent_hash) "consistentHash only with ConsistentHash"

abbrev pub not_negative : Option ℤ → String → Check
not_negative o e = if_set o (λ n. reject_if (negative n) e)

unfoldable pub validate_circuit_breaker : Option CircuitBreakerConfig → Check
validate_circuit_breaker none = ok tt
validate_circuit_breaker (some cb) = do
  not_negative cb.max_connections "maxConnections must be >= 0"
  not_negative cb.max_pending_requests "maxPendingRequests must be >= 0"
  not_negative cb.max_parallel_requests "maxParallelRequests must be >= 0"
  not_negative cb.max_parallel_retries "maxParallelRetries must be >= 0"
  not_negative cb.max_requests_per_connection "maxRequestsPerConnection must be >= 0"
