-- ===== src/Write/Policies.antt =====
-- The other policies of a route: traffic, extensions and the web application firewall
-- (internal/routeplan/input.go, internal/models/waf_policy.go), and what an L4 route may not carry
-- (internal/services/route_validation.go). A traffic policy's input and its configuration have the
-- same fields, and so have those of the firewall; parts that are only passed on are raw text.
use backend_v.Base.{
  ◌>>◌, if◌then◌else◌, if_set, is_nil, ok, reject_if, String, Bool, not, ◌&&◌, ◌||◌, Option, none,
  some, List, str_eq, err,
}
use backend_v.Base.Int.{pos, outside, ℤ, ltb_ℤ}
use backend_v.Write.Security.{SecurityPolicyInput}
use backend_v.Traffic.Checks.{is_some, Check, Std}
use backend_v.Traffic.Retry.{RetryConfig}
use backend_v.Traffic.RateLimit.{RateLimitConfig}
use backend_v.Traffic.Balance.{LoadBalancerConfig, CircuitBreakerConfig}
use backend_v.Traffic.Health.{HealthCheckConfig}
use backend_v.Traffic.Faults.{ResponseOverrideRule, BtpTimeoutConfig, FaultInjectionConfig}

pub record EnvoyExtensionPolicy : Type 0 where
  pub lua : Option String
  pub wasm : Option String
  pub ext_proc : Option String

unfoldable pub has_extensions : EnvoyExtensionPolicy → Bool
has_extensions e = is_some e.lua || (is_some e.wasm || is_some e.ext_proc)

pub record WafPolicyConfig : Type 0 where
  pub mode : String
  pub rulesets : List String
  pub anomaly_threshold : Option ℤ
  pub paranoia_level : Option ℤ
  pub disabled_rule_ids : List ℤ
  pub custom_directives : List String

unfoldable pub validate_waf : WafPolicyConfig → Check
validate_waf c = do
  reject_if (str_eq c.mode "") "mode is required"
  reject_if (not (str_eq c.mode "block") && not (str_eq c.mode "detect")) "mode must be"
  if_set c.paranoia_level (λ n. reject_if (outside (pos 1) (pos 4) n) "paranoiaLevel must be")
  if_set c.anomaly_threshold (λ n. reject_if (ltb_ℤ n (pos 1)) "anomalyThreshold must be")

-- What of a request's policies reaches its snapshot: policies with content, a valid firewall policy.
abbrev pub with_extension : Option EnvoyExtensionPolicy → Option EnvoyExtensionPolicy
with_extension none = none
with_extension (some e) = if has_extensions e then some e else none

abbrev pub kept_if_ok : Check → WafPolicyConfig → Option WafPolicyConfig
kept_if_ok (ok a) c = some c
kept_if_ok (err e) c = none

abbrev pub with_waf : Option WafPolicyConfig → Option WafPolicyConfig
with_waf none = none
with_waf (some c) = kept_if_ok (validate_waf c) c

module _ (std : Std) where
  -- `BackendTrafficPolicyInput` and `BackendTrafficPolicyConfig`.
  pub record BackendTrafficPolicy : Type 0 where
    pub compression : List String
    pub retry : Option RetryConfig
    pub load_balancer : Option LoadBalancerConfig
    pub circuit_breaker : Option CircuitBreakerConfig
    pub health_check : Option HealthCheckConfig
    pub fault_injection : Option (FaultInjectionConfig std)
    pub rate_limit : Option RateLimitConfig
    pub request_buffer : Option String
    pub response_override : List ResponseOverrideRule
    pub timeout : Option (BtpTimeoutConfig std)

  unfoldable pub has_content : BackendTrafficPolicy → Bool
  has_content p =
      not (is_nil p.compression)
      || (is_some p.retry
          || (is_some p.load_balancer
              || (is_some p.circuit_breaker
                  || (is_some p.health_check
                      || (is_some p.fault_injection
                          || (is_some p.rate_limit
                              || (is_some p.request_buffer
                                  || (not (is_nil p.response_override) || is_some p.timeout))))))))

  abbrev pub with_traffic : Option BackendTrafficPolicy → Option BackendTrafficPolicy
  with_traffic none = none
  with_traffic (some p) = if has_content p then some p else none

  -- `l4RejectsField`
  abbrev pub l4_rejects : Bool → String → Check
  l4_rejects there field = reject_if there field

  abbrev pub l4_udp : BackendTrafficPolicy → Check
  l4_udp p = do
    l4_rejects (is_some p.circuit_breaker) "backendTrafficPolicy.circuitBreaker (UDP)"
    l4_rejects (is_some p.health_check) "backendTrafficPolicy.healthCheck (UDP)"
    l4_rejects (is_some p.timeout) "backendTrafficPolicy.timeout (UDP)"

  abbrev pub request_counters : CircuitBreakerConfig → Check
  request_counters cb = do
    l4_rejects (is_some cb.max_pending_requests) "circuitBreaker.maxPendingRequests"
    l4_rejects (is_some cb.max_parallel_requests) "circuitBreaker.maxParallelRequests"
    l4_rejects (is_some cb.max_parallel_retries) "circuitBreaker.maxParallelRetries"

  abbrev pub l4_tcp : BackendTrafficPolicy → Check
  l4_tcp p = do
    if_set p.circuit_breaker request_counters
    if_set p.health_check
        (λ hc. if_set hc.active (λ a. l4_rejects (not (str_eq a.type "TCP")) "healthCheck.active"))
    if_set p.timeout (λ t. l4_rejects (is_some t.http) "backendTrafficPolicy.timeout.http")

  unfoldable pub validate_l4_backend_traffic_policy : Option BackendTrafficPolicy → String → Check
  validate_l4_backend_traffic_policy none protocol = ok tt
  validate_l4_backend_traffic_policy (some p) protocol = do
    l4_rejects (is_some p.rate_limit) "backendTrafficPolicy.rateLimit"
    l4_rejects (is_some p.retry) "backendTrafficPolicy.retry"
    l4_rejects (not (is_nil p.compression)) "backendTrafficPolicy.compression"
    l4_rejects (is_some p.fault_injection) "backendTrafficPolicy.faultInjection"
    l4_rejects (is_some p.request_buffer) "backendTrafficPolicy.requestBuffer"
    l4_rejects (not (is_nil p.response_override)) "backendTrafficPolicy.responseOverride"
    if str_eq protocol "udp" then l4_udp p else l4_tcp p

  unfoldable pub validate_l4_policy_inputs :
      String
      → String
      → Option SecurityPolicyInput
      → Option EnvoyExtensionPolicy
      → Option WafPolicyConfig
      → Option BackendTrafficPolicy
      → Check
  validate_l4_policy_inputs protocol mode sp ext waf btp = do
    l4_rejects (not (str_eq mode "") && not (str_eq mode "general")) "securityMode"
    l4_rejects (is_some sp) "securityPolicy"
    if_set ext (λ e. l4_rejects (has_extensions e) "extensionPolicy")
    l4_rejects (is_some waf) "wafPolicy"
    validate_l4_backend_traffic_policy btp protocol
