-- ===== src/Traffic/Tests.antt =====
-- The theorems on traffic policies at concrete policies.
-- Two texts are durations, one is an address range; percentages do not occur.
use backend_v.Base.{if◌then◌else◌, Passes, refl, false, none, some, [], ◌∷◌, str_eq}
use backend_v.Base.Int.{pos}
use backend_v.Traffic.Checks.{Std}
use backend_v.Traffic.Retry.{
  interval, validate_per_retry, validate_retry, validate_back_off, RetryConfig, validate_retry_on,
}
use backend_v.Traffic.RateLimit.{
  validate_rule, RateLimitConfig, validate_rules, validate_source_cidr, validate_selector,
  validate_rate_limit,
}
use backend_v.Traffic.Balance.{validate_circuit_breaker, CircuitBreakerConfig}
use backend_v.Traffic.Valid.{
  NotNegative, validate_circuit_breaker_iff, validate_status_code_iff, IsStatusCodeMatch,
}
use backend_v.Traffic.Faults.{validate_status_code, validate_range, StatusCodeMatch}
use backend_v.Traffic.Valid.Rates.{IsRateLimit, validate_rate_limit_iff}
use backend_v.Traffic.Valid.Retries.{IsRetry, validate_retry_iff}
use backend_v.Traffic.Health.{
  HealthCheckConfig, validate_http_check, validate_active, validate_health_check,
}
use backend_v.Traffic.Valid.Healths.{IsHealthCheck, validate_health_check_iff}

abbrev std : Std
std = record {
  parse_duration = λ s.
      if str_eq s "1s"
      then some (pos 1000000000)
      else if str_eq s "9s"
      then some (pos 9000000000)
      else none;
  parse_cidr = λ s. str_eq s "10.0.0.0/8";
  parse_ip = λ s. false;
  size_pattern = λ s. false;
  Float32 = Unit;
  below_zero = λ p. false;
  above_hundred = λ p. false;
}

abbrev breaker : CircuitBreakerConfig
breaker = record {
  max_connections = some (pos 100);
  max_pending_requests = some (pos 0);
  max_parallel_requests = none;
  max_parallel_retries = none;
  max_requests_per_connection = none;
}

breaker-Passes : Passes (validate_circuit_breaker (some breaker))
unfolding validate_circuit_breaker
breaker-Passes = refl

breaker_thresholds :
    NotNegative (some (pos 100))
    × (NotNegative (some (pos 0)) × (NotNegative none × (NotNegative none × NotNegative none)))
breaker_thresholds = (validate_circuit_breaker_iff breaker).0 breaker-Passes

abbrev server_errors : StatusCodeMatch
server_errors = record {
  type = "Range";
  value = none;
  range = some (record { start = pos 500; end = pos 599 });
}

server_errors-Passes : Passes (validate_status_code server_errors)
unfolding validate_status_code validate_range
server_errors-Passes = refl

server_errors_described : IsStatusCodeMatch server_errors
server_errors_described = (validate_status_code_iff server_errors).0 server_errors-Passes

abbrev limit : RateLimitConfig
limit = record {
  global = some (
      (record {
        requests = pos 10;
        unit = "Minute";
        client_selectors =
            (record {
              headers = [];
              source_cidr = some (record { value = "10.0.0.0/8"; type = "Distinct" });
              path = none;
            })
            ∷ [];
      })
      ∷ []);
}

limit-Passes : Passes (validate_rate_limit std (some limit))
unfolding validate_rate_limit validate_rules validate_rule validate_selector validate_source_cidr
limit-Passes = refl

validate_rate_limit_iff_example : IsRateLimit std limit
validate_rate_limit_iff_example = (validate_rate_limit_iff std limit).0 limit-Passes

abbrev retry : RetryConfig
retry = record {
  num_retries = some (pos 3);
  retry_on = some (record { http_status_codes = pos 503 ∷ []; triggers = "reset" ∷ [] });
  per_retry_policy = some (record {
    back_off = some (record { base_interval = some "1s"; max_interval = some "9s" });
    timeout = some "9s";
  });
}

retry-Passes : Passes (validate_retry std (some retry))
unfolding validate_retry validate_retry_on validate_per_retry validate_back_off interval
retry-Passes = refl

validate_retry_iff_example : IsRetry std retry
validate_retry_iff_example = (validate_retry_iff std retry).0 retry-Passes

abbrev health : HealthCheckConfig
health = record {
  active = some (record {
    timeout = some "1s";
    interval = some "9s";
    type = "HTTP";
    http = some (record { path = "/live"; method = some "GET"; expected_statuses = pos 200 ∷ [] });
  });
  passive = none;
}

health-Passes : Passes (validate_health_check std (some health))
unfolding validate_health_check validate_active validate_http_check
health-Passes = refl

health_checked : IsHealthCheck std health
health_checked = (validate_health_check_iff std health).0 health-Passes
