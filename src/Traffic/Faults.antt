-- ===== src/Traffic/Faults.antt =====
-- `FaultInjectionConfig.Validate`, `ResponseOverrideRule.Validate`, `RequestBufferConfig.Validate`
-- and `BTPTimeoutConfig.Validate`.
use backend_v.Base.{
  ◌>>◌, reject_if, if◌then◌else◌, ok, err, String, Bool, not, ◌&&◌, ◌||◌, Option, none, some, List,
  str_eq, each, if_set, is_nil,
}
use backend_v.Traffic.Checks.{Std, Check, is_some, any_duration}
use backend_v.Base.Int.{ltb_ℤ, pos, ℤ, outside}

pub record StatusCodeRange : Type 0 where
  pub start : ℤ
  pub end : ℤ

pub record StatusCodeMatch : Type 0 where
  pub type : String
  pub value : Option ℤ
  pub range : Option StatusCodeRange

-- `value_ref` keeps whether the pointer is set.
pub record ResponseOverrideBody : Type 0 where
  pub type : String
  pub inline : String
  pub value_ref : Bool

pub record ResponseOverrideRule : Type 0 where
  pub status_codes : List StatusCodeMatch
  pub content_type : String
  pub body : ResponseOverrideBody

abbrev pub no_status : ℤ → Bool
no_status n = outside (pos 100) (pos 599) n

unfoldable pub validate_value : Option ℤ → Check
validate_value none = err "value is required when type is Value"
validate_value (some n) = reject_if (no_status n) "value must be between 100-599"

unfoldable pub validate_range : Option StatusCodeRange → Check
validate_range none = err "range is required when type is Range"
validate_range (some r) = do
  reject_if (no_status r.start) "range.start must be between 100-599"
  reject_if (no_status r.end) "range.end must be between 100-599"
  reject_if (ltb_ℤ r.end r.start) "range.start must be <= range.end"

unfoldable pub validate_status_code : StatusCodeMatch → Check
validate_status_code s = do
  reject_if (not (str_eq s.type "Value") && not (str_eq s.type "Range"))
      "type must be 'Value' or 'Range'"
  if str_eq s.type "Value" then validate_value s.value else ok tt
  if str_eq s.type "Range" then validate_range s.range else ok tt

unfoldable pub validate_response_override : ResponseOverrideRule → Check
validate_response_override r = do
  reject_if (is_nil r.status_codes) "match.statusCodes is required"
  each validate_status_code r.status_codes
  reject_if (str_eq r.content_type "") "contentType is required"
  reject_if (str_eq (r.body).type "") "body.type is required"
  reject_if (str_eq (r.body).type "Inline" && str_eq (r.body).inline "") "body.inline is required"
  reject_if (str_eq (r.body).type "ValueRef" && not (r.body).value_ref) "body.valueRef is required"

module _ (std : Std) where
  open std use {Float32, below_zero, above_hundred, size_pattern}

  pub record FaultInjectionDelayConfig : Type 0 where
    pub fixed_delay : String
    pub percentage : Option Float32

  pub record FaultInjectionAbortConfig : Type 0 where
    pub http_status : Option ℤ
    pub grpc_status : Option ℤ
    pub percentage : Option Float32

  pub record FaultInjectionConfig : Type 0 where
    pub delay : Option FaultInjectionDelayConfig
    pub abort : Option FaultInjectionAbortConfig

  abbrev pub percentage_in_range : Option Float32 → Check
  percentage_in_range o =
      if_set o
        (λ p. reject_if (below_zero p || above_hundred p) "percentage must be between 0 and 100")

  unfoldable pub validate_delay : FaultInjectionDelayConfig → Check
  validate_delay d = do
    reject_if (str_eq d.fixed_delay "") "fixedDelay is required"
    any_duration std d.fixed_delay
    percentage_in_range d.percentage

  unfoldable pub validate_abort : FaultInjectionAbortConfig → Check
  validate_abort a = do
    reject_if (not (is_some a.http_status) && not (is_some a.grpc_status))
        "either httpStatus or grpcStatus is required"
    reject_if (is_some a.http_status && is_some a.grpc_status)
        "cannot specify both httpStatus and grpcStatus"
    if_set a.http_status (λ n. reject_if (no_status n) "httpStatus must be between 100 and 599")
    if_set a.grpc_status
        (λ n. reject_if (outside (pos 0) (pos 16) n) "grpcStatus must be between 0 and 16")
    percentage_in_range a.percentage

  unfoldable pub validate_fault_injection : Option FaultInjectionConfig → Check
  validate_fault_injection none = ok tt
  validate_fault_injection (some f) = do
    reject_if (not (is_some f.delay) && not (is_some f.abort))
        "at least one of delay or abort must be configured"
    if_set f.delay validate_delay
    if_set f.abort validate_abort

  unfoldable pub validate_request_buffer : String → Check
  validate_request_buffer limit = do
    reject_if (str_eq limit "") "requestBuffer.limit is required"
    reject_if (not (size_pattern limit)) "requestBuffer.limit must be a valid size"

  -- `if s != "" { parse }`
  abbrev pub duration_or_empty : String → Check
  duration_or_empty s = if str_eq s "" then ok tt else any_duration std s

  pub record BtpHttpTimeoutConfig : Type 0 where
    pub request_timeout : String
    pub connection_idle_timeout : String
    pub max_connection_duration : String
    pub max_stream_duration : String

  -- `tcp` is nil, or its `ConnectTimeout`.
  pub record BtpTimeoutConfig : Type 0 where
    pub tcp : Option String
    pub http : Option BtpHttpTimeoutConfig

  unfoldable pub validate_http_timeout : BtpHttpTimeoutConfig → Check
  validate_http_timeout h = do
    duration_or_empty h.request_timeout
    duration_or_empty h.connection_idle_timeout
    duration_or_empty h.max_connection_duration
    duration_or_empty h.max_stream_duration

  unfoldable pub validate_timeout : Option BtpTimeoutConfig → Check
  validate_timeout none = ok tt
  validate_timeout (some t) = do if_set t.tcp duration_or_empty; if_set t.http validate_http_timeout
