-- ===== src/Config/Model.antt =====
-- The configuration of a route (internal/models/route.go), which is stored as JSON.
use backend_v.Base.{
  ◌>>◌, ltb, if◌then◌else◌, if_set, is_nil, each, any, length, ok, reject_if, ℕ, String, Bool, true,
  false, not, ◌&&◌, Option, List, str_eq,
}
use backend_v.Base.Int.{outside, pos, ℤ}
use backend_v.Write.Security.{SecretRef}
use backend_v.Traffic.Checks.{is_some, Check}

pub record PathMatch : Type 0 where
  pub type : String
  pub value : String

pub record HeaderMatch : Type 0 where
  pub name : String
  pub type : String
  pub value : String

pub record QueryParamMatch : Type 0 where
  pub name : String
  pub type : String
  pub value : String

pub record GrpcMethodMatch : Type 0 where
  pub type : String
  pub value : String

pub record RouteMatch : Type 0 where
  pub path : Option PathMatch
  pub headers : List HeaderMatch
  pub method : String
  pub query_params : List QueryParamMatch
  pub grpc_service : Option GrpcMethodMatch
  pub grpc_method : Option GrpcMethodMatch

pub record CertificateRef : Type 0 where
  pub kind : String
  pub name : String
  pub namespace : String

pub record BackendTlsConfig : Type 0 where
  pub mode : String
  pub insecure_skip_verify : Bool
  pub sni : String
  pub ca_certificate_refs : List CertificateRef
  pub client_certificate_ref : Option SecretRef

pub record RouteBackend : Type 0 where
  pub type : String
  pub service : String
  pub namespace : String
  pub port : ℤ
  pub weight : ℤ
  pub fallback : Bool
  pub address_type : String
  pub address : String
  pub tls : Option BackendTlsConfig

pub record MirrorBackend : Type 0 where
  pub type : String
  pub service : String
  pub namespace : String
  pub port : ℤ

pub record PathRewrite : Type 0 where
  pub type : String
  pub replace_prefix_match : String
  pub replace_full_path : String

pub record UrlRewrite : Type 0 where
  pub hostname : Option String
  pub path : Option PathRewrite

pub record RedirectConfig : Type 0 where
  pub scheme : String
  pub hostname : String
  pub port : Option ℤ
  pub status_code : ℤ
  pub path : Option PathRewrite

-- A body's text is the list of its bytes.
pub record DirectResponseBody : Type 0 where
  pub type : String
  pub inline : List ℕ

pub record DirectResponseConfig : Type 0 where
  pub status_code : ℤ
  pub content_type : String
  pub body : Option DirectResponseBody

pub record HeaderValue : Type 0 where
  pub name : String
  pub value : String

pub record HeaderModifier : Type 0 where
  pub set : List HeaderValue
  pub add : List HeaderValue
  pub remove : List String

pub record RouteConfig : Type 0 where
  pub route_type : String
  pub matches : List RouteMatch
  pub backends : List RouteBackend
  pub mirrors : List MirrorBackend
  pub redirect : Option RedirectConfig
  pub direct_response : Option DirectResponseConfig
  pub request_header_modifier : Option HeaderModifier
  pub response_header_modifier : Option HeaderModifier
  pub url_rewrite : Option UrlRewrite
  pub listener_port : ℤ
  pub default_traffic_policy : String
  pub default_allowed_cidrs : List String

-- `HasFailover`
unfoldable pub has_failover : RouteConfig → Bool
has_failover c = any (λ b. b.fallback) c.backends

unfoldable pub validate_direct_response : DirectResponseConfig → Check
validate_direct_response d = do
  reject_if (outside (pos 100) (pos 599) d.status_code) "statusCode must be between 100 and 599"
  if_set d.body (λ b.
      reject_if (not (str_eq b.type "Inline") && not (str_eq b.type "ValueRef"))
        "body type must be 'Inline' or 'ValueRef'"
      >> reject_if (str_eq b.type "Inline" && ltb 4096 (length b.inline))
          "inline body exceeds maximum size of 4096 bytes")

abbrev pub validate_ca_ref : CertificateRef → Check
validate_ca_ref r = do
  reject_if (not (str_eq r.kind "Secret") && not (str_eq r.kind "ConfigMap"))
      "kind must be 'Secret' or 'ConfigMap'"
  reject_if (str_eq r.name "") "name is required"

abbrev pub ca_refs : Bool → List CertificateRef → Check
ca_refs true refs = reject_if (not (is_nil refs)) "caCertificateRefs must not be set"
ca_refs false refs =
    reject_if (is_nil refs) "caCertificateRefs is required" >> each validate_ca_ref refs

abbrev pub client_ref : String → Option SecretRef → Check
client_ref mode ref =
    if str_eq mode "simple"
    then reject_if (is_some ref) "clientCertificateRef is not allowed in simple mode"
    else if str_eq mode "mtls"
    then (reject_if (not (is_some ref)) "clientCertificateRef is required for mtls mode"
        >> if_set ref (λ r. reject_if (str_eq r.name "") "clientCertificateRef.name is required"))
    else ok tt

-- `BackendTLSConfig.Validate`
unfoldable pub validate_tls : BackendTlsConfig → Check
validate_tls t = do
  reject_if (str_eq t.mode "") "mode is required when tls is configured"
  reject_if (not (str_eq t.mode "simple") && not (str_eq t.mode "mtls"))
      "mode must be 'simple' or 'mtls'"
  ca_refs t.insecure_skip_verify t.ca_certificate_refs
  client_ref t.mode t.client_certificate_ref
