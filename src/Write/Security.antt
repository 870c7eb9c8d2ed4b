-- ===== src/Write/Security.antt =====
-- Security policies of routes: the input of a request and the stored configuration
-- (internal/routeplan/input.go, securitypolicy_features.go, internal/models/security_policy.go), and
-- the checks of a security mode (internal/services/route_validation.go). Parts that are only passed
-- on are raw text. A check's error is the fixed part of its message.
use backend_v.Base.{
  ◌>>◌, if◌then◌else◌, ltb, if_set, each, is_nil, ok, err, reject_if, ℕ, String, Bool, true, false,
  not, ◌&&◌, Option, none, some, List, [], ◌∷◌, map, str_eq,
}
use backend_v.Base.Int.{pos, outside, ℤ}
use backend_v.Traffic.Checks.{is_some, Check, one_of}

pub record HeaderMatch : Type 0 where
  pub name : String
  pub values : List String

pub record AuthorizationInput : Type 0 where
  pub allowed_cidrs : List String
  pub headers : List HeaderMatch
  pub methods : List String

pub record ApiKeyAuthInput : Type 0 where
  pub secret_name : String
  pub header_name : String

pub record JwtInput : Type 0 where
  pub issuer : String
  pub jwks_url : String
  pub audiences : List String
  pub claim_to_headers : String

pub record OidcInput : Type 0 where
  pub issuer : String
  pub client_id : String
  pub client_secret_name : String
  pub redirect_url : String
  pub logout_path : String
  pub scopes : List String
  pub cookie_domain : String

pub record ExtAuthBackendRef : Type 0 where
  pub name : String
  pub namespace : String
  pub port : ℤ

pub record ExtAuthHttpConfig : Type 0 where
  pub backend_ref : ExtAuthBackendRef
  pub path : String

-- `max_bytes` is the field of `WithRequestBody`; `passed_on` holds what no check reads.
pub record ExtAuthConfig : Type 0 where
  pub type : String
  pub http : Option ExtAuthHttpConfig
  pub grpc : Option ExtAuthBackendRef
  pub max_bytes : Option ℕ
  pub passed_on : String

pub record SecurityPolicyInput : Type 0 where
  pub cors : Option String
  pub authorization : Option AuthorizationInput
  pub api_key_auth : Option ApiKeyAuthInput
  pub jwt : Option JwtInput
  pub oidc : Option OidcInput
  pub ext_auth : Option ExtAuthConfig

pub record SecretRef : Type 0 where
  pub name : String
  pub namespace : String

-- The one rule that requests produce: action, CIDRs, headers and, if there are any, methods.
pub record AuthorizationConfig : Type 0 where
  pub default_action : String
  pub action : String
  pub client_cidrs : List String
  pub headers : List HeaderMatch
  pub operation : Option (List String)

pub record ApiKeyAuthConfig : Type 0 where
  pub credential_refs : List SecretRef
  pub extract_from : List (List String)

pub record JwtProvider : Type 0 where
  pub name : String
  pub issuer : String
  pub remote_jwks : String
  pub audiences : List String
  pub claim_to_headers : String

pub record OidcConfig : Type 0 where
  pub issuer : String
  pub client_id : String
  pub client_secret : SecretRef
  pub redirect_url : String
  pub logout_path : String
  pub scopes : List String
  pub cookie_domain : String

pub record SecurityPolicyConfig : Type 0 where
  pub cors : Option String
  pub authorization : Option AuthorizationConfig
  pub api_key_auth : Option ApiKeyAuthConfig
  pub jwt : Option (List JwtProvider)
  pub oidc : Option OidcConfig
  pub ext_auth : Option ExtAuthConfig

-- What the checks use of the packages strings and net. `parse_ip` tells IPv4 (`true`) from IPv6.
pub record Text : Type 0 where
  pub to_upper : String → String
  pub trim_space : String → String
  pub has_prefix : String → String → Bool
  pub contains : String → String → Bool
  pub concat : String → String → String
  pub parse_ip : String → Option Bool
  pub parse_cidr : String → Bool
  pub bytes : String → List ℕ

abbrev pub fast_gateway_namespace : String
fast_gateway_namespace = "fastgateway-system"

abbrev in_gateway_namespace : String → SecretRef
in_gateway_namespace name = record { name = name; namespace = fast_gateway_namespace }

unfoldable pub build_api_key_auth : Option ApiKeyAuthInput → Option ApiKeyAuthConfig
build_api_key_auth none = none
build_api_key_auth (some input) = some record {
  credential_refs = in_gateway_namespace input.secret_name ∷ [];
  extract_from = (input.header_name ∷ []) ∷ [];
}

unfoldable pub build_jwt : Option JwtInput → Option (List JwtProvider)
build_jwt none = none
build_jwt (some input) = some (
    record {
      name = "route-jwt";
      issuer = input.issuer;
      remote_jwks = input.jwks_url;
      audiences = input.audiences;
      claim_to_headers = input.claim_to_headers;
    }
    ∷ [])

unfoldable pub build_oidc : Option OidcInput → Option OidcConfig
build_oidc none = none
build_oidc (some input) = some record {
  issuer = input.issuer;
  client_id = input.client_id;
  client_secret = in_gateway_namespace input.client_secret_name;
  redirect_url = input.redirect_url;
  logout_path = input.logout_path;
  scopes = input.scopes;
  cookie_domain = input.cookie_domain;
}

abbrev pub empty : String → Bool
empty s = str_eq s ""

unfoldable pub validate_backend_ref : ExtAuthBackendRef → Check
validate_backend_ref r = do
  reject_if (empty r.name) "name is required"
  reject_if (outside (pos 1) (pos 65535) r.port) "port must be between 1 and 65535"

unfoldable pub validate_oidc : Text → OidcInput → Check
validate_oidc text o = do
  reject_if (empty o.issuer) "OIDC issuer is required"
  reject_if (empty o.client_id) "OIDC clientId is required"
  reject_if (empty o.client_secret_name) "OIDC clientSecretName is required"
  reject_if (empty o.redirect_url) "OIDC redirectURL is required"
  reject_if (not (text.has_prefix o.redirect_url "https://")) "OIDC redirectURL must use HTTPS"
  reject_if (empty o.logout_path) "OIDC logoutPath is required"

unfoldable pub validate_jwt : JwtInput → Check
validate_jwt j = do
  reject_if (empty j.issuer) "JWT issuer is required"
  reject_if (empty j.jwks_url) "JWT jwksUrl is required"

unfoldable pub validate_api_key_auth : ApiKeyAuthInput → Check
validate_api_key_auth a = do
  reject_if (empty a.secret_name) "API key secretName is required"
  reject_if (empty a.header_name) "API key headerName is required"

abbrev pub valid_methods : List String
valid_methods = "GET" ∷ "POST" ∷ "PUT" ∷ "DELETE" ∷ "PATCH" ∷ "HEAD" ∷ "OPTIONS" ∷ []

module _ (text : Text) where
  open text use {to_upper, trim_space, has_prefix, contains, concat, parse_ip, parse_cidr}

  -- The prefix of an address without one.
  abbrev pub with_prefix : String → Option Bool → String
  with_prefix cidr none = cidr
  with_prefix cidr (some true) = concat cidr "/32"
  with_prefix cidr (some false) = concat cidr "/128"

  unfoldable pub normalize_cidr : String → String
  normalize_cidr cidr = if contains cidr "/" then cidr else with_prefix cidr (parse_ip cidr)

  abbrev pub unspecific : AuthorizationInput → Bool
  unspecific a = is_nil a.allowed_cidrs && (is_nil a.headers && is_nil a.methods)

  unfoldable pub build_authorization : Option AuthorizationInput → Option AuthorizationConfig
  build_authorization none = none
  build_authorization (some a) =
      if unspecific a
      then none
      else some record {
        default_action = "Deny";
        action = "Allow";
        client_cidrs = map normalize_cidr a.allowed_cidrs;
        headers = a.headers;
        operation = if is_nil a.methods then none else some (map to_upper a.methods);
      }

  -- The block that builds the configuration of a route; it occurs in each write.
  unfoldable pub security_config : Bool → SecurityPolicyInput → SecurityPolicyConfig
  security_config general input = record {
    cors = input.cors;
    authorization = if general then build_authorization input.authorization else none;
    api_key_auth = if general then build_api_key_auth input.api_key_auth else none;
    jwt = if general then build_jwt input.jwt else none;
    oidc = if general then build_oidc input.oidc else none;
    ext_auth = input.ext_auth;
  }

  abbrev pub with_security : Bool → Option SecurityPolicyInput → Option SecurityPolicyConfig
  with_security general none = none
  with_security general (some input) = some (security_config general input)

  unfoldable pub validate_http : ExtAuthHttpConfig → Check
  validate_http h = do
    validate_backend_ref h.backend_ref
    reject_if (empty h.path) "path is required for HTTP ext-auth"
    reject_if (not (has_prefix h.path "/")) "path must start with '/'"

  -- A configuration that must be there.
  abbrev pub required : {A : Type 0} → String → (A → Check) → Option A → Check
  required missing check none = err missing
  required missing check (some a) = check a

  abbrev pub only_if : Bool → Check → Check
  only_if b check = if b then check else ok tt

  unfoldable pub validate_ext_auth : ExtAuthConfig → Check
  validate_ext_auth c = do
    reject_if (not (str_eq c.type "http") && not (str_eq c.type "grpc"))
        "type must be 'http' or 'grpc'"
    only_if (str_eq c.type "http") (required "http config is required" validate_http c.http)
    only_if (str_eq c.type "grpc") (required "grpc config is required" validate_backend_ref c.grpc)
    if_set c.max_bytes
        (λ n. reject_if (ltb 10485760 n) "withRequestBody.maxBytes cannot exceed 10MB")

  unfoldable pub validate_authorization : AuthorizationInput → Check
  validate_authorization a = do
    reject_if (unspecific a) "authorization requires at least one of"
    each (λ cidr. reject_if (not (parse_cidr (normalize_cidr cidr))) "invalid CIDR or IP address")
        a.allowed_cidrs
    each
        (λ h.
          reject_if (empty (trim_space h.name)) "authorization header name must not be empty"
          >> reject_if (is_nil h.values) "authorization header must have at least one value")
        a.headers
    each (λ m. reject_if (not (one_of (to_upper m) valid_methods)) "invalid HTTP method") a.methods

  unfoldable pub validate_security_mode_general : Option SecurityPolicyInput → Check
  validate_security_mode_general none = ok tt
  validate_security_mode_general (some input) = do
    if_set input.oidc (validate_oidc text)
    if_set input.jwt validate_jwt
    if_set input.api_key_auth validate_api_key_auth
    if_set input.authorization validate_authorization
    if_set input.ext_auth validate_ext_auth

  unfoldable pub validate_security_mode_client : Option SecurityPolicyInput → Check
  validate_security_mode_client none = ok tt
  validate_security_mode_client (some input) = do
    reject_if (is_some input.authorization) "authorization is not available in client mode"
    reject_if (is_some input.api_key_auth) "API key auth is not available in client mode"
    reject_if (is_some input.jwt) "JWT auth is not available in client mode"
    reject_if (is_some input.oidc) "OIDC is not available in client mode"
    if_set input.ext_auth validate_ext_auth

  -- `mode == ""` stands for the general mode.
  abbrev pub or_general : String → String
  or_general mode = if empty mode then "general" else mode

  abbrev pub of_mode : String → Option SecurityPolicyInput → Bool → Check
  of_mode mode policy reject_unknown =
      if str_eq mode "general"
      then validate_security_mode_general policy
      else if str_eq mode "client"
      then validate_security_mode_client policy
      else reject_if reject_unknown "invalid security mode"

  unfoldable pub validate_write_security_mode : String → Option SecurityPolicyInput → Bool → Check
  validate_write_security_mode mode policy reject_unknown =
      of_mode (or_general mode) policy reject_unknown
