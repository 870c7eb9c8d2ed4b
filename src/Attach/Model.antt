-- ===== src/Attach/Model.antt =====
-- Attachments and what the attachment service calls (internal/models/client_attachment.go, client.go,
-- and the repositories of internal/services/clients). `W` is the database.
use backend_v.Base.{Result, ℕ, String, Bool, true, false, Option, List}
use backend_v.Base.Exec.{Exec}
use backend_v.Approval.Ports.{ApprovalError, Ports}
use backend_v.Write.Security.{ExtAuthConfig, Text}
use backend_v.Traffic.Checks.{Std}
use backend_v.Traffic.RateLimit.{RateLimitConfig}
use backend_v.Route.Status.{Route}
use backend_v.Route.Machine.{RouteError}

pub data AttachmentStatus : Type 0 where
  pending_attach pending_update pending_detach approved active removed rejected : AttachmentStatus

abbrev pub same_status : AttachmentStatus → AttachmentStatus → Bool
same_status pending_attach pending_attach = true
same_status pending_update pending_update = true
same_status pending_detach pending_detach = true
same_status approved approved = true
same_status active active = true
same_status removed removed = true
same_status rejected rejected = true
same_status _ _ = false

-- What both inputs and an attachment hold of the client's credentials.
pub record Credentials : Type 0 where
  pub enable_ip_allowlist : Bool
  pub enable_api_key : Bool
  pub enable_jwt : Bool
  pub enable_basic_auth : Bool
  pub enable_mtls : Bool
  pub enable_header_auth : Bool
  pub rate_limit_config : Option RateLimitConfig
  pub ext_auth : Option ExtAuthConfig

pub record ClientRouteAttachment : Type 0 where
  pub id : ℕ
  pub client_id : ℕ
  pub route_id : ℕ
  pub credentials : Credentials
  pub status : AttachmentStatus
  pub created_by : ℕ

pub record AttachFromRouteInput : Type 0 where
  pub client_id : ℕ
  pub credentials : Credentials

pub record AttachFromClientInput : Type 0 where
  pub route_id : ℕ
  pub project_id : ℕ
  pub credentials : Credentials

-- The columns of a client that an attachment depends on.
pub record Client : Type 0 where
  pub id : ℕ
  pub team_id : ℕ
  pub name : String
  pub api_key_enabled : Bool
  pub jwt_enabled : Bool
  pub mtls_enabled : Bool
  pub ip_address_count : ℕ
  pub header_count : ℕ

-- `nil_domain` is the panic on a route without a domain.
pub data AttachError : Type 0 where
  refused : String → AttachError
  route_failure : RouteError → AttachError
  approval_failure : ApprovalError → AttachError
  store_failure : String → AttachError
  nil_domain : AttachError
  cascade_failed : List ℕ → AttachError

-- `get_by_client_and_route` is `none` if the read fails or finds nothing; `create` returns the row
-- with its identifier.
pub record AttachmentTable (W : Type 0) : Type 0 where
  pub get_by_id : ℕ → W → Result AttachError ClientRouteAttachment
  pub get_by_client_and_route : ℕ → ℕ → W → Option ClientRouteAttachment
  pub create : ClientRouteAttachment → Exec AttachError W ClientRouteAttachment
  pub update : ClientRouteAttachment → Exec AttachError W (Unit {0})

-- `ClientAttachmentService`. `domain_mtls` tells whether the settings of a domain were read and have
-- mTLS enabled.
pub record AttachmentService : Type 1 where
  pub Config : Type 0
  pub std : Std
  pub text : Text
  pub ports : Ports
  pub attachments : AttachmentTable ports.World
  pub get_client : ℕ → ports.World → Option Client
  pub get_route : ℕ → ports.World → Result RouteError (Route Config)
  pub update_route : Route Config → Exec RouteError ports.World (Unit {0})
  pub delete_route : ℕ → Exec RouteError ports.World (Unit {0})
  pub domain_project : ℕ → ports.World → Option ℕ
  pub domain_mtls : ℕ → ports.World → Bool
