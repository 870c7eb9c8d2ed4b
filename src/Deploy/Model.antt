-- ===== src/Deploy/Model.antt =====
-- What a deploy reads and calls (internal/services/route_deploy_service.go). The calls of the cluster
-- are a parameter: each reads the database, writes the cluster `K` and may fail.
use backend_v.Base.Int.{ℤ}
use backend_v.Base.Exec.{Exec}
use backend_v.Attach.Model.{AttachmentStatus}
use backend_v.Stream.Model.{Stream}
use backend_v.Approval.Model.{ApprovalEntityType, Approval}
use backend_v.Write.Tables.{RouteService}
use backend_v.Route.Status.{Route}
use backend_v.Route.Machine.{RouteError}
use backend_v.Base.{ℕ, String, Bool, Option, List}

pub record Domain : Type 0 where
  pub id : ℕ
  pub project_id : ℕ
  pub namespace : String

-- How a deploy ends without the route active; `nil_domain` is the panic of Deploy on a route that is
-- neither TCP nor UDP and has no domain.
pub data DeployError : Type 0 where
  not_deployable no_approved_request nil_domain domain_not_found : DeployError
  no_stream stream_not_found port_not_claimed unsupported_action unsupported_protocol : DeployError
  cluster_failure : String → DeployError
  route_failure : RouteError → DeployError

-- The calls that `Deploy` makes of the cluster, by the functions of its dependencies.
pub data Call (Config : Type 0) : Type 0 where
  ensure_reference_grants : Route Config → Domain → Call Config
  deploy_backends cleanup_stale_backends delete_backends : Route Config → Domain → Call Config
  deploy_direct_response delete_direct_response : Route Config → Domain → Call Config
  create_grpc_route update_grpc_route delete_grpc_route : Route Config → Domain → Call Config
  create_http_route update_http_route delete_http_route : Route Config → Domain → Call Config
  deploy_security_policy delete_security_policy : Route Config → Domain → Call Config
  deploy_api_key_clients cleanup_stale_api_key_routes delete_api_key_routes :
      Route Config → Domain → Call Config
  deploy_backend_traffic_policy delete_backend_traffic_policy : Route Config → Domain → Call Config
  deploy_envoy_extension_policy delete_envoy_extension_policy : Route Config → Domain → Call Config
  create_tcp_route update_tcp_route delete_tcp_route : Route Config → Stream → Bool → Call Config
  create_udp_route update_udp_route delete_udp_route : Route Config → Stream → Bool → Call Config
  apply_backend_traffic_policy remove_backend_traffic_policy : Route Config → Stream → Call Config

-- `routeDeploy`, over the database of a `RouteService`. `latest_approved` is the latest approved
-- approval of a route, `none` if there is none or the read fails; `listed_attachments` are their ids.
-- `create_version` is best effort; `listener_port` is the field of the configuration.
pub record RouteDeploy : Type 1 where
  pub service : RouteService
  pub Cluster : Type 0
  pub listener_port : service.Config → ℤ
  pub latest_approved : ℕ → service.ports.World → Option Approval
  pub get_domain : ℕ → service.ports.World → Option Domain
  pub get_stream : ℕ → service.ports.World → Option Stream
  pub has_l4_v1 : ℕ → service.ports.World → Bool
  pub listed_attachments : ℕ → service.ports.World → List ℕ
  pub delete_approvals : ApprovalEntityType → ℕ → Exec RouteError service.ports.World (Unit {0})
  pub update_attachment_statuses :
      ℕ → AttachmentStatus → AttachmentStatus → Exec RouteError service.ports.World (Unit {0})
  pub create_version :
      Route service.Config → Approval → ℕ → Exec RouteError service.ports.World (Unit {0})
  pub run : Call service.Config → service.ports.World → Exec String Cluster (Unit {0})
