-- ===== src/Route/Status.antt =====
-- internal/models/route.go: route statuses, the named call sites of the state machine, routes.
use backend_v.Base.{ℕ, String, Bool, true, false, List, Option}

pub data RouteStatus : Type 0 where
  pending_create pending_update pending_delete approved active rejected pending_deploy : RouteStatus

-- `TransitionSite` is a Go string: `other_site` is any value but the declared constants.
pub data TransitionSite : Type 0 where
  route_create_fast_path route_update route_update_fast_path : TransitionSite
  route_delete route_delete_fast_path : TransitionSite
  approval_approved approval_rejected approval_cancelled : TransitionSite
  attach_from_route attach_from_client request_detach : TransitionSite
  attachment_approved client_cascade deploy : TransitionSite
  other_site : String → TransitionSite

-- The comparison of two statuses, `==` on the Go strings.
abbrev pub status_eq : RouteStatus → RouteStatus → Bool
status_eq pending_create pending_create = true
status_eq pending_update pending_update = true
status_eq pending_delete pending_delete = true
status_eq approved approved = true
status_eq active active = true
status_eq rejected rejected = true
status_eq pending_deploy pending_deploy = true
status_eq _ _ = false

-- The columns of a route that its life cycle reads or writes; `Config` is the route configuration.
-- Labels are a map, as a list of keys and values.
pub record Route (Config : Type 0) : Type 0 where
  pub id : ℕ
  pub domain_id : Option ℕ
  pub stream_id : Option ℕ
  pub team_id : ℕ
  pub name : String
  pub description : String
  pub protocol : String
  pub security_mode : String
  pub k8s_route_name : String
  pub created_by : ℕ
  pub labels : List (String × String)
  pub config : Config
  pub status : RouteStatus
