-- ===== src/Route/Legal.antt =====
-- The table, described a second time as a relation by kinds of call site, and the proof that the
-- two descriptions are one.
use backend_v.Base.{Option, List, Bool, true, false, none, some, any, ◌≡◌, ◌≢◌, refl, arith, ◌↔◌}
use backend_v.Route.Status.{
  RouteStatus, TransitionSite, status_eq, pending_create, pending_update, pending_delete, approved,
  active, rejected, pending_deploy, route_create_fast_path, route_update, route_update_fast_path,
  route_delete, route_delete_fast_path, approval_approved, approval_rejected, approval_cancelled,
  attach_from_route, attach_from_client, request_detach, attachment_approved, client_cascade,
  deploy,
}
use backend_v.Route.Table.{Row, legal_transitions, allowed_from}

-- An approval request is in flight, for the action that the status names.
pub data InFlight : RouteStatus → Type 0 where
  creating : InFlight pending_create
  updating : InFlight pending_update
  deleting : InFlight pending_delete

-- Sites that queue a redeploy of a route whatever its status.
pub data Attaches : TransitionSite → Type 0 where
  from_route : Attaches attach_from_route
  from_client : Attaches attach_from_client

-- Sites that queue a redeploy of an active route.
pub data Redeploys : TransitionSite → Type 0 where
  by_approval : Redeploys attachment_approved
  by_cascade : Redeploys client_cascade
  by_detach : Redeploys request_detach

-- Sites that give a deployed route back when a request for it ends unapproved.
pub data Reverts : TransitionSite → Type 0 where
  by_rejection : Reverts approval_rejected
  by_cancel : Reverts approval_cancelled

-- The transitions that the program means to allow: `Legal site from to`.
pub data Legal : TransitionSite → RouteStatus → RouteStatus → Type 0 where
  create_now : Legal route_create_fast_path pending_create approved
  request_update : {s : RouteStatus} → s ≢ pending_update → Legal route_update s pending_update
  update_now : Legal route_update_fast_path pending_update pending_deploy
  request_delete : {s : RouteStatus} → s ≢ pending_delete → Legal route_delete s pending_delete
  delete_now : Legal route_delete_fast_path pending_delete pending_deploy
  grant_create : Legal approval_approved pending_create approved
  grant_update : Legal approval_approved pending_update pending_deploy
  grant_delete : Legal approval_approved pending_delete pending_deploy
  refuse_create : Legal approval_rejected pending_create rejected
  give_back_update : {t : TransitionSite} → Reverts t → Legal t pending_update active
  give_back_delete : {t : TransitionSite} → Reverts t → Legal t pending_delete active
  attach :
      {t : TransitionSite} {s : RouteStatus}
      → Attaches t
      → s ≢ pending_deploy
      → Legal t s pending_deploy
  redeploy : {t : TransitionSite} → Redeploys t → Legal t active pending_deploy
  detach_update : Legal request_detach pending_update pending_deploy
  detach_delete : Legal request_detach pending_delete pending_deploy
  first_deploy : Legal deploy approved active
  next_deploy : Legal deploy pending_deploy active

-- The table's answer: is `next` among the targets of `from` in the rows of a site?
abbrev in_targets : Option (List RouteStatus) → RouteStatus → Bool
in_targets none next = false
in_targets (some tos) next = any (λ to. status_eq to next) tos

abbrev pub in_rows : Option (List Row) → RouteStatus → RouteStatus → Bool
in_rows none from next = false
in_rows (some rows) from next = in_targets (allowed_from from rows) next

unfoldable pub in_table : TransitionSite → RouteStatus → RouteStatus → Bool
unfolding legal_transitions
in_table site from next = in_rows (legal_transitions site) from next

pub in_table_irrefl : (t : TransitionSite) (s : RouteStatus) → in_table t s s ≡ false
unfolding in_table
in_table_irrefl t s = ground arith

ruleset legal_rules = (
  create_now, request_update, update_now, request_delete, delete_now, grant_create, grant_update,
  grant_delete, refuse_create, give_back_update, give_back_delete, attach, redeploy, detach_update,
  detach_delete, first_deploy, next_deploy, from_route, from_client, by_approval, by_cascade,
  by_detach, by_rejection, by_cancel,
)

pub in_table-of-Legal :
    {t : TransitionSite} {s n : RouteStatus} → Legal t s n → in_table t s n ≡ true
unfolding in_table
in_table-of-Legal create_now = refl
in_table-of-Legal (request_update h) = ground arith
in_table-of-Legal update_now = refl
in_table-of-Legal (request_delete h) = ground arith
in_table-of-Legal delete_now = refl
in_table-of-Legal grant_create = refl
in_table-of-Legal grant_update = refl
in_table-of-Legal grant_delete = refl
in_table-of-Legal refuse_create = refl
in_table-of-Legal (give_back_update by_rejection) = refl
in_table-of-Legal (give_back_update by_cancel) = refl
in_table-of-Legal (give_back_delete by_rejection) = refl
in_table-of-Legal (give_back_delete by_cancel) = refl
in_table-of-Legal (attach from_route h) = ground arith
in_table-of-Legal (attach from_client h) = ground arith
in_table-of-Legal (redeploy by_approval) = refl
in_table-of-Legal (redeploy by_cascade) = refl
in_table-of-Legal (redeploy by_detach) = refl
in_table-of-Legal detach_update = refl
in_table-of-Legal detach_delete = refl
in_table-of-Legal first_deploy = refl
in_table-of-Legal next_deploy = refl

pub Legal-of-in_table :
    (t : TransitionSite) (s n : RouteStatus) → in_table t s n ≡ true → Legal t s n
unfolding in_table
Legal-of-in_table route_create_fast_path s n h = grind (arith, legal_rules)
Legal-of-in_table route_update s n h = grind (arith, legal_rules)
Legal-of-in_table _ s n h = grind (arith, legal_rules)

-- The machine's table allows a transition at a call site exactly when the relation does: a create,
-- update or delete request is made, granted, refused or cancelled at the sites of its own kind; an
-- attachment queues a redeploy from every other status, an approved attachment or a cascade from
-- active, a detachment from active, pending_update or pending_delete; and only a deploy, a rejection
-- or a cancellation makes a route active.
pub in_table-Legal :
    (t : TransitionSite) (s n : RouteStatus) → (in_table t s n ≡ true) ↔ Legal t s n
in_table-Legal t s n = (Legal-of-in_table t s n, in_table-of-Legal)
