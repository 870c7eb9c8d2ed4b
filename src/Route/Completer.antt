-- ===== src/Route/Completer.antt =====
-- internal/services/route_approval.go: what a terminal approval does to its route.
use backend_v.Base.{ℕ, Bool, false, String, Option, none, some, Result, ok, err, if◌then◌else◌}
use backend_v.Base.Exec.{Exec}
use backend_v.Approval.Model.{Approval, ApprovalEntityType, ApprovalAction, User}
use backend_v.Route.Status.{
  RouteStatus, Route, status_eq, approval_approved, approval_rejected, approval_cancelled,
}
use backend_v.Route.Machine.{
  RouteError, snapshot_error, unsupported_action, RouteStore, Outcome, to_status,
}

-- `decode` is json.Unmarshal into a RouteApprovalSnapshot: `none` if the text is no snapshot, else
-- the snapshot's `RouteConfig`. `is_member` is the team repository's lookup.
module _ {Config : Type 0} (store : RouteStore Config) where
  open store use {World, get_by_id, update, delete}

  abbrev pub Action : Type 0
  Action = Exec RouteError World (Unit {0})

  -- The caller of `Machine.To` drops the route: it keeps the error and the database.
  abbrev pub drop_route : Outcome store → Result RouteError (Unit {0}) × World
  drop_route (res, r, w) = (res, w)

  module _ (decode : String → Option (Option Config)) where
    unfoldable pub apply_decoded :
        Route Config → Option (Option Config) → Result RouteError (Route Config)
    apply_decoded r none = err (snapshot_error "invalid JSON")
    apply_decoded r (some none) = ok r
    apply_decoded r (some (some c)) = ok (record r { config = c })

    unfoldable pub apply_route_approval_snapshot :
        Route Config → Option String → Result RouteError (Route Config)
    unfolding apply_decoded
    apply_route_approval_snapshot r none = ok r
    apply_route_approval_snapshot r (some raw) = apply_decoded r (decode raw)

    -- The tail of `OnApproved`: an unconditional write when the route is already there.
    unfoldable pub settle : Route Config → RouteStatus → Action
    settle r next w =
        if status_eq r.status next
        then update r w
        else drop_route (to_status store approval_approved (some r) next w)

    unfoldable pub settle_snapshot : Result RouteError (Route Config) → RouteStatus → Action
    settle_snapshot (err e) next w = (err e, w)
    settle_snapshot (ok r) next w = settle r next w

    unfoldable pub approve_route : ApprovalAction → Option String → Route Config → Action
    approve_route ApprovalAction.create raw r w =
        settle_snapshot (apply_route_approval_snapshot r raw) RouteStatus.approved w
    approve_route ApprovalAction.update raw r w =
        settle_snapshot (apply_route_approval_snapshot r raw) RouteStatus.pending_deploy w
    approve_route ApprovalAction.delete raw r w = settle r RouteStatus.pending_deploy w
    approve_route _ raw r w = (err unsupported_action, w)

    unfoldable pub on_approved : Approval → Action
    unfolding approve_route settle_snapshot settle apply_route_approval_snapshot
    on_approved a w = elim (get_by_id a.entity_id w) [
      | err e ↦ (err e, w)
      | ok r ↦ approve_route a.action a.config_snapshot r w
    ]

  unfoldable pub reject_route : ApprovalAction → Route Config → Action
  reject_route ApprovalAction.create r w =
      drop_route (to_status store approval_rejected (some r) RouteStatus.rejected w)
  reject_route ApprovalAction.update r w =
      drop_route (to_status store approval_rejected (some r) RouteStatus.active w)
  reject_route ApprovalAction.delete r w =
      drop_route (to_status store approval_rejected (some r) RouteStatus.active w)
  reject_route _ r w = (err unsupported_action, w)

  unfoldable pub on_rejected : Approval → Action
  unfolding reject_route
  on_rejected a w = elim (get_by_id a.entity_id w) [
    | err e ↦ (err e, w)
    | ok r ↦ reject_route a.action r w
  ]

  unfoldable pub revert_route : ℕ → Action
  revert_route id w = elim (get_by_id id w) [
    | err e ↦ (err e, w)
    | ok r ↦ drop_route (to_status store approval_cancelled (some r) RouteStatus.active w)
  ]

  unfoldable pub cancel_route : ApprovalAction → ℕ → Action
  cancel_route ApprovalAction.create id w = delete id w
  cancel_route ApprovalAction.update id w = revert_route id w
  cancel_route ApprovalAction.delete id w = revert_route id w
  cancel_route _ id w = (err unsupported_action, w)

  unfoldable pub on_cancelled : Approval → Action
  unfolding cancel_route revert_route
  on_cancelled a w = cancel_route a.action a.entity_id w

  module _ (is_member : ℕ → ℕ → World → Result RouteError Bool) where
    member_may_cancel : Result RouteError Bool → Bool
    member_may_cancel (ok b) = b
    member_may_cancel (err e) = false

    team_may_cancel : Approval → User → World → Bool
    unfolding member_may_cancel
    team_may_cancel a u w = elim (get_by_id a.entity_id w) [
      | err e ↦ false
      | ok r ↦ member_may_cancel (is_member r.team_id u.id w)
    ]

    cancel_right : ApprovalEntityType → Approval → User → World → Bool
    unfolding team_may_cancel
    cancel_right ApprovalEntityType.route a u w = team_may_cancel a u w
    cancel_right _ a u w = false

    unfoldable pub can_cancel : Approval → User → World → Bool
    unfolding cancel_right
    can_cancel a u w = cancel_right a.entity_type a u w
