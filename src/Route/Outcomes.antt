-- ===== src/Route/Outcomes.antt =====
-- What OnApproved of internal/services/route_approval.go does to a route, by the status that the
-- route has when its approval ends.
use backend_v.Route.Lifecycle.{Legal-ne, to_status-Legal, to_status-err, status_eq-ne}
use backend_v.Approval.Model.{ApprovalAction, Approval}
use backend_v.Route.Machine.{RouteStore, RouteError, unsupported_action, snapshot_error}
use backend_v.Route.Status.{
  RouteStatus, active, pending_create, pending_update, pending_deploy, pending_delete, Route,
  approval_approved, approved,
}
use backend_v.Route.Completer.{
  settle_snapshot, settle, approve_route, apply_route_approval_snapshot, apply_decoded, on_approved,
}
use backend_v.Base.{
  String, ◌≡◌, Option, none, some, ok, subst, some_inj, err, ◌≢◌, refl, ap, ◌⊎◌, inl, inr,
}
use backend_v.Route.Legal.{grant_create, Legal, grant_update, grant_delete}

-- The status in which an approval of this action finds its route, and those that it leaves.
abbrev pub request_status : ApprovalAction → Option RouteStatus
request_status ApprovalAction.create = some pending_create
request_status ApprovalAction.update = some pending_update
request_status ApprovalAction.delete = some pending_delete
request_status _ = none

abbrev pub granted_status : ApprovalAction → RouteStatus
granted_status ApprovalAction.create = RouteStatus.approved
granted_status _ = pending_deploy

abbrev pub refused_status : ApprovalAction → RouteStatus
refused_status ApprovalAction.create = RouteStatus.rejected
refused_status _ = active

-- The configuration that a decoded snapshot asks for; `none` is a corrupt one.
abbrev wanted : {Config : Type 0} → Option (Option Config) → Config → Option Config
wanted none c = none
wanted (some none) c = some c
wanted (some (some c')) c = some c'

abbrev wanted_raw :
    {Config : Type 0} → (String → Option (Option Config)) → Option String → Config → Option Config
wanted_raw decode none c = some c
wanted_raw decode (some raw) c = wanted (decode raw) c

-- A delete request asks for no change.
abbrev pub wanted_config :
    {Config : Type 0}
    → (String → Option (Option Config))
    → ApprovalAction
    → Option String
    → Config
    → Option Config
wanted_config decode ApprovalAction.delete raw c = some c
wanted_config decode _ raw c = wanted_raw decode raw c

module _ {Config : Type 0} (store : RouteStore Config)
    (decode : String → Option (Option Config)) where
  open store use {World, update}

  apply_decoded-wanted :
      (r : Route Config) (o : Option (Option Config)) (c : Config)
      → wanted o r.config ≡ some c
      → apply_decoded store decode r o ≡ ok (record r { config = c })
  unfolding apply_decoded
  apply_decoded-wanted r none c h = cc
  apply_decoded-wanted r (some none) c h = cc
  apply_decoded-wanted r (some (some c')) c h = cc

  snapshot-wanted :
      (r : Route Config) (raw : Option String) (c : Config)
      → wanted_raw decode raw r.config ≡ some c
      → apply_route_approval_snapshot store decode r raw ≡ ok (record r { config = c })
  unfolding apply_route_approval_snapshot
  snapshot-wanted r none c h = cc
  snapshot-wanted r (some raw) c h = apply_decoded-wanted r (decode raw) c h

  settle-Legal :
      (r : Route Config) (n : RouteStatus) (w : World)
      → Legal approval_approved r.status n
      → settle store decode r n w ≡ update (record r { status = n }) w
  unfolding settle
  settle-Legal r n w l =
      rw (Legal-ne r.status n l) (rw (to_status-Legal store approval_approved r n w l))

  approve_route-grants :
      (act : ApprovalAction) (raw : Option String) (r : Route Config) (w : World) (c : Config)
      → request_status act ≡ some r.status
      → wanted_config decode act raw r.config ≡ some c
      → approve_route store decode act raw r w
        ≡ update (record r { config = c; status = granted_status act }) w
  unfolding approve_route settle_snapshot
  approve_route-grants ApprovalAction.create raw r w c req conf =
      rw (snapshot-wanted r raw c conf) (
        settle-Legal (record r { config = c }) approved w
          (subst (λ s. Legal approval_approved s approved) (some_inj req) grant_create))
  approve_route-grants ApprovalAction.update raw r w c req conf =
      rw (snapshot-wanted r raw c conf) (
        settle-Legal (record r { config = c }) pending_deploy w
          (subst (λ s. Legal approval_approved s pending_deploy) (some_inj req) grant_update))
  approve_route-grants ApprovalAction.delete raw r w c req conf =
      subst
        (λ k.
          settle store decode r pending_deploy w
          ≡ update (record r { config = k; status = pending_deploy }) w)
        (some_inj conf)
        (settle-Legal r pending_deploy w
          (subst (λ s. Legal approval_approved s pending_deploy) (some_inj req) grant_delete))
  approve_route-grants _ raw r w c req conf = cc

  settle-refuses :
      (r : Route Config) (n : RouteStatus) (w : World)
      → ¬ (Legal approval_approved r.status n)
      → r.status ≢ n
      → (e : RouteError) × (settle store decode r n w ≡ (err e, w))
  unfolding settle
  settle-refuses r n w l d =
      let (e, p) = to_status-err store approval_approved r n w l d in
      (e, rw (status_eq-ne r.status n d) (ap (λ o. (o.0, o.2)) p))

  -- A snapshot fails, or changes the configuration alone.
  apply_decoded-cases :
      (r : Route Config) (o : Option (Option Config))
      → ((e : RouteError) × (apply_decoded store decode r o ≡ err e))
        ⊎ ((c : Config) × (apply_decoded store decode r o ≡ ok (record r { config = c })))
  unfolding apply_decoded
  apply_decoded-cases r none = inl (snapshot_error "invalid JSON", refl)
  apply_decoded-cases r (some none) = inr (r.config, refl)
  apply_decoded-cases r (some (some c)) = inr (c, refl)

  snapshot-cases :
      (r : Route Config) (raw : Option String)
      → ((e : RouteError) × (apply_route_approval_snapshot store decode r raw ≡ err e))
        ⊎ ((c : Config) × (apply_route_approval_snapshot store decode r raw
              ≡ ok (record r { config = c })))
  unfolding apply_route_approval_snapshot
  snapshot-cases r none = inr (r.config, refl)
  snapshot-cases r (some raw) = apply_decoded-cases r (decode raw)

  settle_snapshot-refuses :
      (raw : Option String) (r : Route Config) (n : RouteStatus) (w : World)
      → ¬ (Legal approval_approved r.status n)
      → r.status ≢ n
      → (e : RouteError) × (settle_snapshot store decode
            (apply_route_approval_snapshot store decode r raw)
            n
            w
          ≡ (err e, w))
  unfolding settle_snapshot
  settle_snapshot-refuses raw r n w l d = elim (snapshot-cases r raw) [
    | inl (e, p) ↦ (e, rw p)
    | inr (c, p) ↦ rw p (settle-refuses (record r { config = c }) n w l d)
  ]

  approve_route-refuses :
      (act : ApprovalAction) (raw : Option String) (r : Route Config) (w : World)
      → ¬ (Legal approval_approved r.status (granted_status act))
      → r.status ≢ granted_status act
      → (e : RouteError) × (approve_route store decode act raw r w ≡ (err e, w))
  unfolding approve_route
  approve_route-refuses ApprovalAction.create raw r w l d =
      settle_snapshot-refuses raw r approved w l d
  approve_route-refuses ApprovalAction.update raw r w l d =
      settle_snapshot-refuses raw r pending_deploy w l d
  approve_route-refuses ApprovalAction.delete raw r w l d = settle-refuses r pending_deploy w l d
  approve_route-refuses _ raw r w l d = (unsupported_action, refl)

module _ {Config : Type 0} (store : RouteStore Config) (decode : String → Option (Option Config))
    (a : Approval) (w : store.World) (r : Route Config)
    (found : store.get_by_id a.entity_id w ≡ ok r) where
  open store use {World, update}

  -- Approving a request whose route is in the status that the request gave it writes the route
  -- once, with the configuration that the approval asks for and the granted status; the result
  -- is that of the write.
  pub on_approved-grants :
      (c : Config)
      → request_status a.action ≡ some r.status
      → wanted_config decode a.action a.config_snapshot r.config ≡ some c
      → on_approved store decode a w
        ≡ update (record r { config = c; status = granted_status a.action }) w
  unfolding on_approved
  on_approved-grants c req conf =
      rw (found, on_approved)
        (approve_route-grants store decode a.action a.config_snapshot r w c req conf)

  -- Where the table has no transition from the route's status to the granted one, and the route is
  -- not there yet, approving fails and the database is unchanged: no configuration is written.
  pub on_approved-refuses :
      ¬ (Legal approval_approved r.status (granted_status a.action))
      → r.status ≢ granted_status a.action
      → (e : RouteError) × (on_approved store decode a w ≡ (err e, w))
  unfolding on_approved
  on_approved-refuses l d =
      rw (found, on_approved)
        (approve_route-refuses store decode a.action a.config_snapshot r w l d)
