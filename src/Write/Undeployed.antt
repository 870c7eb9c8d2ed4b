-- ===== src/Write/Undeployed.antt =====
-- The status of a route after a submitted change that is rejected or cancelled.
use backend_v.Base.{ok, ok_inj, ℕ, ◌≡◌, refl, some, sym, ap, ◌∙◌}
use backend_v.Approval.Model.{Approval}
use backend_v.Write.Submit.{update, route_store}
use backend_v.Write.Laws.{StoreLaws}
use backend_v.Write.Submitted.{update-Submitted}
use backend_v.Write.Tables.{UpdateRouteInput, RouteService}
use backend_v.Route.Outcomes.{request_status, refused_status}
use backend_v.Route.Status.{RouteStatus, Route}
use backend_v.Route.Completer.{on_rejected, on_cancelled}
use backend_v.Route.Endings.{on_rejected-reverts, on_cancelled-reverts}

module _ (service : RouteService) (laws : StoreLaws service) where
  open service use {Config, std, ports, tables}
  open ports use {World}
  open tables use {get_route, update_route}

  -- Whatever status a route has when a change of it is submitted for approval, approved (not deployed
  -- yet) and rejected included: rejecting and cancelling that request do the same, and if it succeeds,
  -- the stored route is active, with the configuration from before the request. The repositories keep
  -- their laws.
  pub ended_update_activates :
      (id user : ℕ) (input : UpdateRouteInput Config std) (old r : Route Config) (a : Approval)
      → (w v : World) → get_route id w ≡ ok old
      → update service id input user w ≡ (ok record { row = r; pending_approval = some a }, v)
      → let after = on_rejected (route_store service) a v in
        (on_cancelled (route_store service) a v ≡ after)
        × (after.0 ≡ ok tt
            → (now : Route Config) × (get_route id after.1 ≡ ok now)
              × (now.status ≡ RouteStatus.active)
              × (now.config ≡ old.config))
  ended_update_activates id user input old r a w v found h =
      let done = update-Submitted service laws id user input r a w v h in
      let row : Route Config = record r { status = RouteStatus.active } in
      let stored = ap (λ n. get_route n v) done.entity ∙ done.stored in
      let asked : request_status a.action ≡ some r.status = rw (done.action, done.waiting) refl in
      let refused =
        on_rejected-reverts (route_store service) r v a stored asked
        ∙ ap (λ act. update_route (record r { status = refused_status act }) v) done.action in
      let cancelled : on_cancelled (route_store service) a v ≡ update_route row v =
        on_cancelled-reverts (route_store service) r v a stored asked ∙ rw done.waiting refl in
      (
        cancelled ∙ sym refused,
        λ settled. (
          row,
          ap (λ o. get_route id o.1) refused
              ∙ ap (λ n. get_route n (update_route row v).1) (sym done.key)
              ∙ laws.updated row v (ap (λ o. o.0) (sym refused) ∙ settled),
          refl,
          done.kept ∙ ap (λ x. x.config) (ok_inj (sym done.found ∙ found)),
        ),
      )
