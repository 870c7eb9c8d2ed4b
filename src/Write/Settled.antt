-- ===== src/Write/Settled.antt =====
-- What the end of an approval makes of a submitted change.
use backend_v.Base.{ok, ℕ, String, ◌≡◌, refl, Option, some, sym, ap, ◌∙◌}
use backend_v.Approval.Model.{ApprovalAction, Approval}
use backend_v.Write.Submit.{update, is_general, proposed, route_store}
use backend_v.Write.Laws.{StoreLaws}
use backend_v.Write.Submitted.{update-Submitted}
use backend_v.Write.Tables.{UpdateRouteInput, Snapshot, RouteService}
use backend_v.Route.Outcomes.{
  request_status, wanted_config, refused_status, granted_status, on_approved-grants,
}
use backend_v.Route.Status.{RouteStatus, Route}
use backend_v.Route.Completer.{on_approved, on_rejected}
use backend_v.Write.Security.{security_config, SecurityPolicyInput}
use backend_v.Route.Endings.{on_rejected-reverts}

module _ (service : RouteService) (laws : StoreLaws service) where
  open service use {Config, std, text, ports, tables, checks, marshal}
  open ports use {World}
  open tables use {get_route, update_route, security}
  open laws use {updated, update-security}

  request-action :
      (act : ApprovalAction) (r : Route Config)
      → act ≡ ApprovalAction.update
      → r.status ≡ RouteStatus.pending_update
      → request_status act ≡ some r.status
  request-action act r e s = rw (e, s) refl

  wanted :
      (decode : String → Option (Option Config)) (input : UpdateRouteInput Config std)
      → (r : Route Config) (a : Approval)
      → decode (marshal (proposed service (is_general service r.security_mode) input))
        ≡ some (some (proposed service (is_general service r.security_mode) input).route_config)
      → a.action ≡ ApprovalAction.update
      → a.config_snapshot
        ≡ some (marshal (proposed service (is_general service r.security_mode) input))
      → wanted_config decode a.action a.config_snapshot r.config ≡ some input.config
  unfolding proposed
  wanted decode input r a d act snap = rw (act, snap, d) refl

  -- A submitted change of a route that is approved is the one stored: approving writes the row with
  -- the submitted configuration, queued for deployment, and if that write succeeds it is what the
  -- route then is. The repositories keep their laws, and a snapshot decodes to its configuration.
  pub approved_update :
      (decode : String → Option (Option Config))
      → ((s : Snapshot Config std) → decode (marshal s) ≡ some (some s.route_config))
      → (id user : ℕ) (input : UpdateRouteInput Config std) (r : Route Config) (a : Approval)
      → (w v : World)
      → update service id input user w ≡ (ok record { row = r; pending_approval = some a }, v)
      → let granted : Route Config = record r {
        config = input.config;
        status = RouteStatus.pending_deploy;
      } in
        (on_approved (route_store service) decode a v ≡ update_route granted v)
        × ((on_approved (route_store service) decode a v).0 ≡ ok tt
            → get_route id (on_approved (route_store service) decode a v).1 ≡ ok granted)
  approved_update decode decodes id user input r a w v h =
      let done = update-Submitted service laws id user input r a w v h in
      let granted : Route Config = record r {
        config = input.config;
        status = RouteStatus.pending_deploy;
      } in
      let wrote =
        on_approved-grants (route_store service) decode a v r
          (ap (λ n. get_route n v) done.entity ∙ done.stored) input.config
          (request-action a.action r done.action done.waiting)
          (wanted decode input r a
            (decodes (proposed service (is_general service r.security_mode) input)) done.action
            done.snapshot)
        ∙ ap
            (λ act.
              update_route (record r { config = input.config; status = granted_status act }) v)
            done.action in
      (
        wrote,
        λ settled.
            ap (λ o. get_route id o.1) wrote
            ∙ ap (λ n. get_route n (update_route granted v).1) (sym done.key)
            ∙ updated granted v (ap (λ o. o.0) (sym wrote) ∙ settled),
      )

  -- A change that was submitted and then rejected leaves the security policy of the request as the
  -- route's: rejecting writes the row back as active, with the configuration from before the
  -- request, and touches no policy, while the request already wrote its own.
  pub rejected_policy :
      (id user : ℕ) (input : UpdateRouteInput Config std) (r : Route Config) (a : Approval)
      → (w v : World) (sp : SecurityPolicyInput)
      → update service id input user w ≡ (ok record { row = r; pending_approval = some a }, v)
      → input.security ≡ some sp
      → let after = on_rejected (route_store service) a v in
        (after ≡ update_route (record r { status = RouteStatus.active }) v)
        × ((old : Route Config) × (get_route id w ≡ ok old) × (r.config ≡ old.config))
        × (security.get_by_route_id id after.1
            ≡ some (security_config text (is_general service r.security_mode) sp))
  rejected_policy id user input r a w v sp h e =
      let done = update-Submitted service laws id user input r a w v h in
      let wrote =
        on_rejected-reverts (route_store service) r v a
          (ap (λ n. get_route n v) done.entity ∙ done.stored)
          (request-action a.action r done.action done.waiting)
        ∙ ap (λ act. update_route (record r { status = refused_status act }) v) done.action in
      (
        wrote,
        (done.old, done.found, done.kept),
        ap (λ o. security.get_by_route_id id o.1) wrote
            ∙ update-security (record r { status = RouteStatus.active }) v id
            ∙ done.policy sp e,
      )
