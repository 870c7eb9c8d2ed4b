-- ===== src/Write/Submitted.antt =====
-- The facts of a change of a route that was submitted for approval.
use backend_v.Base.{
  ok_inj, ok, ◌≡◌, ap, Bool, true, false, none, some, some_inj, sym, ◌∙◌, subst, Option, ℕ,
  with_bind, Result, err, refl,
}
use backend_v.Base.Exec.{continue, with_step, pure, with_unless, Exec}
use backend_v.Approval.Traversal.{Spec, new_approval, submit}
use backend_v.Approval.Planning.{plan_stages}
use backend_v.Write.Submit.{
  gate, submit_approval, transition, persist_update_policies, finish_update, proposed, begin_update,
  is_general, submit_update, update, spec_of, current,
}
use backend_v.Approval.Model.{Approval, ApprovalAction}
use backend_v.Write.Laws.{StoreLaws, SameRoutes}
use backend_v.Write.Tables.{
  RouteService, with_wrapped, wrapped, approval_failure, UpdateRouteInput, Snapshot, wrap,
  WriteError, pending_exists, route_failure,
}
use backend_v.Route.Status.{RouteStatus, TransitionSite, Route, route_update_fast_path}
use backend_v.Write.Requested.{begun, persist-security, persist-routes}
use backend_v.Write.Security.{security_config, SecurityPolicyInput}
use backend_v.Write.Checks.{apply_fields, labels_of, validate_update}
use backend_v.Traffic.Checks.{is_some}

module _ (service : RouteService) (laws : StoreLaws service) where
  open service use {Config, std, text, ports, tables, checks, key_matches, value_matches, marshal}
  open ports use {World, create_approval, get_project}
  open tables use {get_route, update_route, security, traffic, extension, waf, get_pending}
  open laws use {
    keyed, created, create-routes, upserted, security-routes, traffic-routes, extension-routes,
    waf-routes, traffic-security, extension-security, waf-security,
  }

  -- The approval asks for what the specification says.
  abbrev pub Asks : Approval → Spec → Type 0
  Asks a spec =
      (a.entity_id ≡ spec.entity_id)
      × (a.action ≡ spec.action)
      × (a.config_snapshot ≡ spec.config_snapshot)

  submitted-facts :
      (spec : Spec) (a : Approval) (r r' : Route Config) (w v : World)
      → continue {B = Option Approval × Route Config}
          (wrapped approval_failure (submit ports spec w))
          (λ b. pure (some b, r))
        ≡ (ok (some a, r'), v)
      → (r' ≡ r) × Asks a spec × SameRoutes service w v
  unfolding submit new_approval
  submitted-facts spec a r r' w v h =
      with_wrapped approval_failure (submit ports spec w) (λ b. pure (some b, r)) h
        (λ b e h'.
          with_step
            (plan_stages ports spec.project_id spec.submitted_by spec.entity_type spec.action w, w)
            (λ stages. create_approval (new_approval spec stages))
            (ap (λ x. (x, (submit ports spec w).1)) e)
            (λ stages e' made.
              let asks = created (new_approval spec stages) b w (ap (λ o. o.0) made) in
              let same = some_inj (ap (λ p. p.0) (ok_inj (ap (λ o. o.0) h'))) in
              (
                sym (ap (λ p. p.1) (ok_inj (ap (λ o. o.0) h'))),
                subst (λ x. Asks x spec) same asks,
                λ id.
                    ap (λ x. get_route id x) (sym (ap (λ o. o.1) made ∙ ap (λ o. o.1) h'))
                    ∙ create-routes (new_approval spec stages) w id,
              )))

  gate-facts :
      (b : Bool) (site : TransitionSite) (next : RouteStatus) (spec : Spec) (a : Approval)
      → (r r' : Route Config) (w v : World)
      → gate service b site next r spec w ≡ (ok (some a, r'), v)
      → (r' ≡ r) × Asks a spec × SameRoutes service w v
  gate-facts true site next spec a r r' w v h = submitted-facts spec a r r' w v h
  gate-facts false site next spec a r r' w v h =
      with_step (transition service site r next w) (λ x. pure (none, x)) h
        (λ x e h'. absurd (cc (ap (λ p. p.0) (ok_inj (ap (λ o. o.0) h')))))

  submit_approval-facts :
      (site : TransitionSite) (next : RouteStatus) (spec : Spec) (a : Approval)
      → (r r' : Route Config) (w v : World)
      → submit_approval service site next r spec w ≡ (ok (some a, r'), v)
      → (r' ≡ r) × Asks a spec × SameRoutes service w v
  unfolding submit_approval
  submit_approval-facts site next spec a r r' w v h =
      with_wrapped approval_failure (get_project spec.project_id w, w) _ h
        (λ p e h'. gate-facts p.approval_enabled site next spec a r r' w v h')

  with_read :
      {E A B C : Type 0} (wrap : E → WriteError) (m : Result E A) (w : World)
      → (f : A → Exec WriteError World B) {b : B} {v : World}
      → continue (wrapped wrap (m, w)) f ≡ (ok b, v)
      → ((a : A) → m ≡ ok a → f a w ≡ (ok b, v) → C)
      → C
  with_read wrap (ok a) w f h k = k a refl h
  with_read wrap (err e) w f h k = absurd (cc (ap (λ o. o.0) h))

  -- Applying the fields leaves the identifier and the configuration.
  apply_fields-kept :
      (input : UpdateRouteInput Config std) (r r' : Route Config)
      → apply_fields key_matches value_matches input r ≡ ok r'
      → (r'.id ≡ r.id) × (r'.config ≡ r.config)
  unfolding apply_fields
  apply_fields-kept input r r' h =
      with_bind (labels_of key_matches value_matches input.labels) _ h (λ labels e done.
        (ap (λ x. x.id) (sym (ok_inj done)), ap (λ x. x.config) (sym (ok_inj done))))

  finish-facts :
      (project : ℕ) (input : UpdateRouteInput Config std) (gated : Option Approval × Route Config)
      → (r : Route Config) (a : Approval) (w v : World)
      → finish_update service project input gated w
        ≡ (ok record { row = r; pending_approval = some a }, v)
      → (gated ≡ (some a, r))
        × ((persist_update_policies service r project input w).0 ≡ ok tt)
        × ((persist_update_policies service r project input w).1 ≡ v)
  finish-facts project input (none, r') r a w v h =
      absurd (cc (ap (λ x. x.pending_approval) (ok_inj (ap (λ o. o.0) h))))
  finish-facts project input (some b, r') r a w v h =
      with_step (persist_update_policies service r' project input w) _ h (λ u e h'.
        let wrote = ok_inj (ap (λ o. o.0) h') in
        let same = ap (λ x. x.row) wrote in
        (
          ap (λ x. (x.pending_approval, x.row)) wrote,
          subst (λ x. (persist_update_policies service x project input w).0 ≡ ok tt) same e,
          subst (λ x. (persist_update_policies service x project input w).1 ≡ v) same
              (ap (λ o. o.1) h'),
        ))

  -- What is stored once a change of the route `id` is submitted under the approval `a`, and the row
  -- `r` that the submission returned.
  pub record Submitted (id : ℕ) (input : UpdateRouteInput Config std) (w v : World) (a : Approval)
      (r : Route Config) : Type 0 where
    pub old : Route Config
    pub found : get_route id w ≡ ok old
    pub key : r.id ≡ id
    pub kept : r.config ≡ old.config
    pub waiting : r.status ≡ RouteStatus.pending_update
    pub stored : get_route id v ≡ ok r
    pub entity : a.entity_id ≡ id
    pub action : a.action ≡ ApprovalAction.update
    pub snapshot :
        a.config_snapshot
        ≡ some (marshal (proposed service (is_general service r.security_mode) input))
    pub policy :
        (sp : SecurityPolicyInput)
        → input.security ≡ some sp
        → security.get_by_route_id id v
          ≡ some (security_config text (is_general service r.security_mode) sp)

  submit_update-facts :
      (project user : ℕ) (input : UpdateRouteInput Config std) (snap : Snapshot Config std)
      → (old r0 r : Route Config) (a : Approval) (u w v : World) → get_route r0.id u ≡ ok old
      → r0.config ≡ old.config
      → submit_update service project input user snap r0 w
        ≡ (ok record { row = r; pending_approval = some a }, v)
      → Submitted r0.id input u v a r
  unfolding submit_update
  submit_update-facts project user input snap old r0 r a u w v found config h =
      with_step (begin_update service r0 w) _ h (λ r1 e1 h1.
        let w1 = (begin_update service r0 w).1 in
        let row = begun service laws r0 r1 w w1 (ap (λ x. (x, w1)) e1) in
        let spec =
          spec_of service project r1.id ApprovalAction.update user
            (proposed service (is_general service r1.security_mode) input)
            (some (record snap { waf = waf.get_by_route_id r1.id w1 })) input.ai_review
            input.change_description in
        let o =
          submit_approval service route_update_fast_path RouteStatus.pending_deploy r1 spec w1 in
        with_step o (finish_update service project input) h1 (λ gated e2 h2.
          let fin = finish-facts project input gated r a o.1 v h2 in
          let facts =
            submit_approval-facts route_update_fast_path RouteStatus.pending_deploy spec a r1 r w1
              o.1 (ap (λ x. (x, o.1)) e2 ∙ ap (λ g. (ok g, o.1)) fin.0) in
          let same = facts.0 ∙ row.0 in
          record {
            old = old;
            found = found;
            key = ap (λ x. x.id) same;
            kept = ap (λ x. x.config) same ∙ config;
            waiting = ap (λ x. x.status) same;
            stored =
                ap (λ x. get_route r0.id x) (sym fin.2)
                ∙ persist-routes service laws r project input o.1 r0.id
                ∙ facts.2 r0.id
                ∙ row.1
                ∙ ap (λ x. ok x) (sym facts.0);
            entity = facts.1.0 ∙ ap (λ x. x.id) row.0;
            action = facts.1.1;
            snapshot =
                facts.1.2
                ∙ ap
                    (λ x.
                      some (marshal (proposed service (is_general service x.security_mode) input)))
                    (sym facts.0);
            policy = λ sp e.
                ap (λ x. security.get_by_route_id r0.id x) (sym fin.2)
                ∙ ap
                    (λ n.
                      security.get_by_route_id n
                        (persist_update_policies service r project input o.1).1)
                    (sym (ap (λ x. x.id) same))
                ∙ persist-security service laws r project input o.1 fin.1 sp e;
          }))

  -- The whole of `Update`, once it returned a route with a pending approval.
  pub update-Submitted :
      (id user : ℕ) (input : UpdateRouteInput Config std) (r : Route Config) (a : Approval)
      → (w v : World)
      → update service id input user w ≡ (ok record { row = r; pending_approval = some a }, v)
      → Submitted id input w v a r
  unfolding update
  update-Submitted id user input r a w v h =
      with_read route_failure (get_route id w) w _ h (λ old found h1.
        with_step (validate_update text tables checks id old input w, w) _ h1
          (λ project e h2. with_unless (is_some (get_pending id w)) pending_exists w _ h2 (λ h3.
            with_step (apply_fields key_matches value_matches input old, w) _ h3
              (λ r0 applied h4.
                let kept = apply_fields-kept input old r0 applied in
                subst (λ n. Submitted n input w v a r) (kept.0 ∙ keyed id w old found)
                  (submit_update-facts project user input (current service old w) old r0 r a w w v
                    (ap (λ n. get_route n w) (kept.0 ∙ keyed id w old found) ∙ found) kept.1 h4)))))
