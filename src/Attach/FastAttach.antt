-- ===== src/Attach/FastAttach.antt =====
-- What an accepted `AttachFromRoute` means where approvals are disabled.
use backend_v.Base.Exec.{◌>>=◌, continue, with_step, with_unless}
use backend_v.Base.{
  if◌then◌else◌, Result, ok, ok_inj, err, ℕ, ◌≡◌, refl, sym, ap, ◌∙◌, subst, Bool, true, false,
  Option, none, some,
}
use backend_v.Attach.Service.{
  present, queue_now, found_route, finish_attach, validate_attach, store_attachment, submit_for,
  attach_from_route,
}
use backend_v.Attach.Checks.{is_taken, is_general}
use backend_v.Attach.Model.{
  ClientRouteAttachment, Client, approval_failure, AttachmentService, approved, pending_attach,
  Credentials, refused, AttachFromRouteInput,
}
use backend_v.Attach.Laws.{AttachLaws}
use backend_v.Attach.Attached.{queue_now-IsQueued, IsQueued, IsConfigured}
use backend_v.Approval.Ports.{ApprovalError}
use backend_v.Approval.Model.{ApprovalAction, Project}
use backend_v.Write.Tables.{wrapped}
use backend_v.Route.Status.{Route, TransitionSite}
use backend_v.Attach.Configured.{present-some, found_route-ok, validate_attach-IsConfigured}

module _ (service : AttachmentService) (laws : AttachLaws service) where
  open service use {
    Config, std, text, ports, attachments, get_client, get_route, domain_project, domain_mtls,
  }
  open ports use {World, get_project}

  -- The row that is written has the submitted credentials, and no route is touched.
  store_attachment-credentials :
      (o : Option ClientRouteAttachment) (client route user : ℕ) (c : Credentials) (w v : World)
      (a : ClientRouteAttachment)
      → store_attachment service o client route c user w ≡ (ok a, v)
      → (a.credentials ≡ c) × ((id : ℕ) → get_route id v ≡ get_route id w)
  store_attachment-credentials none client route user c w v a h =
      let row : ClientRouteAttachment = record {
        id = 0;
        client_id = client;
        route_id = route;
        credentials = c;
        status = pending_attach;
        created_by = user;
      } in
      (
        ap (λ x. x.credentials) (laws.created row a w (ap (λ o. o.0) h)),
        λ id.
            subst (λ x. get_route id x ≡ get_route id w) (ap (λ o. o.1) h)
              (laws.create-routes row w id),
      )
  store_attachment-credentials (some b) client route user c w v a h =
      let row : ClientRouteAttachment = record b {
        credentials = c;
        status = pending_attach;
        created_by = user;
      } in
      with_step (attachments.update row w) _ h (λ u e h. (
        sym (ap (λ x. x.credentials) (ok_inj (ap (λ o. o.0) h))),
        λ id.
            subst (λ x. get_route id x ≡ get_route id w) (ap (λ o. o.1) h)
              (laws.update-routes row w id),
      ))

  -- What a fast attachment leaves: the route is queued, and the attachment is approved.
  abbrev pub IsAttached : ℕ → Credentials → ClientRouteAttachment → World → Type 0
  IsAttached route_id c shown v =
      IsQueued service laws route_id v
      × ((shown.status ≡ approved)
          × ((shown.credentials ≡ c) × (attachments.get_by_id shown.id v ≡ ok shown)))

  finish_attach-IsAttached :
      (site : TransitionSite) (r : Route Config) (project user : ℕ) (a : ClientRouteAttachment)
      (w v : World) (shown : ClientRouteAttachment)
      → ((w : World) (p : Project) → get_project project w ≡ ok p → p.approval_enabled ≡ false)
      → get_route r.id w ≡ ok r
      → finish_attach service site r project user a w ≡ (ok shown, v)
      → IsAttached r.id a.credentials shown v
  unfolding finish_attach
  finish_attach-IsAttached site r project user a w v shown disabled found h =
      project-read (get_project project w) refl h
    where
      answered :
          (b : Bool)
          → b ≡ false
          → (if b
                then submit_for service project ApprovalAction.attach user a
                else queue_now service site r approved a)
              w
            ≡ (ok shown, v)
          → IsAttached r.id a.credentials shown v
      answered true e h = absurd (cc e)
      answered false e h =
          let (q, (s, stored)) =
            queue_now-IsQueued service laws site r approved a w v shown found h in
          (
            q,
            (
              ap (λ x. x.status) s,
              (
                ap (λ x. x.credentials) s,
                subst (λ i. attachments.get_by_id i v ≡ ok shown) (sym (ap (λ x. x.id) s)) stored,
              ),
            ),
          )

      project-read :
          (o : Result ApprovalError Project)
          → get_project project w ≡ o
          → continue (wrapped approval_failure (o, w)) (λ p.
            if p.approval_enabled
            then submit_for service project ApprovalAction.attach user a
            else queue_now service site r approved a)
            ≡ (ok shown, v)
          → IsAttached r.id a.credentials shown v
      project-read (ok p) f h = answered p.approval_enabled (disabled w p f) h
      project-read (err e) f h = absurd (cc (ap (λ o. o.0) h))

  -- The same from the checks on, at a route that is stored.
  stored-IsAttached :
      (site : TransitionSite) (r : Route Config) (d client user : ℕ) (c : Credentials)
      (existing : Option ClientRouteAttachment) (w v : World) (shown : ClientRouteAttachment)
      → ((n : ℕ) (w : World) (p : Project) → get_project n w ≡ ok p → p.approval_enabled ≡ false)
      → get_route r.id w ≡ ok r
      → (do
        project ← λ w. present service "domain not found" (domain_project d w) w
        a ← store_attachment service existing client r.id c user
        finish_attach service site r project user a)
          w
        ≡ (ok shown, v)
      → IsAttached r.id c shown v
  stored-IsAttached site r d client user c existing w v shown disabled found h =
      with_step (present service "domain not found" (domain_project d w) w) _ h (λ project e h.
        let w1 = (present service "domain not found" (domain_project d w) w).1 in
        let same =
          (present-some service "domain not found" (domain_project d w) w w1 project
            (λ i. (e i, w1))).1 in
        let row = store_attachment service existing client r.id c user w1 in
        with_step row _ h (λ a e h.
          let (creds, kept) =
            store_attachment-credentials existing client r.id user c w1 row.1 a
              (λ i. (e i, row.1)) in
          let found' : get_route r.id row.1 ≡ ok r =
            kept r.id ∙ (ap (get_route r.id) (sym same) ∙ found) in
          subst (λ c. IsAttached r.id c shown v) creds
            (finish_attach-IsAttached site r project user a row.1 v shown (disabled project) found'
              h)))

  -- In projects whose approvals are disabled, an accepted attachment from the route's side is for a
  -- client that is stored, with an address list, an API key, JWT or mTLS asked for, and with each
  -- of these and the header check configured at the client if it is enabled (basic authentication is
  -- not looked at); the route is stored and has a domain, with mTLS enabled there if it is enabled for the
  -- attachment. The attachment is stored as approved with the submitted credentials, and its route
  -- is queued for a deploy.
  pub attach_from_route-IsAttached :
      (route_id user : ℕ) (input : AttachFromRouteInput) (w v : World)
      (shown : ClientRouteAttachment)
      → ((n : ℕ) (w : World) (p : Project) → get_project n w ≡ ok p → p.approval_enabled ≡ false)
      → attach_from_route service route_id input user w ≡ (ok shown, v)
      → ((client : Client) × (get_client input.client_id w ≡ some client)
          × IsConfigured input.credentials client)
        × ((r : Route Config) × (d : ℕ) × (get_route route_id w ≡ ok r)
            × ((r.domain_id ≡ some d)
                × (input.credentials.enable_mtls ≡ true → domain_mtls d w ≡ true)))
        × IsAttached route_id input.credentials shown v
  unfolding attach_from_route
  attach_from_route-IsAttached route_id user input w v shown disabled h =
      with_step (present service "client not found" (get_client input.client_id w) w) _ h
        (λ client e h.
          let w1 = (present service "client not found" (get_client input.client_id w) w).1 in
          let (have, same1) =
            present-some service "client not found" (get_client input.client_id w) w w1 client
              (λ i. (e i, w1)) in
          with_step (found_route service (get_route route_id w1) w1) _ h (λ r e h.
            let w2 = (found_route service (get_route route_id w1) w1).1 in
            let (stored, same2) =
              found_route-ok service (get_route route_id w1) w1 w2 r (λ i. (e i, w2)) in
            let keyed = laws.route_keyed route_id w1 r stored in
            with_unless (is_general r.security_mode) (refused "general security mode") w2 _ h (λ h.
              let existing = attachments.get_by_client_and_route client.id r.id w2 in
              with_unless (is_taken existing) (refused "client is already attached") w2 _ h (λ h.
                with_step (validate_attach service input.credentials client r.domain_id w2) _ h
                  (λ d e h.
                    let w3 = (validate_attach service input.credentials client r.domain_id w2).1 in
                    let (configured, (owned, paired), same3) =
                      validate_attach-IsConfigured service input.credentials client r.domain_id w2
                        w3 d (λ i. (e i, w3)) in
                    let found : get_route r.id w3 ≡ ok r =
                      subst (λ i. get_route i w3 ≡ ok r) (sym keyed)
                        (ap (get_route route_id) (sym (same2 ∙ same3)) ∙ stored) in
                    (
                      (client, have, configured),
                      (
                        r,
                        d,
                        ap (get_route route_id) same1 ∙ stored,
                        (owned, λ e. ap (domain_mtls d) (same1 ∙ same2) ∙ paired e),
                      ),
                      subst (λ i. IsAttached i input.credentials shown v) keyed
                          (stored-IsAttached TransitionSite.attach_from_route r d client.id user
                            input.credentials existing w3 v shown disabled found h),
                    ))))))
