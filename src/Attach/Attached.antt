-- ===== src/Attach/Attached.antt =====
-- What an accepted attachment means where approvals are disabled.
use backend_v.Base.Exec.{with_step}
use backend_v.Base.{
  ◌==◌, err, ok, ok_inj, ℕ, ◌≡◌, refl, sym, ap, ◌∙◌, subst, ◌↔◌, ◌⊎◌, inl, inr, Bool, true, false,
  not, ◌&&◌, some,
}
use backend_v.Attach.Service.{moved, queue_now, attached_routes, transition}
use backend_v.Attach.Model.{
  AttachmentStatus, ClientRouteAttachment, Client, Credentials, AttachmentService,
}
use backend_v.Attach.Laws.{AttachLaws}
use backend_v.Route.Moved.{to_status-ok}
use backend_v.Route.Status.{Route, RouteStatus, TransitionSite}
use backend_v.Route.Machine.{to_status, Outcome}

pub implies_iff : (b d : Bool) → ((b && not d) ≡ false) ↔ (b ≡ true → d ≡ true)
implies_iff true true = (λ h e. refl, λ h. refl)
implies_iff true false = (λ h. absurd (cc h), λ h. absurd (cc (h refl)))
implies_iff false d = (λ h e. absurd (cc e), λ h. refl)

-- An address list, a key, a token or a certificate is asked for, and of these and the header check,
-- the client has each one that is enabled.
abbrev pub IsConfigured : Credentials → Client → Type 0
IsConfigured c client =
    ((c.enable_ip_allowlist ≡ true)
      ⊎ (c.enable_api_key ≡ true)
      ⊎ (c.enable_jwt ≡ true)
      ⊎ (c.enable_mtls ≡ true))
    × (c.enable_api_key ≡ true → client.api_key_enabled ≡ true)
    × (c.enable_jwt ≡ true → client.jwt_enabled ≡ true)
    × (c.enable_mtls ≡ true → client.mtls_enabled ≡ true)
    × (c.enable_ip_allowlist ≡ true → (client.ip_address_count == 0) ≡ false)
    × (c.enable_header_auth ≡ true → (client.header_count == 0) ≡ false)

module _ (service : AttachmentService) (laws : AttachLaws service) where
  open service use {Config, ports, attachments, get_route, update_route}
  open ports use {World, get_project}

  abbrev pub IsQueued : ℕ → World → Type 0
  IsQueued id w =
      (r : Route Config) × (get_route id w ≡ ok r) × (r.status ≡ RouteStatus.pending_deploy)

  moved-ok : (o : Outcome (attached_routes service)) → (moved service o).0 ≡ ok tt → o.0 ≡ ok tt
  moved-ok (ok tt, r, w) h = refl
  moved-ok (err e, r, w) h = absurd (cc h)

  moved-world : (o : Outcome (attached_routes service)) → (moved service o).1 ≡ o.2
  moved-world (ok a, r, w) = refl
  moved-world (err e, r, w) = refl

  transition-IsQueued :
      (site : TransitionSite) (r : Route Config) (w : World)
      → get_route r.id w ≡ ok r
      → (transition service site r RouteStatus.pending_deploy w).0 ≡ ok tt
      → IsQueued r.id (transition service site r RouteStatus.pending_deploy w).1
  unfolding transition
  transition-IsQueued site r w found h =
      let o = to_status (attached_routes service) site (some r) RouteStatus.pending_deploy w in
      subst (IsQueued r.id) (sym (moved-world o)) (
        split (
          to_status-ok (attached_routes service) site r RouteStatus.pending_deploy w
            (moved-ok o h)))
    where
      split :
          ((r.status ≡ RouteStatus.pending_deploy)
              × ((to_status (attached_routes service) site (some r) RouteStatus.pending_deploy w).2
                  ≡ w))
            ⊎ (((update_route (record r { status = RouteStatus.pending_deploy }) w).0 ≡ ok tt)
                × ((to_status
                      (attached_routes service)
                      site
                      (some r)
                      RouteStatus.pending_deploy
                      w).2
                    ≡ (update_route (record r { status = RouteStatus.pending_deploy }) w).1))
          → IsQueued r.id
              (to_status (attached_routes service) site (some r) RouteStatus.pending_deploy w).2
      split (inl (e, f)) = subst (IsQueued r.id) (sym f) (r, found, e)
      split (inr (e, f)) =
          let r' : Route Config = record r { status = RouteStatus.pending_deploy } in
          subst (IsQueued r.id) (sym f) (r', laws.route_updated r' w e, refl)

  -- The shared tail of the three operations without approvals: the route is queued, and the attachment
  -- is stored and answered with its status.
  pub queue_now-IsQueued :
      (site : TransitionSite) (r : Route Config) (s : AttachmentStatus) (a : ClientRouteAttachment)
      (w v : World) (shown : ClientRouteAttachment)
      → get_route r.id w ≡ ok r
      → queue_now service site r s a w ≡ (ok shown, v)
      → IsQueued r.id v
        × ((shown ≡ record a { status = s }) × (attachments.get_by_id a.id v ≡ ok shown))
  unfolding queue_now
  queue_now-IsQueued site r s a w v shown found h =
      with_step (transition service site r RouteStatus.pending_deploy w) _ h (λ u e h.
        let q = transition-IsQueued site r w found e in
        let w1 = (transition service site r RouteStatus.pending_deploy w).1 in
        let a' : ClientRouteAttachment = record a { status = s } in
        with_step (attachments.update a' w1) _ h (λ u e h.
          let stored = laws.attachment_updated a' w1 e in
          let same : (attachments.update a' w1).1 ≡ v = ap (λ o. o.1) h in
          let answered : attachments.get_by_id a.id (attachments.update a' w1).1 ≡ ok shown =
            ap (λ o. o.0) h in
          (
            subst (IsQueued r.id) same (q.0, laws.update-routes a' w1 r.id ∙ q.1, q.2),
            (
              ok_inj (sym answered ∙ stored),
              subst (λ x. attachments.get_by_id a.id x ≡ ok shown) same answered,
            ),
          )))
