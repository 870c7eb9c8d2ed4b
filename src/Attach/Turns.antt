-- ===== src/Attach/Turns.antt =====
-- What the turn of one attachment does in the cascade of a changed client (client_cascade.go).
use backend_v.Base.{
  arith, Bool-cases, ◌==◌, ==_iff, false_iff, ok, Result, err, ℕ, ◌≡◌, refl, sym, ap, ◌∙◌, subst,
  ◌⊎◌, inl, inr, true, false, some, List, [],
}
use backend_v.Attach.Service.{transition, moved, attached_routes}
use backend_v.Attach.Model.{ClientRouteAttachment, same_status, active, AttachmentService}
use backend_v.Attach.Fanned.{redeployed, Queues, IsCascaded}
use backend_v.Attach.Cascade.{queued, queue_route, cascade_one}
use backend_v.Attach.Laws.{AttachLaws}
use backend_v.Route.Lifecycle.{status_eq-eq, to_status-Legal}
use backend_v.Route.Status.{status_eq, TransitionSite, Route, RouteStatus}
use backend_v.Route.Machine.{RouteError}
use backend_v.Route.Legal.{Legal, by_cascade, redeploy}

module _ (service : AttachmentService) (laws : AttachLaws service) where
  open service use {Config, ports, get_route, update_route}
  open ports use {World}

  -- One attachment's turn leaves a route, or it is the attachment's own and is queued.
  abbrev pub Turn : (active_one : Type 0) → ℕ → ℕ → World → World → Type 0
  Turn active_one id i w v =
      (get_route i v ≡ get_route i w) ⊎ ((i ≡ id) × active_one × Queues service i w v)

  -- The write of a queued route.
  update-Turn :
      (r : Route Config) (w : World) (id i : ℕ)
      → get_route id w ≡ ok r
      → r.status ≡ RouteStatus.active
      → (update_route (redeployed service r) w).0 ≡ ok tt
      → Turn (Unit {0}) id i w (update_route (redeployed service r) w).1
  update-Turn r w id i found e written = split (Bool-cases (i == r.id))
    where
      keyed : r.id ≡ id
      keyed = laws.route_keyed id w r found

      split :
          ((i == r.id) ≡ true) ⊎ ((i == r.id) ≡ false)
          → Turn (Unit {0}) id i w (update_route (redeployed service r) w).1
      split (inl same) =
          let is_r : i ≡ r.id = (==_iff i r.id).0 same in
          inr (
            is_r ∙ keyed,
            tt,
            (
              r,
              ap (λ n. get_route n w) (is_r ∙ keyed) ∙ found,
              (
                e,
                ap (λ n. get_route n (update_route (redeployed service r) w).1) is_r
                    ∙ laws.route_updated (redeployed service r) w written,
              ),
            ),
          )
      split (inr differ) = inl (
          laws.other_routes (redeployed service r) w i
            ((false_iff (i == r.id) (==_iff i r.id)).0 differ))

  -- An attachment whose turn ends without a failure.
  abbrev pub Done : (active_one : Type 0) → ℕ → List ℕ × World → World → Type 0
  Done active_one id o w =
      o.0 ≡ [] → ((i : ℕ) → Turn active_one id i w o.1) × (active_one → IsCascaded service id w o.1)

  queued-Done :
      (r : Route Config) (w : World) (id : ℕ)
      → get_route id w ≡ ok r
      → r.status ≡ RouteStatus.active
      → Done Unit id
          (queued service r.id
            (transition service TransitionSite.client_cascade r RouteStatus.pending_deploy w))
          w
  unfolding transition
  queued-Done r w id found e =
      rw
        (to_status-Legal (attached_routes service) TransitionSite.client_cascade r
          RouteStatus.pending_deploy w
          (subst (λ s. Legal TransitionSite.client_cascade s RouteStatus.pending_deploy) (sym e)
            (redeploy by_cascade)))
        (split (update_route (redeployed service r) w) refl)
    where
      split :
          (o : Result RouteError (Unit {0}) × World)
          → update_route (redeployed service r) w ≡ o
          → Done Unit id
              (queued service r.id (moved service (o.0, some (redeployed service r), o.1)))
              w
      split (ok tt, v) f h =
          let written = ap (λ x. x.0) f in
          let at : get_route id (update_route (redeployed service r) w).1
              ≡ ok (redeployed service r) =
            subst
              (λ n.
                get_route n (update_route (redeployed service r) w).1 ≡ ok (redeployed service r))
              (laws.route_keyed id w r found)
              (laws.route_updated (redeployed service r) w written) in
          subst (λ x. ((i : ℕ) → Turn (Unit {0}) id i w x) × (Unit {0} → IsCascaded service id w x))
            (ap (λ x. x.1) f)
            ((λ i. update-Turn r w id i found e written), (λ u. (r, found, inl (e, at))))
      split (err x, v) f h = absurd (cc h)

  queue_route-Done :
      (o : Result RouteError (Route Config)) (w : World) (id : ℕ)
      → get_route id w ≡ o
      → Done Unit id (queue_route service id o w) w
  queue_route-Done (err e) w id f = λ h. absurd (cc h)
  queue_route-Done (ok r) w id f = split (Bool-cases (status_eq r.status RouteStatus.active))
    where
      split :
          (status_eq r.status RouteStatus.active ≡ true)
            ⊎ (status_eq r.status RouteStatus.active ≡ false)
          → Done Unit id (queue_route service id (ok r) w) w
      split (inl e) = rw e (queued-Done r w id f (status_eq-eq r.status RouteStatus.active e))
      split (inr e) = rw e (λ h. ((λ i. inl refl), (λ u. (r, f, inr ((λ x. cc (e, x)), f)))))

  pub cascade_one-Done :
      (a : ClientRouteAttachment) (w : World)
      → Done (a.status ≡ active) a.route_id (cascade_one service a w) w
  unfolding cascade_one
  cascade_one-Done a w = split (Bool-cases (same_status a.status active))
    where
      split :
          (same_status a.status active ≡ true) ⊎ (same_status a.status active ≡ false)
          → Done (a.status ≡ active) a.route_id (cascade_one service a w) w
      split (inl e) = rw e (λ h.
          let d = queue_route-Done (get_route a.route_id w) w a.route_id refl h in
          let is_active : a.status ≡ active = ground (arith, e) in
          (
            λ i. elim (d.0 i) [ inl same ↦ inl same | inr (own, u, q) ↦ inr (own, is_active, q) ],
            λ x. d.1 tt,
          ))
      split (inr e) = rw e (λ h. ((λ i. inl refl), (λ x. absurd (cc (e, x)))))
