-- ===== src/Attach/Queued.antt =====
-- What the cascade of a changed client makes of each route (client_cascade.go).
use backend_v.Base.{
  All, append-nil, ok, Result, err, ℕ, ◌≡◌, refl, sym, ◌∙◌, subst, ◌≢◌, inl, inr, List, [], ◌∷◌,
}
use backend_v.Attach.Model.{ClientRouteAttachment, active, AttachmentService, AttachError}
use backend_v.Attach.Turns.{Turn, cascade_one-Done}
use backend_v.Attach.Fanned.{
  Follows, IsCascaded, Follows-Follows, IsCascaded-after, IsCascaded-before,
}
use backend_v.Attach.Cascade.{
  cascade_listed, fan_out, cascade_one, joined, cascade_to_attached_routes,
}
use backend_v.Attach.Laws.{AttachLaws}

module _ (service : AttachmentService) (laws : AttachLaws service) where
  open service use {Config, ports, get_route, update_route}
  open ports use {World}

  Turn-Follows :
      {P : Type 0} {id i : ℕ} {w v : World} → Turn service laws P id i w v → Follows service i w v
  Turn-Follows (inl same) = inl same
  Turn-Follows (inr (own, u, q)) = inr q

  fan_out-Follows :
      (found : List ClientRouteAttachment) (w : World)
      → (fan_out service found w).0 ≡ []
      → (i : ℕ) → Follows service i w (fan_out service found w).1
  unfolding fan_out
  fan_out-Follows [] w h i = inl refl
  fan_out-Follows (a ∷ rest) w h i =
      let first = cascade_one service a w in
      let both = append-nil first.0 (fan_out service rest first.1).0 h in
      Follows-Follows service (Turn-Follows ((cascade_one-Done service laws a w both.0).0 i))
        (fan_out-Follows rest first.1 both.1 i)

  -- A route without an active attachment among those listed.
  abbrev pub IsSpared : List ClientRouteAttachment → ℕ → Type 0
  IsSpared found i = All (λ a. a.status ≡ active → i ≢ a.route_id) found

  fan_out-spares :
      (found : List ClientRouteAttachment) (w : World) (i : ℕ)
      → IsSpared found i
      → (fan_out service found w).0 ≡ []
      → get_route i (fan_out service found w).1 ≡ get_route i w
  unfolding fan_out
  fan_out-spares [] w i n h = refl
  fan_out-spares (a ∷ rest) w i n h =
      let first = cascade_one service a w in
      let both = append-nil first.0 (fan_out service rest first.1).0 h in
      fan_out-spares rest first.1 i n.1 both.1
      ∙ elim ((cascade_one-Done service laws a w both.0).0 i) [
        | inl same ↦ same
        | inr (own, e, q) ↦ absurd (n.0 e own)
      ]

  -- The same for the listed attachments, counted from a database before the fan-out.
  fan_out-cascades :
      (w0 : World) (found : List ClientRouteAttachment) (w : World)
      → ((i : ℕ) → Follows service i w0 w)
      → (fan_out service found w).0 ≡ []
      → All
          (λ a. a.status ≡ active → IsCascaded service a.route_id w0 (fan_out service found w).1)
          found
  unfolding fan_out
  fan_out-cascades w0 [] w start h = tt
  fan_out-cascades w0 (a ∷ rest) w start h =
      let first = cascade_one service a w in
      let both = append-nil first.0 (fan_out service rest first.1).0 h in
      let d = cascade_one-Done service laws a w both.0 in
      (
        λ e.
            IsCascaded-before service (start a.route_id)
              (IsCascaded-after service (d.1 e) (fan_out-Follows rest first.1 both.1 a.route_id)),
        fan_out-cascades w0 rest first.1
            (λ i. Follows-Follows service (start i) (Turn-Follows (d.0 i))) both.1,
      )

  -- What a cascade leaves, by the attachments it went through.
  abbrev pub Cascaded : List ClientRouteAttachment → World → World → Type 0
  Cascaded found w v =
      All (λ a. a.status ≡ active → IsCascaded service a.route_id w v) found
      × ((i : ℕ) → IsSpared found i → get_route i v ≡ get_route i w)

  -- When the cascade of a changed client returns without an error, the route of each of its active
  -- attachments is stored: if it was active before the cascade, its row is now the same one with
  -- status pending_deploy, and otherwise the row is what it was (so a route with a request in flight
  -- is not queued). Every other route reads as before.
  pub cascade_queues :
      (list : World → Result AttachError (List ClientRouteAttachment)) (w : World)
      → (cascade_to_attached_routes service list w).0 ≡ ok tt
      → (found : List ClientRouteAttachment) × (list w ≡ ok found)
        × Cascaded found w (cascade_to_attached_routes service list w).1
  unfolding cascade_to_attached_routes
  cascade_queues list w = split (list w) refl
    where
      joined-nil :
          (o : List ℕ × World)
          → (joined service o).0 ≡ ok tt
          → (o.0 ≡ []) × ((joined service o).1 ≡ o.1)
      joined-nil ([], v) h = (refl, refl)
      joined-nil (id ∷ ids, v) h = absurd (cc h)

      split :
          (o : Result AttachError (List ClientRouteAttachment))
          → list w ≡ o
          → (cascade_listed service o w).0 ≡ ok tt
          → (found : List ClientRouteAttachment) × (o ≡ ok found)
            × Cascaded found w (cascade_listed service o w).1
      split (err e) f h = absurd (cc h)
      split (ok found) f h =
          let (none_failed, same) = joined-nil (fan_out service found w) h in
          (
            found,
            refl,
            subst (Cascaded found w) (sym same) (
              fan_out-cascades w found w (λ i. inl refl) none_failed,
              λ i n. fan_out-spares found w i n none_failed,
            ),
          )
