-- ===== src/Attach/Fanned.antt =====
-- What one cascade does to a route, as relations of the databases before and after it.
use backend_v.Base.{ok, ok_inj, ℕ, ◌≡◌, sym, ap, ◌∙◌, ◌≢◌, ◌⊎◌, inl, inr}
use backend_v.Attach.Model.{AttachmentService}
use backend_v.Route.Status.{Route, RouteStatus}

module _ (service : AttachmentService) where
  open service use {Config, ports, get_route}
  open ports use {World}

  -- A route as the cascade queues it.
  abbrev pub redeployed : Route Config → Route Config
  redeployed r = record r { status = RouteStatus.pending_deploy }

  -- The route is active in the first database and queued in the second, its other fields kept.
  abbrev pub Queues : ℕ → World → World → Type 0
  Queues id w v =
      (r : Route Config) × (get_route id w ≡ ok r)
      × ((r.status ≡ RouteStatus.active) × (get_route id v ≡ ok (redeployed r)))

  -- The route reads the same in the two databases, or it is queued between them.
  abbrev pub Follows : ℕ → World → World → Type 0
  Follows id w v = (get_route id v ≡ get_route id w) ⊎ Queues id w v

  -- The route is stored: it is queued between the databases if it is active in the first, and keeps its
  -- row otherwise.
  abbrev pub IsCascaded : ℕ → World → World → Type 0
  IsCascaded id w v =
      (r : Route Config) × (get_route id w ≡ ok r)
      × (((r.status ≡ RouteStatus.active) × (get_route id v ≡ ok (redeployed r)))
          ⊎ ((r.status ≢ RouteStatus.active) × (get_route id v ≡ ok r)))

  -- A queued route is not queued a second time.
  queued_once :
      {id : ℕ} {u v : World} (r : Route Config)
      → r.status ≢ RouteStatus.active
      → get_route id u ≡ ok r
      → Follows id u v
      → get_route id v ≡ ok r
  queued_once r n read (inl same) = same ∙ read
  queued_once r n read (inr (s, found, (e, later))) =
      absurd (n (ap (λ x. x.status) (ok_inj (sym read ∙ found)) ∙ e))

  pub Follows-Follows : {id : ℕ} {w u v : World} → Follows id w u → Follows id u v → Follows id w v
  Follows-Follows (inl p) (inl q) = inl (q ∙ p)
  Follows-Follows (inl p) (inr (r, found, h)) = inr (r, sym p ∙ found, h)
  Follows-Follows (inr (r, found, (e, read))) q =
      inr (r, found, (e, queued_once (redeployed r) (λ x. cc x) read q))

  pub IsCascaded-after :
      {id : ℕ} {w u v : World} → IsCascaded id w u → Follows id u v → IsCascaded id w v
  IsCascaded-after (r, found, inl (e, read)) q =
      (r, found, inl (e, queued_once (redeployed r) (λ x. cc x) read q))
  IsCascaded-after (r, found, inr (n, read)) q = (r, found, inr (n, queued_once r n read q))

  pub IsCascaded-before :
      {id : ℕ} {w u v : World} → Follows id w u → IsCascaded id u v → IsCascaded id w v
  IsCascaded-before (inl p) (r, found, h) = (r, sym p ∙ found, h)
  IsCascaded-before (inr (r, found, (e, read))) (s, again, inl (active, last)) =
      absurd (cc (ap (λ x. x.status) (ok_inj (sym read ∙ again)) ∙ active))
  IsCascaded-before (inr (r, found, (e, read))) (s, again, inr (n, last)) =
      (r, found, inl (e, last ∙ sym again ∙ read))
