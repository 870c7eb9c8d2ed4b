-- ===== src/Attach/Laws.antt =====
-- What the theorems on attachments rely on of the repositories: a write that succeeds is read back,
-- and it leaves the other rows and tables alone.
use backend_v.Base.{ok, ℕ, ◌≡◌, ◌≢◌}
use backend_v.Attach.Model.{ClientRouteAttachment, AttachmentService}
use backend_v.Approval.Model.{Approval}
use backend_v.Route.Status.{Route}

module _ (service : AttachmentService) where
  open service use {Config, ports, attachments, get_route, update_route}
  open ports use {World, create_approval}

  pub record AttachLaws : Type 0 where
    pub route_keyed : (id : ℕ) (w : World) (r : Route Config) → get_route id w ≡ ok r → r.id ≡ id
    pub route_updated :
        (r : Route Config) (w : World)
        → (update_route r w).0 ≡ ok tt
        → get_route r.id (update_route r w).1 ≡ ok r
    pub other_routes :
        (r : Route Config) (w : World) (id : ℕ)
        → id ≢ r.id
        → get_route id (update_route r w).1 ≡ get_route id w
    pub attachment_keyed :
        (id : ℕ) (w : World) (a : ClientRouteAttachment)
        → attachments.get_by_id id w ≡ ok a
        → a.id ≡ id
    pub attachment_updated :
        (a : ClientRouteAttachment) (w : World)
        → (attachments.update a w).0 ≡ ok tt
        → attachments.get_by_id a.id (attachments.update a w).1 ≡ ok a
    pub update-routes :
        (a : ClientRouteAttachment) (w : World) (id : ℕ)
        → get_route id (attachments.update a w).1 ≡ get_route id w
    pub create-routes :
        (a : ClientRouteAttachment) (w : World) (id : ℕ)
        → get_route id (attachments.create a w).1 ≡ get_route id w
    pub created :
        (a b : ClientRouteAttachment) (w : World)
        → (attachments.create a w).0 ≡ ok b
        → b ≡ record a { id = b.id }
    pub submit-attachments :
        (a : Approval) (w : World) (id : ℕ)
        → attachments.get_by_id id (create_approval a w).1 ≡ attachments.get_by_id id w
