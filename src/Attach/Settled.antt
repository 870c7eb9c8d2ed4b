-- ===== src/Attach/Settled.antt =====
-- What the end of a request does to its attachment.
use backend_v.Base.Exec.{continue, with_step, unless-passed}
use backend_v.Base.{ok, Result, err, ℕ, ◌≡◌, refl, subst, true, not, arith}
use backend_v.Attach.Model.{
  AttachmentService, AttachError, AttachmentStatus, ClientRouteAttachment, rejected, active,
  same_status,
}
use backend_v.Attach.Laws.{AttachLaws}
use backend_v.Attach.Ending.{attachment_rejected}
use backend_v.Approval.Model.{Approval}
use backend_v.Attach.Service.{request_detach, found_attachment}

pub same_status-eq : (s t : AttachmentStatus) → same_status s t ≡ true → s ≡ t
same_status-eq s t h = ground arith

module _ (service : AttachmentService) (laws : AttachLaws service) where
  open service use {Config, ports, attachments, get_route, update_route}
  open ports use {World, create_approval, get_project}

  -- The attachment is stored with the status.
  abbrev pub IsStored : ℕ → AttachmentStatus → World → Type 0
  IsStored id s w =
      (a : ClientRouteAttachment) × (attachments.get_by_id id w ≡ ok a) × (a.status ≡ s)

  update-IsStored :
      (a : ClientRouteAttachment) (id : ℕ) (w : World)
      → a.id ≡ id
      → (attachments.update a w).0 ≡ ok tt
      → IsStored id a.status (attachments.update a w).1
  update-IsStored a id w e h = (
    a,
    subst (λ i. attachments.get_by_id i (attachments.update a w).1 ≡ ok a) e
        (laws.attachment_updated a w h),
    refl,
  )

  -- Rejecting or cancelling a request leaves its attachment rejected, also one that was active when
  -- its detachment was requested; the routes stay as they were.
  pub attachment_rejected-IsStored :
      (approval : Approval) (w : World)
      → (attachment_rejected service approval w).0 ≡ ok tt
      → IsStored approval.entity_id rejected (attachment_rejected service approval w).1
        × ((id : ℕ) → get_route id (attachment_rejected service approval w).1 ≡ get_route id w)
  unfolding attachment_rejected
  attachment_rejected-IsStored approval w = split (attachments.get_by_id approval.entity_id w) refl
    where
      split :
          (o : Result AttachError ClientRouteAttachment)
          → attachments.get_by_id approval.entity_id w ≡ o
          → (continue (o, w) (λ a. attachments.update (record a { status = rejected }))).0 ≡ ok tt
          → IsStored approval.entity_id rejected
              (continue (o, w) (λ a. attachments.update (record a { status = rejected }))).1
            × ((id : ℕ)
                → get_route id
                    (continue (o, w) (λ a. attachments.update (record a { status = rejected }))).1
                  ≡ get_route id w)
      split (err e) f h = absurd (cc h)
      split (ok a) f h = (
        update-IsStored (record a { status = rejected }) approval.entity_id w
            (laws.attachment_keyed approval.entity_id w a f) h,
        λ id. laws.update-routes (record a { status = rejected }) w id,
      )

  found_attachment-ok :
      (o : Result AttachError ClientRouteAttachment) (w : World) (a : ClientRouteAttachment)
      → (found_attachment service o w).0 ≡ ok a
      → o ≡ ok a
  found_attachment-ok (ok b) w a h = h
  found_attachment-ok (err e) w a h = absurd (cc h)

  -- A detach request is accepted for an active attachment only; when its approval is then rejected or
  -- cancelled, the attachment is not active again but rejected, and the routes stay as they are.
  pub rejected_detach :
      (id user : ℕ) (w v : World) (shown : ClientRouteAttachment) (approval : Approval)
      → request_detach service id user w ≡ (ok shown, v)
      → approval.entity_id ≡ id
      → (attachment_rejected service approval v).0 ≡ ok tt
      → IsStored id active w
        × (IsStored id rejected (attachment_rejected service approval v).1
            × ((i : ℕ) → get_route i (attachment_rejected service approval v).1 ≡ get_route i v))
  unfolding request_detach
  rejected_detach id user w v shown approval h e done =
      let s = attachment_rejected-IsStored approval v done in
      with_step (found_attachment service (attachments.get_by_id id w) w) _ h (λ a f h.
        let is_active = unless-passed (not (same_status a.status active)) _ _ _ h in
        (
          (
            a,
            found_attachment-ok (attachments.get_by_id id w) w a f,
            same_status-eq a.status active (ground (arith, is_active)),
          ),
          (subst (λ i. IsStored i rejected (attachment_rejected service approval v).1) e s.0, s.1),
        ))
