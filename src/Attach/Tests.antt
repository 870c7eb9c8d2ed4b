-- ===== src/Attach/Tests.antt =====
-- The theorems on attachments at a database of one route and one attachment.
use backend_v.Attach.Samples.{
  Site, write_line, attaching, for_clients, asked_for, keyed_only, attached, holding, laws,
  detaches, settles,
}
use backend_v.Base.{
  ok, Result, ℕ, Bool, true, false, none, some, [], ◌∷◌, ok_inj, ◌≡◌, refl, sym, ap, List,
}
use backend_v.Approval.Model.{ApprovalAction}
use backend_v.Route.Status.{RouteStatus, Route}
use backend_v.Route.Machine.{try_targets, to_status, write_status, by_site}
use backend_v.Route.Table.{legal_transitions}
use backend_v.Attach.Model.{
  AttachmentStatus, AttachFromRouteInput, AttachError, Client, ClientRouteAttachment,
}
use backend_v.Attach.Checks.{validate_keys, validate_rest}
use backend_v.Attach.Service.{
  attach_from_route, validate_attach, validate_mtls_pairing, queue_now, finish_attach, transition,
}
use backend_v.Attach.Ending.{attachment_rejected}
use backend_v.Attach.Cascade.{cascade_to_attached_routes, fan_out, cascade_one}
use backend_v.Attach.Queued.{cascade_queues, Cascaded}
use backend_v.Attach.Settled.{rejected_detach, IsStored}
use backend_v.Attach.Attached.{IsConfigured}
use backend_v.Attach.FastAttach.{attach_from_route-IsAttached, IsAttached}

abbrev one_row : Site → Result AttachError (List ClientRouteAttachment)
one_row w = ok (attached AttachmentStatus.active ∷ [])

cascaded :
    (cascade_to_attached_routes
      (attaching false)
      one_row
      (holding (some (attached AttachmentStatus.active)))).0
    ≡ ok tt
unfolding cascade_to_attached_routes fan_out cascade_one transition to_status legal_transitions
    write_status by_site try_targets
cascaded = refl

cascade_queues_example :
    let before = holding (some (attached AttachmentStatus.active)) in
    (found : List ClientRouteAttachment) × (one_row before ≡ ok found)
    × Cascaded
        (attaching false)
        (laws false)
        found
        before
        (cascade_to_attached_routes (attaching false) one_row before).1
cascade_queues_example =
    cascade_queues (attaching false) (laws false) one_row
      (holding (some (attached AttachmentStatus.active))) cascaded

detach_refused :
    let pending = holding (some (attached AttachmentStatus.pending_detach)) in
    let after =
      (attachment_rejected (attaching true) (asked_for ApprovalAction.detach) pending).1 in
    IsStored
      (attaching true)
      (laws true)
      0
      AttachmentStatus.active
      (holding (some (attached AttachmentStatus.active)))
    × (IsStored (attaching true) (laws true) 0 AttachmentStatus.rejected after
        × ((i : ℕ) → (attaching true).get_route i after ≡ (attaching true).get_route i pending))
detach_refused =
    rejected_detach (attaching true) (laws true) 0 5
      (holding (some (attached AttachmentStatus.active)))
      (holding (some (attached AttachmentStatus.pending_detach)))
      (attached AttachmentStatus.pending_detach) (asked_for ApprovalAction.detach) detaches refl
      settles

abbrev with_key : AttachFromRouteInput
with_key = record { client_id = 4; credentials = keyed_only }

abbrev queued_line : Site
queued_line =
    write_line (for_clients RouteStatus.pending_deploy)
      (holding (some (attached AttachmentStatus.pending_attach)))

attaches : attach_from_route (attaching false) 1 with_key 5 (holding none) ≡ (
  ok (attached AttachmentStatus.approved),
  record queued_line { row = some (attached AttachmentStatus.approved) },
)
unfolding attach_from_route validate_attach validate_keys validate_rest validate_mtls_pairing
    finish_attach queue_now transition to_status legal_transitions write_status by_site try_targets
attaches = refl

attach_from_route-IsAttached_example :
    ((client : Client) × ((attaching false).get_client 4 (holding none) ≡ some client)
      × IsConfigured keyed_only client)
    × ((r : Route Bool) × (d : ℕ) × ((attaching false).get_route 1 (holding none) ≡ ok r)
        × ((r.domain_id ≡ some d)
            × (keyed_only.enable_mtls ≡ true
                → (attaching false).domain_mtls d (holding none) ≡ true)))
    × IsAttached
        (attaching false)
        (laws false)
        1
        keyed_only
        (attached AttachmentStatus.approved)
        (record queued_line { row = some (attached AttachmentStatus.approved) })
attach_from_route-IsAttached_example =
    attach_from_route-IsAttached (attaching false) (laws false) 1 5 with_key (holding none)
      (record queued_line { row = some (attached AttachmentStatus.approved) })
      (attached AttachmentStatus.approved)
      (λ n w p e. ap (λ x. x.approval_enabled) (sym (ok_inj e))) attaches
