-- ===== src/Deploy/Removed.antt =====
-- That a deploy removes the client whose detachment was refused.
use backend_v.Base.{
  if◌then◌else◌, is_nil, any, same_bytes, same_bytes-eq, keep_if, All, All-map, All-append,
  All-keep, Result, ok, err, ok_inj, ℕ, String, Bool, true, false, not, ◌&&◌, List, [], ◌∷◌, ◌++◌,
  map, ◌≡◌, ◌≢◌, refl, sym, ap, ◌∙◌,
}
use backend_v.Attach.Model.{
  AttachmentService, AttachmentStatus, ClientRouteAttachment, active, approved, rejected,
}
use backend_v.Attach.Laws.{AttachLaws}
use backend_v.Attach.Service.{request_detach}
use backend_v.Attach.Ending.{attachment_rejected}
use backend_v.Attach.Settled.{rejected_detach, IsStored}
use backend_v.Approval.Model.{Approval}
use backend_v.Route.Status.{Route}
use backend_v.Deploy.Model.{Domain}
use backend_v.Deploy.Names.{Name, extract_client_prefix, is_per_client_resource}
use backend_v.Deploy.Stale.{ClusterApi, Kind, is_stale}
use backend_v.Deploy.Cleaned.{ClusterLaws, Cleaned, cleanup-Cleaned, swept_kinds}
use backend_v.Deploy.Clients.{
  ClientCluster, or_empty, has_own_route, prefix_of, expected_client_prefixes, cleanup_stale,
  cleanup_active,
}

module _ {W K : Type 0} (clients : ClientCluster W K) (p : Name) where
  -- A prefix that no attachment has is not expected.
  prefixes-apart :
      (found : List ClientRouteAttachment)
      → All (λ b. prefix_of clients b ≢ p) found
      → any (same_bytes p) (expected_client_prefixes clients found) ≡ false
  prefixes-apart [] h = refl
  prefixes-apart (b ∷ found) h =
      split (has_own_route b) (same_bytes p (prefix_of clients b)) refl (prefixes-apart found h.1)
    where
      split :
          (own same : Bool)
          → same_bytes p (prefix_of clients b) ≡ same
          → any (same_bytes p) (expected_client_prefixes clients found) ≡ false
          → any (same_bytes p) (
              map
                (prefix_of clients)
                (if own then b ∷ keep_if has_own_route found else keep_if has_own_route found))
            ≡ false
      split true true e rest = absurd (h.0 (sym (same_bytes-eq p (prefix_of clients b) e)))
      split true false e rest = rw e rest
      split false same e rest = rest

module _ {K : Type 0} (api : ClusterApi K) (ns : String) (route : ℕ) where
  -- No resource of the kind is left of the client with the prefix.
  abbrev pub IsRemoved : Name → Name → Kind → K → Type 0
  IsRemoved base p kind k =
      (names : List Name) × (api.list kind ns route k ≡ ok names)
      × All (λ m. extract_client_prefix m base ≢ p) names

  kept-other :
      (base p : Name) (expected : List Name) (m : Name)
      → is_nil p ≡ false
      → any (same_bytes p) expected ≡ false
      → not (is_stale api base expected m) ≡ true
      → extract_client_prefix m base ≢ p
  unfolding is_stale extract_client_prefix
  kept-other base p expected m some_p apart kept e = split (is_per_client_resource m) refl
    where
      split : (b : Bool) → is_per_client_resource m ≡ b → ⊥
      split true f = cc (
        sym (
              ap
                (λ c. not (
                  c
                  && (not (is_nil (extract_client_prefix m base))
                      && not (any (same_bytes (extract_client_prefix m base)) expected))))
                f)
            ∙ kept,
        e,
        some_p,
        apart,
      )
      split false f = cc (rw f at e, some_p)

  Cleaned-IsRemoved :
      (laws : ClusterLaws api ns route) (base p : Name) (expected : List Name) (kind : Kind)
      (k k' : K)
      → is_nil p ≡ false
      → any (same_bytes p) expected ≡ false
      → Cleaned api ns route laws base expected kind k k'
      → IsRemoved base p kind k'
  Cleaned-IsRemoved laws base p expected kind k k' some_p apart (names, found, left) = (
    keep_if (λ m. not (is_stale api base expected m)) names,
    left,
    All-map (λ m h. kept-other base p expected m some_p apart h) _
        (All-keep (λ m. not (is_stale api base expected m)) names),
  )

module _ (service : AttachmentService) (laws : AttachLaws service) where
  open service use {Config, ports, attachments}
  open ports use {World}

  -- The lists of a route's attachments hold stored rows of the route with the status.
  abbrev Holds : AttachmentStatus → ℕ → World → List ClientRouteAttachment → Type 0
  Holds s route w found =
      All (λ b. (attachments.get_by_id b.id w ≡ ok b) × ((b.status ≡ s) × (b.route_id ≡ route)))
        found

  pub record ListLaws {K : Type 0} (clients : ClientCluster World K) : Type 0 where
    pub active_rows :
        (route : ℕ) (w : World) (found : List ClientRouteAttachment)
        → clients.list_active route w ≡ ok found
        → Holds active route w found
    pub approved_rows :
        (route : ℕ) (w : World) (found : List ClientRouteAttachment)
        → clients.list_approved route w ≡ ok found
        → Holds approved route w found

  module _ {K : Type 0} (clients : ClientCluster World K) (lists : ListLaws clients) where
    open clients use {api, bytes, list_active, list_approved}

    -- Every other attachment of the route has a client with another prefix.
    abbrev pub OthersApart : ℕ → ℕ → Name → World → Type 0
    OthersApart id route p w =
        (b : ClientRouteAttachment)
        → attachments.get_by_id b.id w ≡ ok b
        → b.route_id ≡ route
        → b.id ≢ id
        → prefix_of clients b ≢ p

    listed-apart :
        (s : AttachmentStatus) (id route : ℕ) (p : Name) (w : World)
        (found : List ClientRouteAttachment)
        → rejected ≢ s
        → IsStored service laws id rejected w
        → OthersApart id route p w
        → Holds s route w found
        → All (λ b. prefix_of clients b ≢ p) found
    listed-apart s id route p w found n (a, stored, is_rejected) others held =
        All-map
          (λ b (here, (e, of_route)). others b here of_route (λ same.
            let f : a ≡ b =
              ok_inj (sym stored ∙ (ap (λ i. attachments.get_by_id i w) (sym same) ∙ here)) in
            n (sym is_rejected ∙ (ap (λ x. x.status) f ∙ e))))
          found held

    approved-apart :
        (id : ℕ) (r : Route Config) (p : Name) (w : World)
        (o : Result String (List ClientRouteAttachment))
        → list_approved r.id w ≡ o
        → IsStored service laws id rejected w
        → OthersApart id r.id p w
        → All (λ b. prefix_of clients b ≢ p) (or_empty o)
    approved-apart id r p w (err e) f stored others = tt
    approved-apart id r p w (ok found) f stored others =
        listed-apart approved id r.id p w found (λ e. cc e) stored others
          (lists.approved_rows r.id w found f)

    cleanup-IsRemoved :
        (id : ℕ) (r : Route Config) (d : Domain) (p : Name) (w : World) (k k' : K)
        → ClusterLaws api d.namespace r.id
        → is_nil p ≡ false
        → IsStored service laws id rejected w
        → OthersApart id r.id p w
        → cleanup_stale clients r d w k ≡ (ok tt, k')
        → All
            (λ kind. IsRemoved api d.namespace r.id (bytes r.k8s_route_name) p kind k')
            swept_kinds
    unfolding cleanup_stale
    cleanup-IsRemoved id r d p w k k' cluster some_p stored others h =
        split (list_active r.id w) refl h
      where
        not_approved : List ClientRouteAttachment
        not_approved = or_empty (list_approved r.id w)

        split :
            (o : Result String (List ClientRouteAttachment))
            → list_active r.id w ≡ o
            → cleanup_active clients r d not_approved o k ≡ (ok tt, k')
            → All
                (λ kind. IsRemoved api d.namespace r.id (bytes r.k8s_route_name) p kind k')
                swept_kinds
        split (err e) f h = absurd (cc (ap (λ o. o.0) h))
        split (ok found) f h =
            let base = bytes r.k8s_route_name in
            let expected = expected_client_prefixes clients (found ++ not_approved) in
            let apart = prefixes-apart clients p (found ++ not_approved) (
              All-append (λ b. prefix_of clients b ≢ p) found not_approved
                (listed-apart active id r.id p w found (λ e. cc e) stored others
                  (lists.active_rows r.id w found f))
                (approved-apart id r p w (list_approved r.id w) refl stored others)) in
            All-map
              (λ kind c.
                Cleaned-IsRemoved api d.namespace r.id cluster base p expected kind k k' some_p
                  apart c)
              swept_kinds
              (cleanup-Cleaned api d.namespace r.id cluster base expected d.project_id k k' h).0

    -- The detachment of an active attachment was requested, and the request is rejected or cancelled.
    -- If no other attachment of the route has a client with the same prefix, the next removal of stale
    -- resources that succeeds leaves no route, security policy or traffic policy of the client.
    pub rejected_client-IsRemoved :
        (id user : ℕ) (w v : World) (shown : ClientRouteAttachment) (approval : Approval)
        (r : Route Config) (d : Domain) (k k' : K)
        → request_detach service id user w ≡ (ok shown, v)
        → approval.entity_id ≡ id
        → (attachment_rejected service approval v).0 ≡ ok tt
        → ClusterLaws api d.namespace r.id
        → is_nil (prefix_of clients shown) ≡ false
        → OthersApart id r.id (prefix_of clients shown) (attachment_rejected service approval v).1
        → cleanup_stale clients r d (attachment_rejected service approval v).1 k ≡ (ok tt, k')
        → IsStored service laws id active w
          × All
              (λ kind.
                IsRemoved api d.namespace r.id
                  (bytes r.k8s_route_name)
                  (prefix_of clients shown)
                  kind
                  k')
              swept_kinds
    rejected_client-IsRemoved id user w v shown approval r d k k' h e done cluster some_p others
          cleaned =
        let (before, (stored, same)) =
          rejected_detach service laws id user w v shown approval h e done in
        (
          before,
          cleanup-IsRemoved id r d (prefix_of clients shown) _ k k' cluster some_p stored others
              cleaned,
        )
