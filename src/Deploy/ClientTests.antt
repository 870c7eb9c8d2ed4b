-- ===== src/Deploy/ClientTests.antt =====
-- The theorems on per-client resources at a cluster that is a shelf of names for each kind.
use backend_v.Base.{
  if◌then◌else◌, ◌==◌, ==_refl, ◌&&◌, keep_if, same_bytes, same_bytes-eq, Bool-cases, All, Any, ok,
  err, ok_inj, ℕ, Bool, true, false, not, Option, some, none, ◌+◌, ==_iff, List, [], ◌∷◌, ◌≡◌, ◌≢◌,
  refl, sym, ap, ◌∙◌, subst, inl, inr, arith,
}
use backend_v.Attach.Model.{AttachmentStatus, ClientRouteAttachment, same_status, refused}
use backend_v.Attach.Settled.{IsStored, same_status-eq}
use backend_v.Attach.Ending.{attachment_rejected}
use backend_v.Attach.Samples
use backend_v.Attach.Samples.{
  Site, attaching, attached, holding, asked_for, for_clients, detaches, settles,
}
use backend_v.Approval.Model.{ApprovalAction}
use backend_v.Route.Status.{RouteStatus}
use backend_v.Deploy.Model.{Domain}
use backend_v.Deploy.Names.{
  Name, per_client_http_route_name, security_policy_name, backend_traffic_policy_name,
  extract_client_prefix, is_per_client_resource, first_bytes, contains, strip, until_dash,
}
use backend_v.Deploy.Stale.{
  Kind, deleted, http_routes, grpc_routes, security_policies, backend_traffic_policies,
  envoy_extension_policies, delete_stale_api_key_resources, delete_stale_per_client_resources,
  delete_each, is_stale,
}
use backend_v.Deploy.Clients.{ClientCluster, cleanup_stale, delete_all}
use backend_v.Deploy.Extracted.{extract-per_client_name}
use backend_v.Deploy.Cleaned.{ClusterLaws, Cleaned, cleanup-Cleaned, swept_kinds}
use backend_v.Deploy.Spared.{IsListed, NamedLaw, deletion_spares}
use backend_v.Deploy.Removed.{IsRemoved, ListLaws, rejected_client-IsRemoved}

abbrev Shelf : Type 0
Shelf = Kind → List Name

abbrev same_kind : Kind → Kind → Bool
same_kind http_routes http_routes = true
same_kind grpc_routes grpc_routes = true
same_kind security_policies security_policies = true
same_kind backend_traffic_policies backend_traffic_policies = true
same_kind envoy_extension_policies envoy_extension_policies = true
same_kind _ _ = false

same_kind_refl : (a : Kind) → same_kind a a ≡ true
same_kind_refl a = ground arith

same_kind-eq : (a b : Kind) → same_kind a b ≡ true → a ≡ b
same_kind-eq a b h = ground arith

other_kind : (a b : Kind) → a ≢ b → same_kind a b ≡ false
other_kind a b n = elim (Bool-cases (same_kind a b)) [
  | inl e ↦ absurd (n (same_kind-eq a b e))
  | inr e ↦ e
]

abbrev remove_from : Kind → Name → Shelf → Shelf
remove_from kind name k j =
    let rest = keep_if (λ m. not (same_bytes name m)) (k j) in
    if same_kind j kind then rest else k j

abbrev rows : AttachmentStatus → ℕ → Option ClientRouteAttachment → List ClientRouteAttachment
rows s route none = []
rows s route (some a) = if same_status a.status s && a.route_id == route then a ∷ [] else []

abbrev shelves : ClientCluster Site Shelf
shelves = record {
  api = record {
    get_client = λ p k. ok tt;
    list = λ kind ns r k. ok (k kind);
    remove = λ kind ns name k. (deleted, remove_from kind name k);
  };
  uuid_text = λ n. (48 + n) ∷ [];
  bytes = λ s. 111 ∷ [];
  list_active = λ r w. ok (rows AttachmentStatus.active r w.row);
  list_approved = λ r w. ok (rows AttachmentStatus.approved r w.row);
  delete_named = λ kind p ns name k. (ok tt, remove_from kind name k);
}

abbrev shop : Domain
shop = record { id = 9; project_id = 3; namespace = "shop" }

abbrev base : Name
base = 111 ∷ []

abbrev mobile_route : Name
mobile_route = per_client_http_route_name base (52 ∷ [])

-- The route itself, and the route and policies of the client 4.
abbrev full : Shelf
full http_routes = base ∷ mobile_route ∷ []
full security_policies = security_policy_name mobile_route ∷ []
full backend_traffic_policies = backend_traffic_policy_name mobile_route ∷ []
full _ = []

cluster_laws : ClusterLaws shelves.api "shop" 1
cluster_laws = record {
  removed = λ kind name k names h d.
      rw (same_kind_refl kind) (ap (λ x. ok (keep_if (λ m. not (same_bytes name m)) x)) (ok_inj h));
  other_kinds = λ kind other name k n. rw (other_kind other kind n) refl;
}

rows-Holds :
    (s : AttachmentStatus) (route : ℕ) (o : Option ClientRouteAttachment)
    → All
        (λ b. (Samples.by_id b.id o ≡ ok b) × ((b.status ≡ s) × (b.route_id ≡ route)))
        (rows s route o)
rows-Holds s route none = tt
rows-Holds s route (some a) = split (same_status a.status s) (a.route_id == route) refl refl
  where
    split :
        (b c : Bool)
        → same_status a.status s ≡ b
        → (a.route_id == route) ≡ c
        → All
            (λ b. (Samples.by_id b.id (some a) ≡ ok b) × ((b.status ≡ s) × (b.route_id ≡ route)))
            (if b && c then a ∷ [] else [])
    split true true e f =
        ((rw (==_refl a.id) refl, (same_status-eq a.status s e, (==_iff a.route_id route).0 f)), tt)
    split true false e f = tt
    split false c e f = tt

list_laws : ListLaws (attaching true) (Samples.laws true) shelves
list_laws = record {
  active_rows = λ route w found h.
      subst
        (All (λ b.
          (Samples.by_id b.id w.row ≡ ok b)
          × ((b.status ≡ AttachmentStatus.active) × (b.route_id ≡ route))))
        (ok_inj h) (rows-Holds AttachmentStatus.active route w.row);
  approved_rows = λ route w found h.
      subst
        (All (λ b.
          (Samples.by_id b.id w.row ≡ ok b)
          × ((b.status ≡ AttachmentStatus.approved) × (b.route_id ≡ route))))
        (ok_inj h) (rows-Holds AttachmentStatus.approved route w.row);
}

extract-per_client_name_example :
    (extract_client_prefix mobile_route base ≡ 52 ∷ [])
    × ((extract_client_prefix (security_policy_name mobile_route) base ≡ 52 ∷ [])
        × (extract_client_prefix (backend_traffic_policy_name mobile_route) base ≡ 52 ∷ []))
unfolding first_bytes
extract-per_client_name_example = extract-per_client_name base (52 ∷ []) refl

sweeps :
    delete_stale_api_key_resources shelves.api 3 "shop" 1 base [] full
    ≡ (ok tt, (delete_stale_api_key_resources shelves.api 3 "shop" 1 base [] full).1)
unfolding delete_stale_api_key_resources delete_stale_per_client_resources delete_each is_stale
    is_per_client_resource contains strip extract_client_prefix until_dash first_bytes
sweeps = refl

cleanup-Cleaned_example :
    let after = (delete_stale_api_key_resources shelves.api 3 "shop" 1 base [] full).1 in
    All (λ kind. Cleaned shelves.api "shop" 1 cluster_laws base [] kind full after) swept_kinds
    × (shelves.api.list envoy_extension_policies "shop" 1 after
        ≡ shelves.api.list envoy_extension_policies "shop" 1 full)
cleanup-Cleaned_example =
    cleanup-Cleaned shelves.api "shop" 1 cluster_laws base [] 3 full
      (delete_stale_api_key_resources shelves.api 3 "shop" 1 base [] full).1 sweeps

Any-keep :
    (p : Name → Bool) (m : Name) (names : List Name)
    → p m ≡ true
    → Any (λ n. n ≡ m) names
    → Any (λ n. n ≡ m) (keep_if p names)
Any-keep p m [] h here = absurd here
Any-keep p m (n ∷ names) h (inl e) = rw (ap p e ∙ h) (inl e)
Any-keep p m (n ∷ names) h (inr later) = split (p n) (Any-keep p m names h later)
  where
    split :
        (b : Bool)
        → Any (λ n. n ≡ m) (keep_if p names)
        → Any (λ n. n ≡ m) (if b then n ∷ keep_if p names else keep_if p names)
    split true here = inr here
    split false here = here

other_bytes : (name m : Name) → m ≢ name → not (same_bytes name m) ≡ true
other_bytes name m n = elim (Bool-cases (same_bytes name m)) [
  | inl e ↦ absurd (n (sym (same_bytes-eq name m e)))
  | inr e ↦ rw e refl
]

named_law : NamedLaw {Config = Bool} shelves (for_clients RouteStatus.active) shop
named_law kind other name m k (names, found, here) n = elim (Bool-cases (same_kind other kind)) [
  | inl e ↦ (
    keep_if (λ m. not (same_bytes name m)) names,
    rw e (ap (λ x. ok (keep_if (λ m. not (same_bytes name m)) x)) (ok_inj found)),
    Any-keep (λ m. not (same_bytes name m)) m names
        (other_bytes name m (n (same_kind-eq other kind e))) here,
  )
  | inr e ↦ (names, rw e found, here)
]

-- The routes of the clients 4 and 6.
abbrev two_clients : Shelf
two_clients http_routes = mobile_route ∷ per_client_http_route_name base (54 ∷ []) ∷ []
two_clients _ = []

deletion_spares_example :
    IsListed shelves
      (for_clients RouteStatus.active)
      shop
      http_routes
      (per_client_http_route_name base (54 ∷ []))
      (delete_all shelves
        (for_clients RouteStatus.active)
        shop
        (holding (some (attached AttachmentStatus.active)))
        two_clients).1
unfolding first_bytes
deletion_spares_example =
    deletion_spares shelves (for_clients RouteStatus.active) shop named_law 6
      (holding (some (attached AttachmentStatus.active))) two_clients refl (λ e. cc e)
      ((λ e. cc (ap (λ n. same_bytes n (52 ∷ [])) e)), tt)
      (mobile_route ∷ per_client_http_route_name base (54 ∷ []) ∷ [], refl, inr (inl refl))

abbrev refused_world : Site
refused_world =
    (attachment_rejected (attaching true) (asked_for ApprovalAction.detach)
      (holding (some (attached AttachmentStatus.pending_detach)))).1

only_row :
    (b : ClientRouteAttachment)
    → Samples.by_id b.id (some (attached AttachmentStatus.rejected)) ≡ ok b
    → b.id ≡ 0
only_row b h = elim (Bool-cases (0 == b.id)) [
  | inl e ↦ sym ((==_iff 0 b.id).0 e)
  | inr e ↦ absurd (
      cc (
        sym h
        ∙ ap (λ c. if c then ok (attached AttachmentStatus.rejected) else err (refused "no row"))
            e))
]

cleans :
    cleanup_stale shelves (for_clients RouteStatus.active) shop refused_world full
    ≡ (ok tt, (cleanup_stale shelves (for_clients RouteStatus.active) shop refused_world full).1)
unfolding cleanup_stale delete_stale_api_key_resources delete_stale_per_client_resources delete_each
    is_stale is_per_client_resource contains strip extract_client_prefix until_dash first_bytes
    attachment_rejected
cleans = refl

rejected_client-IsRemoved_example :
    let after =
      (cleanup_stale shelves (for_clients RouteStatus.active) shop refused_world full).1 in
    IsStored
      (attaching true)
      (Samples.laws true)
      0
      AttachmentStatus.active
      (holding (some (attached AttachmentStatus.active)))
    × All (λ kind. IsRemoved shelves.api "shop" 1 base (52 ∷ []) kind after) swept_kinds
unfolding first_bytes attachment_rejected
rejected_client-IsRemoved_example =
    rejected_client-IsRemoved (attaching true) (Samples.laws true) shelves list_laws 0 5
      (holding (some (attached AttachmentStatus.active)))
      (holding (some (attached AttachmentStatus.pending_detach)))
      (attached AttachmentStatus.pending_detach) (asked_for ApprovalAction.detach)
      (for_clients RouteStatus.active) shop full
      (cleanup_stale shelves (for_clients RouteStatus.active) shop refused_world full).1 detaches
      refl settles cluster_laws refl (λ b h of_route n. absurd (n (only_row b h))) cleans
