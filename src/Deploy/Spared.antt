-- ===== src/Deploy/Spared.antt =====
-- What the deletion of a route leaves of its clients' resources.
use backend_v.Base.{
  if◌then◌else◌, ℕ, Bool, true, false, ok, All, Any, List, [], ◌∷◌, ◌++◌, ◌≡◌, ◌≢◌, refl, sym,
}
use mathlib.Core.List.{append_cancel_left}
use backend_v.Base.Exec.{continue, pure}
use backend_v.Attach.Model.{ClientRouteAttachment}
use backend_v.Route.Status.{Route}
use backend_v.Deploy.Model.{Domain}
use backend_v.Deploy.Names.{Name, per_client_suffix, client_prefix_name, per_client_http_route_name}
use backend_v.Deploy.Stale.{
  Kind, http_routes, security_policies, backend_traffic_policies, envoy_extension_policies,
}
use backend_v.Deploy.Steps.{is_grpc}
use backend_v.Deploy.Clients.{
  ClientCluster, or_empty, has_own_route, prefix_of, own_route_name, route_kind, delete_own_route,
  delete_own_routes, delete_found, delete_all,
}

module _ {Config W K : Type 0} (clients : ClientCluster W K) (r : Route Config) (d : Domain) where
  open clients use {api, uuid_text, bytes, list_active, list_approved, delete_named}

  abbrev pub IsListed : Kind → Name → K → Type 0
  IsListed kind m k =
      (names : List Name) × (api.list kind d.namespace r.id k ≡ ok names) × Any (λ n. n ≡ m) names

  -- A deletion by name leaves every other resource.
  abbrev pub NamedLaw : Type 0
  NamedLaw =
      (kind other : Kind) (name m : Name) (k : K)
      → IsListed other m k
      → (other ≡ kind → m ≢ name)
      → IsListed other m (delete_named kind d.project_id d.namespace name k).1

  not_backend : {m n : Name} → http_routes ≡ backend_traffic_policies → m ≢ n
  not_backend e = absurd (cc e)

  not_extension : {m n : Name} → http_routes ≡ envoy_extension_policies → m ≢ n
  not_extension e = absurd (cc e)

  not_security : {m n : Name} → http_routes ≡ security_policies → m ≢ n
  not_security e = absurd (cc e)

  module _ (named : NamedLaw) (client : ℕ) where
    abbrev left : Name
    left = per_client_http_route_name (bytes r.k8s_route_name) (uuid_text client)

    other_name :
        (a : ClientRouteAttachment)
        → prefix_of clients a ≢ client_prefix_name (uuid_text client)
        → left ≢ own_route_name clients r a
    other_name a n e = n (
        sym (
          append_cancel_left per_client_suffix _ _
            (append_cancel_left (bytes r.k8s_route_name) _ _ e)))

    own_route-spares :
        (a : ClientRouteAttachment) (k : K)
        → is_grpc r ≡ false
        → prefix_of clients a ≢ client_prefix_name (uuid_text client)
        → IsListed http_routes left k
        → IsListed http_routes left (delete_own_route clients r d a k).1
    unfolding delete_own_route
    own_route-spares a k h n here =
        named (route_kind clients r) http_routes (own_route_name clients r a) left _
          (named security_policies http_routes _ left _
            (named envoy_extension_policies http_routes _ left _
              (named backend_traffic_policies http_routes _ left k here not_backend) not_extension)
            not_security)
          (λ e. other_name a n)

    own_routes-spare :
        (found : List ClientRouteAttachment) (k : K)
        → is_grpc r ≡ false
        → All (λ a. prefix_of clients a ≢ client_prefix_name (uuid_text client)) found
        → IsListed http_routes left k
        → IsListed http_routes left (delete_own_routes clients r d found k).1
    unfolding delete_own_routes delete_own_route
    own_routes-spare [] k h n here = here
    own_routes-spare (a ∷ found) k h n here =
        split (has_own_route a) (λ k. own_routes-spare found k h n.1)
      where
        split :
            (b : Bool)
            → ((k : K)
                → IsListed http_routes left k
                → IsListed http_routes left (delete_own_routes clients r d found k).1)
            → IsListed http_routes left
                (continue
                  ((if b then delete_own_route clients r d a else pure tt) k)
                  (λ u. delete_own_routes clients r d found)).1
        split true later = later _ (own_route-spares a k h n.0 here)
        split false later = later k here

    -- The attachments that a deploy reads.
    abbrev live : W → List ClientRouteAttachment
    live w = or_empty (list_active r.id w) ++ or_empty (list_approved r.id w)

    -- Deleting the per-client resources of an HTTP route that has an active or approved attachment
    -- leaves the route of every client whose name prefix is that of no such attachment, for example
    -- of one that is about to be detached or whose detachment was rejected.
    pub deletion_spares :
        (w : W) (k : K)
        → is_grpc r ≡ false
        → live w ≢ []
        → All (λ a. prefix_of clients a ≢ client_prefix_name (uuid_text client)) (live w)
        → IsListed http_routes left k
        → IsListed http_routes left (delete_all clients r d w k).1
    unfolding delete_all
    deletion_spares w k h some_live n here = split (live w) some_live n
      where
        split :
            (found : List ClientRouteAttachment)
            → found ≢ []
            → All (λ a. prefix_of clients a ≢ client_prefix_name (uuid_text client)) found
            → IsListed http_routes left (delete_found clients r d found k).1
        split [] m n = absurd (m refl)
        split (a ∷ found) m n = own_routes-spare (a ∷ found) k h n here
