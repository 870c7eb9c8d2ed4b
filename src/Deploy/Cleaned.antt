-- ===== src/Deploy/Cleaned.antt =====
-- What the removal of stale per-client resources leaves in the cluster.
use backend_v.Base.{
  ◌||◌, ◌&&◌, if◌then◌else◌, any, same_bytes, same_bytes-eq, same_bytes_refl, keep_if, keep-keep,
  keep-same, keep-all, All, All-map, All-of, Result, ok, ℕ, String, Bool, true, false, not, List,
  [], ◌∷◌, ◌≡◌, ◌≢◌, refl, sym, ap, ◌∙◌, subst,
}
use backend_v.Base.Exec.{continue, with_step, Exec}
use backend_v.Deploy.Names.{Name}
use backend_v.Deploy.Stale.{
  ClusterApi, Kind, Deletion, deleted, not_found, failed, http_routes, grpc_routes,
  security_policies, backend_traffic_policies, envoy_extension_policies, is_stale, deletion_done,
  delete_each, delete_stale_per_client_resources, delete_stale_api_key_resources,
}

All-member : (xs : List Name) → All (λ m. any (λ n. same_bytes n m) xs ≡ true) xs
All-member [] = tt
All-member (x ∷ xs) = (
  rw (same_bytes_refl x) refl,
  All-map (λ m h. later (same_bytes x m) (any (λ n. same_bytes n m) xs) h) xs (All-member xs),
)
  where
    later : (b c : Bool) → c ≡ true → (b || c) ≡ true
    later true c h = refl
    later false c h = h

-- The kinds that are searched for stale resources.
abbrev pub swept_kinds : List Kind
swept_kinds = http_routes ∷ grpc_routes ∷ security_policies ∷ backend_traffic_policies ∷ []

module _ {K : Type 0} (api : ClusterApi K) (ns : String) (route : ℕ) where
  open api use {get_client, list, remove}

  -- A deletion that is answered removes its resource from the list of its kind, and no other.
  pub record ClusterLaws : Type 0 where
    pub removed :
        (kind : Kind) (name : Name) (k : K) (names : List Name)
        → list kind ns route k ≡ ok names
        → (deletion_done api (remove kind ns name k)).0 ≡ ok tt
        → list kind ns route (remove kind ns name k).1
          ≡ ok (keep_if (λ m. not (same_bytes name m)) names)
    pub other_kinds :
        (kind other : Kind) (name : Name) (k : K)
        → other ≢ kind
        → list other ns route (remove kind ns name k).1 ≡ list other ns route k

  deletion_done-same : (o : Deletion × K) → (deletion_done api o).1 ≡ o.1
  deletion_done-same (deleted, k) = refl
  deletion_done-same (not_found, k) = refl
  deletion_done-same (failed e, k) = refl

  module _ (laws : ClusterLaws) (base : Name) (expected : List Name) where
    abbrev stale : Name → Bool
    stale = is_stale api base expected

    abbrev gone : List Name → Name → Bool
    gone names m = stale m && any (λ n. same_bytes n m) names

    gone-stale :
        (n : Name) (names : List Name) (m : Name)
        → stale n ≡ true
        → (not (same_bytes n m) && not (gone names m)) ≡ not (gone (n ∷ names) m)
    gone-stale n names m h = split (same_bytes n m) refl
      where
        split :
            (b : Bool)
            → same_bytes n m ≡ b
            → (not b && not (gone names m))
              ≡ not (stale m && (b || any (λ n. same_bytes n m) names))
        split true e = rw (ap stale (sym (same_bytes-eq n m e)) ∙ h) refl
        split false e = refl

    gone-kept :
        (n : Name) (names : List Name) (m : Name)
        → stale n ≡ false
        → not (gone names m) ≡ not (gone (n ∷ names) m)
    gone-kept n names m h = split (same_bytes n m) refl
      where
        split :
            (b : Bool)
            → same_bytes n m ≡ b
            → not (gone names m) ≡ not (stale m && (b || any (λ n. same_bytes n m) names))
        split true e = rw (ap stale (sym (same_bytes-eq n m e)) ∙ h) refl
        split false e = refl

    -- From the list of a kind to what is left of it, the other kinds being as they were.
    abbrev Leaves : Kind → List Name → (Name → Bool) → K → K → Type 0
    Leaves kind names left k k' =
        (list kind ns route k' ≡ ok (keep_if left names))
        × ((other : Kind) → other ≢ kind → list other ns route k' ≡ list other ns route k)

    Leaves-same :
        (kind : Kind) (names : List Name) (p q : Name → Bool) (k k' : K)
        → All (λ m. p m ≡ q m) names
        → Leaves kind names p k k'
        → Leaves kind names q k k'
    Leaves-same kind names p q k k' same (left, rest) =
        (left ∙ ap ok (keep-same p q names same), rest)

    delete_each-Leaves :
        (kind : Kind) (names listed : List Name) (k k' : K)
        → list kind ns route k ≡ ok listed
        → delete_each api kind ns base expected names k ≡ (ok tt, k')
        → Leaves kind listed (λ m. not (gone names m)) k k'
    unfolding delete_each
    delete_each-Leaves kind [] listed k k' found h =
        let same : k ≡ k' = ap (λ o. o.1) h in
        (
          subst (λ x. list kind ns route x ≡ ok listed) same found
              ∙ sym (
                  ap ok (
                    keep-all (λ m. not (gone [] m)) listed
                      (All-of (λ m. none_gone (stale m)) listed))),
          λ other n. ap (list other ns route) (sym same),
        )
      where
        none_gone : (b : Bool) → not (b && false) ≡ true
        none_gone true = refl
        none_gone false = refl
    delete_each-Leaves kind (n ∷ names) listed k k' found h =
        split (stale n) refl h (delete_each-Leaves kind names)
      where
        removal : Result String (Unit {0}) × K
        removal = deletion_done api (remove kind ns n k)

        split :
            (b : Bool)
            → stale n ≡ b
            → continue
                (if b then removal else (ok tt, k))
                (λ u. delete_each api kind ns base expected names)
              ≡ (ok tt, k')
            → ((listed : List Name) (k k' : K)
                → list kind ns route k ≡ ok listed
                → delete_each api kind ns base expected names k ≡ (ok tt, k')
                → Leaves kind listed (λ m. not (gone names m)) k k')
            → Leaves kind listed (λ m. not (gone (n ∷ names) m)) k k'
        split true e h later =
            with_step removal (λ u. delete_each api kind ns base expected names) h
              (λ u f h.
                let same = deletion_done-same (remove kind ns n k) in
                let first =
                  subst
                    (λ x. list kind ns route x ≡ ok (keep_if (λ m. not (same_bytes n m)) listed))
                    (sym same) (laws.removed kind n k listed found f) in
                let (left, rest) =
                  later (keep_if (λ m. not (same_bytes n m)) listed) removal.1 k' first h in
                Leaves-same kind listed (λ m. not (same_bytes n m) && not (gone names m))
                  (λ m. not (gone (n ∷ names) m)) k k' (All-of (λ m. gone-stale n names m e) listed)
                  (
                    left
                        ∙ ap ok (
                            keep-keep (λ m. not (gone names m)) (λ m. not (same_bytes n m)) listed),
                    λ other d.
                        rest other d
                        ∙ ap (list other ns route) same
                        ∙ laws.other_kinds kind other n k d,
                  ))
        split false e h later =
            Leaves-same kind listed (λ m. not (gone names m)) (λ m. not (gone (n ∷ names) m)) k k'
              (All-of (λ m. gone-kept n names m e) listed) (later listed k k' found h)

    -- A kind whose stale resources are gone, everything else being there.
    abbrev pub Cleaned : Kind → K → K → Type 0
    Cleaned kind k k' =
        (names : List Name) × (list kind ns route k ≡ ok names)
        × (list kind ns route k' ≡ ok (keep_if (λ m. not (stale m)) names))

    delete_kind-Cleaned :
        (kind : Kind) (k k' : K)
        → delete_stale_per_client_resources api kind ns route base expected k ≡ (ok tt, k')
        → Cleaned kind k k'
          × ((other : Kind) → other ≢ kind → list other ns route k' ≡ list other ns route k)
    unfolding delete_stale_per_client_resources
    delete_kind-Cleaned kind k k' h =
        with_step (list kind ns route k, k) _ h
          (λ names found h.
            let (left, rest) =
              Leaves-same kind names (λ m. not (gone names m)) (λ m. not (stale m)) k k'
                (All-map (λ m e. rw e (all_gone (stale m))) names (All-member names))
                (delete_each-Leaves kind names names k k' found h) in
            ((names, found, left), rest))
      where
        all_gone : (b : Bool) → not (b && true) ≡ not b
        all_gone true = refl
        all_gone false = refl

    Cleaned-after :
        (kind : Kind) (k k' k'' : K)
        → list kind ns route k' ≡ list kind ns route k
        → Cleaned kind k' k''
        → Cleaned kind k k''
    Cleaned-after kind k k' k'' e (names, found, left) = (names, sym e ∙ found, left)

    Cleaned-before :
        (kind : Kind) (k k' k'' : K)
        → list kind ns route k'' ≡ list kind ns route k'
        → Cleaned kind k k'
        → Cleaned kind k k''
    Cleaned-before kind k k' k'' e (names, found, left) = (names, found, e ∙ left)

    abbrev sweep : Kind → Exec String K (Unit {0})
    sweep kind = delete_stale_per_client_resources api kind ns route base expected

    -- A removal of stale resources that succeeds leaves, of the routes, security policies and traffic
    -- policies with the route's label, exactly those that are not the resources of an unexpected
    -- client; extension policies it leaves all.
    pub cleanup-Cleaned :
        (project : ℕ) (k k' : K)
        → delete_stale_api_key_resources api project ns route base expected k ≡ (ok tt, k')
        → All (λ kind. Cleaned kind k k') swept_kinds
          × (list envoy_extension_policies ns route k' ≡ list envoy_extension_policies ns route k)
    unfolding delete_stale_api_key_resources
    cleanup-Cleaned project k k' h =
        with_step (get_client project k, k) _ h
          (λ u e h.
            let k1 = (sweep http_routes k).1 in
            let k2 = (sweep grpc_routes k1).1 in
            let k3 = (sweep security_policies k2).1 in
            with_step (sweep http_routes k) _ h (λ u e h.
              let (c1, r1) = delete_kind-Cleaned http_routes k k1 (λ i. (e i, k1)) in
              with_step (sweep grpc_routes k1) _ h (λ u e h.
                let (c2, r2) = delete_kind-Cleaned grpc_routes k1 k2 (λ i. (e i, k2)) in
                with_step (sweep security_policies k2) _ h (λ u e h.
                  let (c3, r3) = delete_kind-Cleaned security_policies k2 k3 (λ i. (e i, k3)) in
                  let (c4, r4) = delete_kind-Cleaned backend_traffic_policies k3 k' h in
                  (
                    (
                      Cleaned-before http_routes k k1 k'
                          (r4 http_routes (λ e. cc e)
                            ∙ r3 http_routes (λ e. cc e)
                            ∙ r2 http_routes (λ e. cc e))
                          c1,
                      (
                        Cleaned-after grpc_routes k k1 k' (r1 grpc_routes (λ e. cc e)) (
                            Cleaned-before grpc_routes k1 k2 k'
                              (r4 grpc_routes (λ e. cc e) ∙ r3 grpc_routes (λ e. cc e)) c2),
                        (
                          Cleaned-after security_policies k k2 k'
                              (r2 security_policies (λ e. cc e) ∙ r1 security_policies (λ e. cc e))
                              (Cleaned-before security_policies k2 k3 k'
                                (r4 security_policies (λ e. cc e)) c3),
                          (
                            Cleaned-after backend_traffic_policies k k3 k'
                                (r3 backend_traffic_policies (λ e. cc e)
                                  ∙ r2 backend_traffic_policies (λ e. cc e)
                                  ∙ r1 backend_traffic_policies (λ e. cc e))
                                c4,
                            tt,
                          ),
                        ),
                      ),
                    ),
                    r4 envoy_extension_policies (λ e. cc e)
                        ∙ r3 envoy_extension_policies (λ e. cc e)
                        ∙ r2 envoy_extension_policies (λ e. cc e)
                        ∙ r1 envoy_extension_policies (λ e. cc e),
                  )))))
