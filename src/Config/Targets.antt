-- ===== src/Config/Targets.antt =====
-- That traffic is neither mirrored nor failed over to a primary backend.
use backend_v.Base.{
  if◌then◌else◌, is_nil, each_iff, guard_iff, guard_as, Passes, chain_iff, is_nil_iff, false_iff,
  All, ok, String, ◌≡◌, refl, ◌≢◌, ◌↔◌, Bool, true, false, not, ◌&&◌, List, [], ◌∷◌, arith, str_eq,
  eq_iff,
}
use backend_v.Config.Backends.{is_kubernetes, primary_keys, Keys, validate_mirror_targets}
use backend_v.Config.Model.{RouteBackend, RouteConfig}
use backend_v.Traffic.Checks.{is_some, Check, one_of}

none_of_iff :
    (s x : String) (xs : List String) {P : Type 0}
    → (one_of s xs ≡ false) ↔ P
    → (one_of s (x ∷ xs) ≡ false) ↔ ((s ≢ x) × P)
none_of_iff s x xs i = (
  λ h. ((false_iff (str_eq s x) (eq_iff s x)).0 (ground (arith, h)), i.0 (ground (arith, h))),
  λ h. ground (arith, (false_iff (str_eq s x) (eq_iff s x)).1 h.0, i.1 h.1),
)

module _ (keys : Keys) where
  -- A Kubernetes backend has another key.
  abbrev pub DiffersFrom : String → RouteBackend → Type 0
  DiffersFrom s b = b.type ≡ "kubernetes" → s ≢ keys.target_key b.namespace b.service b.port

  add_key :
      (s : String) (b : RouteBackend) (ks : List String) {P : Type 0} (k : Bool)
      → (k ≡ true) ↔ (b.type ≡ "kubernetes")
      → (one_of s ks ≡ false) ↔ P
      → (one_of s (if k then keys.target_key b.namespace b.service b.port ∷ ks else ks) ≡ false)
        ↔ (DiffersFrom s b × P)
  add_key s b ks true t i =
      let j = none_of_iff s (keys.target_key b.namespace b.service b.port) ks i in
      (λ h. ((λ e. (j.0 h).0), (j.0 h).1), λ h. j.1 (h.0 (t.0 refl), h.1))
  add_key s b ks false t i = (λ h. ((λ e. absurd (cc (t.1 e))), i.0 h), λ h. i.1 h.1)

  not_primary_iff :
      (s : String) (bs : List RouteBackend)
      → (one_of s (primary_keys keys bs) ≡ false) ↔ All (DiffersFrom s) bs
  unfolding primary_keys
  not_primary_iff s [] = (λ h. tt, λ h. refl)
  not_primary_iff s (b ∷ bs) =
      add_key s b (primary_keys keys bs) (is_kubernetes b) (eq_iff b.type "kubernetes")
        (not_primary_iff s bs)

  -- No mirror has the key of a Kubernetes backend.
  abbrev pub IsMirrored : RouteConfig → Type 0
  IsMirrored c =
      ((is_nil c.backends && (not (is_some c.redirect) && not (is_some c.direct_response))) ≡ false)
      × All (λ m. All (DiffersFrom (keys.target_key m.namespace m.service m.port)) c.backends)
          c.mirrors

  -- The check of mirrors passes exactly when there are none, or when the route also answers itself (by
  -- backends, a redirect or a direct response) and no mirror has the key of a Kubernetes backend.
  pub validate_mirror_targets_iff :
      (c : RouteConfig) → Passes (validate_mirror_targets keys c) ↔ (c.mirrors ≢ [] → IsMirrored c)
  unfolding validate_mirror_targets
  validate_mirror_targets_iff c = split (is_nil c.mirrors) (is_nil_iff c.mirrors) (
      chain_iff _ _ (guard_iff _ _) (
        each_iff _ _ c.mirrors (λ m.
          guard_as _ _
            (not_primary_iff (keys.target_key m.namespace m.service m.port) c.backends))))
    where
      split :
          {k : Check} {P : Type 0} (b : Bool)
          → (b ≡ false) ↔ (c.mirrors ≢ [])
          → Passes k ↔ P
          → Passes (if b then ok tt else k) ↔ (c.mirrors ≢ [] → P)
      split true n i = (λ h e. absurd (cc (n.1 e)), λ h. refl)
      split false n i = (λ h e. i.0 h, λ h. i.1 (h (n.0 refl)))
