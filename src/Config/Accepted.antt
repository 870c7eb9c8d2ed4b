-- ===== src/Config/Accepted.antt =====
-- What a configuration that passes its checks is like, stated apart from the code.
use backend_v.Base.{
  some_inj, id_iff, false_iff, neither_iff, is_nil_iff, Passes, guard_as, chain_iff, each_iff,
  is_nil, All, ok, err, ℕ, String, ◌≡◌, refl, sym, subst, ◌≢◌, ◌↔◌, ◌⊎◌, true, false, not, ◌||◌,
  Option, none, some, List, [], ◌∷◌, arith, str_eq, eq_iff,
}
use backend_v.Base.Int.{eq_ℤ_iff, pos}
use backend_v.Config.Shape.{
  validate_l4_listener, validate_l4_route_config, validate_route_shape_and_conflicts, wired_check,
  l4_transport, Sources, listener_check, validate_route_config,
}
use backend_v.Config.Model.{RouteConfig}
use backend_v.Stream.Claims.{default_reserved_ports, PortCheck}
use backend_v.Stream.Model.{StreamPort}
use backend_v.Stream.Accepts.{IsListenerPort, validate_listener_port_iff}
use backend_v.Write.Checks.{is_l4_protocol}
use backend_v.Write.Policies.{BackendTrafficPolicy, validate_l4_backend_traffic_policy}
use backend_v.Traffic.Checks.{is_some, Std}

absent_iff : {A : Type 0} (o : Option A) → (is_some o ≡ false) ↔ (o ≡ none)
absent_iff none = (λ h. refl, λ h. refl)
absent_iff (some a) = (λ h. absurd (cc h), λ h. absurd (cc h))

empty_iff : {A : Type 0} (xs : List A) → (not (is_nil xs) ≡ false) ↔ (xs ≡ [])
empty_iff [] = (λ h. refl, λ h. refl)
empty_iff (x ∷ xs) = (λ h. absurd (cc h), λ h. absurd (cc h))

unset_iff :
    {A : Type 0} (s : String) (xs : List A)
    → ((not (str_eq s "") || not (is_nil xs)) ≡ false) ↔ ((s ≡ "") × (xs ≡ []))
unset_iff s xs = (
  λ h. ((eq_iff s "").0 (ground (arith, h)), (empty_iff xs).0 (ground (arith, h))),
  λ h. ground (arith, (eq_iff s "").1 h.0, (empty_iff xs).1 h.1),
)

abbrev pub IsL4Config : RouteConfig → Type 0
IsL4Config c =
    (c.matches ≡ [])
    × (((c.route_type ≡ "") ⊎ (c.route_type ≡ "backend"))
        × ((c.redirect ≡ none)
            × ((c.direct_response ≡ none)
                × ((c.url_rewrite ≡ none)
                    × ((c.request_header_modifier ≡ none)
                        × ((c.response_header_modifier ≡ none)
                            × ((c.mirrors ≡ [])
                                × (((c.default_traffic_policy ≡ "")
                                      × (c.default_allowed_cidrs ≡ []))
                                    × ((c.listener_port ≢ pos 0)
                                        × ((c.backends ≢ [])
                                            × All (λ b. b.type ≢ "external") c.backends))))))))))

validate_l4_route_config_iff :
    (c : RouteConfig) → Passes (validate_l4_route_config "" c) ↔ IsL4Config c
unfolding validate_l4_route_config
validate_l4_route_config_iff c = chain_iff _ _ (guard_as _ _ (empty_iff c.matches)) (
    chain_iff _ _ (guard_as _ _ (neither_iff c.route_type "" "backend")) (
      chain_iff _ _ (guard_as _ _ (absent_iff c.redirect)) (
        chain_iff _ _ (guard_as _ _ (absent_iff c.direct_response)) (
          chain_iff _ _ (guard_as _ _ (absent_iff c.url_rewrite)) (
            chain_iff _ _ (guard_as _ _ (absent_iff c.request_header_modifier)) (
              chain_iff _ _ (guard_as _ _ (absent_iff c.response_header_modifier)) (
                chain_iff _ _ (guard_as _ _ (empty_iff c.mirrors)) (
                  chain_iff _ _
                    (guard_as _ _ (unset_iff c.default_traffic_policy c.default_allowed_cidrs))
                    (chain_iff _ _ (guard_as _ _ (false_iff _ (eq_ℤ_iff c.listener_port (pos 0)))) (
                      chain_iff _ _ (guard_as _ _ (is_nil_iff c.backends)) (
                        each_iff _ _ c.backends
                          (λ b. guard_as _ _ (false_iff _ (eq_iff b.type "external"))))))))))))))

wrapped_iff : {P : Type 0} (k : PortCheck) → Passes k ↔ P → Passes (listener_check k) ↔ P
wrapped_iff (ok tt) i = (λ h. i.0 refl, λ h. refl)
wrapped_iff (err e) i = (λ h. absurd (cc h), λ h. absurd (cc (i.1 h)))

module _ (std : Std) {W : Type 0} (sources : Sources std W) where
  -- The wired checker grants the port on the stream.
  abbrev pub IsGranted : ℕ → StreamPort → Option ℕ → W → Type 0
  IsGranted stream p exclude w =
      (check : (ℕ → StreamPort → Option ℕ → W → PortCheck)) × (sources.l4_ports ≡ some check)
      × Passes (check stream p exclude w)

  wired_check_iff :
      (o : Option (ℕ → StreamPort → Option ℕ → W → PortCheck)) (stream : ℕ) (p : StreamPort)
      (exclude : Option ℕ) (w : W)
      → Passes (wired_check std sources o stream p exclude w) ↔ (
          (check : (ℕ → StreamPort → Option ℕ → W → PortCheck)) × (o ≡ some check)
          × Passes (check stream p exclude w))
  wired_check_iff none stream p exclude w = (λ h. absurd (cc h), λ (f, e, h). absurd (cc e))
  wired_check_iff (some check) stream p exclude w = (
    λ h. (check, refl, (wrapped_iff (check stream p exclude w) (id_iff _)).0 h),
    λ (f, e, h).
        (wrapped_iff (check stream p exclude w) (id_iff _)).1
          (subst (λ g. Passes (g stream p exclude w)) (sym (some_inj e)) h),
  )

  abbrev pub IsListening : RouteConfig → String → Option ℕ → Option ℕ → W → Type 0
  IsListening c protocol owner exclude w =
      (stream : ℕ) × (owner ≡ some stream)
      × (IsListenerPort default_reserved_ports c.listener_port
          × IsGranted stream (record { transport = l4_transport protocol; port = c.listener_port })
              exclude w)

  validate_l4_listener_iff :
      (c : RouteConfig) (protocol : String) (owner exclude : Option ℕ) (w : W)
      → Passes (validate_l4_listener std sources c protocol owner exclude w)
        ↔ IsListening c protocol owner exclude w
  unfolding validate_l4_listener
  validate_l4_listener_iff c protocol none exclude w =
      (λ h. absurd (cc h), λ (s, e, h). absurd (cc e))
  validate_l4_listener_iff c protocol (some stream) exclude w =
      let i =
        chain_iff _ _
          (wrapped_iff _ (validate_listener_port_iff c.listener_port default_reserved_ports))
          (wired_check_iff sources.l4_ports stream
            (record { transport = l4_transport protocol; port = c.listener_port }) exclude w) in
      (
        λ h. (stream, refl, i.0 h),
        λ (s, e, h). i.1 (
            subst
              (λ x.
                IsListenerPort default_reserved_ports c.listener_port
                × IsGranted x (record { transport = l4_transport protocol; port = c.listener_port })
                    exclude w)
              (sym (some_inj e)) h),
      )

  -- A TCP or UDP route passes the checks of its shape exactly when its configuration has nothing that
  -- is for HTTP only, its traffic policy passes the check for L4 routes, it belongs to a stream, its
  -- listener port is a port that is not reserved, and the stream's wired checker grants that port.
  pub l4_shape_iff :
      (c : RouteConfig) (btp : Option (BackendTrafficPolicy std)) (protocol : String)
      (domain owner exclude : Option ℕ) (w : W)
      → is_l4_protocol protocol ≡ true
      → Passes
          (validate_route_shape_and_conflicts std sources c btp protocol domain owner exclude w)
        ↔ ((IsL4Config c × Passes (validate_l4_backend_traffic_policy std btp protocol))
            × IsListening c protocol owner exclude w)
  unfolding validate_route_shape_and_conflicts validate_route_config
  l4_shape_iff c btp protocol domain owner exclude w l4 = rw l4 (
      chain_iff _ _ (chain_iff _ _ (validate_l4_route_config_iff c) (id_iff _))
        (validate_l4_listener_iff c protocol owner exclude w))
