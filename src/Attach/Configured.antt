-- ===== src/Attach/Configured.antt =====
-- What the checks of an attachment have read when they pass.
use backend_v.Base.Exec.{with_step}
use backend_v.Base.{
  Bool, false, not, inl, inr, ◌⊎◌, ◌==◌, guard_iff, Passes, guard_as, chain_iff, Result, with_guard,
  ok, ok_inj, err, ℕ, String, ◌≡◌, refl, sym, ap, ◌∙◌, true, false, Option, none, some, arith, ◌&&◌,
}
use backend_v.Attach.Service.{
  need_domain, present, found_route, validate_attach, validate_mtls_pairing,
}
use backend_v.Attach.Checks.{validate_rest, refuse, validate_keys}
use backend_v.Attach.Model.{Client, AttachmentService, Credentials}
use backend_v.Attach.Attached.{IsConfigured, implies_iff}
use backend_v.Traffic.Checks.{Check}
use backend_v.Route.Status.{Route}
use backend_v.Route.Machine.{RouteError}

module _ (service : AttachmentService) where
  open service use {Config, std, text, ports, domain_mtls}
  open ports use {World}

  pub present-some :
      {A : Type 0} (why : String) (o : Option A) (w v : World) (a : A)
      → present service why o w ≡ (ok a, v)
      → (o ≡ some a) × (w ≡ v)
  present-some why none w v a h = absurd (cc (ap (λ x. x.0) h))
  present-some why (some b) w v a h = (ap some (ok_inj (ap (λ x. x.0) h)), ap (λ x. x.1) h)

  pub found_route-ok :
      (o : Result RouteError (Route Config)) (w v : World) (r : Route Config)
      → found_route service o w ≡ (ok r, v)
      → (o ≡ ok r) × (w ≡ v)
  found_route-ok (ok s) w v r h = (ap ok (ok_inj (ap (λ x. x.0) h)), ap (λ x. x.1) h)
  found_route-ok (err e) w v r h = absurd (cc (ap (λ x. x.0) h))

  need_domain-same : (o : Option ℕ) (w : World) → (need_domain service o w).1 ≡ w
  need_domain-same none w = refl
  need_domain-same (some d) w = refl

  need_domain-some :
      (o : Option ℕ) (w : World) (d : ℕ) → (need_domain service o w).0 ≡ ok d → o ≡ some d
  need_domain-some none w d h = absurd (cc h)
  need_domain-some (some e) w d h = ap some (ok_inj h)

  refuse-ok : (k : Check) → refuse k ≡ ok tt → Passes k
  refuse-ok (ok tt) h = refl
  refuse-ok (err e) h = absurd (cc h)

  any_enabled :
      (ip key jwt mtls : Bool)
      → (not ip && (not key && (not jwt && not mtls))) ≡ false
      → (ip ≡ true) ⊎ (key ≡ true) ⊎ (jwt ≡ true) ⊎ (mtls ≡ true)
  any_enabled true key jwt mtls h = inl refl
  any_enabled false true jwt mtls h = inr (inl refl)
  any_enabled false false true mtls h = inr (inr (inl refl))
  any_enabled false false false true h = inr (inr (inr refl))
  any_enabled false false false false h = absurd (cc h)

  keys-IsSet :
      (c : Credentials) (client : Client)
      → Passes (validate_keys c client)
      → ((c.enable_ip_allowlist ≡ true)
          ⊎ (c.enable_api_key ≡ true)
          ⊎ (c.enable_jwt ≡ true)
          ⊎ (c.enable_mtls ≡ true))
        × (c.enable_api_key ≡ true → client.api_key_enabled ≡ true)
        × (c.enable_jwt ≡ true → client.jwt_enabled ≡ true)
  unfolding validate_keys
  keys-IsSet c client h =
      let k =
        (chain_iff _ _ (guard_iff _ _) (
            chain_iff _ _ (guard_as _ _ (implies_iff c.enable_api_key client.api_key_enabled))
              (guard_as _ _ (implies_iff c.enable_jwt client.jwt_enabled)))).0
          h in
      (
        any_enabled c.enable_ip_allowlist c.enable_api_key c.enable_jwt c.enable_mtls k.0,
        k.1.0,
        k.1.1,
      )

  pairing-IsSet :
      (enable : Bool) (client : Client) (d : ℕ) (w : World)
      → validate_mtls_pairing service enable client d w ≡ ok tt
      → (enable ≡ true → client.mtls_enabled ≡ true) × (enable ≡ true → domain_mtls d w ≡ true)
  unfolding validate_mtls_pairing
  pairing-IsSet false client d w h = (λ e. absurd (cc e), λ e. absurd (cc e))
  pairing-IsSet true client d w h = (λ e. ground (arith, h), λ e. ground (arith, h))

  rest-IsSet :
      (c : Credentials) (client : Client)
      → Passes (validate_rest std text c client)
      → (c.enable_ip_allowlist ≡ true → (client.ip_address_count == 0) ≡ false)
        × (c.enable_header_auth ≡ true → (client.header_count == 0) ≡ false)
  unfolding validate_rest
  rest-IsSet c client h =
      with_guard (c.enable_ip_allowlist && (client.ip_address_count == 0)) _ _ h (λ ip h.
        with_guard (c.enable_header_auth && (client.header_count == 0)) _ _ h
          (λ header h. ((λ e. ground (arith, e, ip)), (λ e. ground (arith, e, header)))))

  -- What the checks of an attachment have read when they pass: what the client has, and the route's
  -- domain.
  pub validate_attach-IsConfigured :
      (c : Credentials) (client : Client) (owner : Option ℕ) (w v : World) (d : ℕ)
      → validate_attach service c client owner w ≡ (ok d, v)
      → IsConfigured c client
        × ((owner ≡ some d) × (c.enable_mtls ≡ true → domain_mtls d w ≡ true))
        × (w ≡ v)
  unfolding validate_attach
  validate_attach-IsConfigured c client owner w v d h =
      with_step (refuse (validate_keys c client), w) _ h
        (λ u keys h. with_step (need_domain service owner w) _ h (λ domain owned h.
          let w1 = (need_domain service owner w).1 in
          with_step (refuse (validate_mtls_pairing service c.enable_mtls client domain w1), w1) _ h
            (λ u mtls h.
              with_step (refuse (validate_rest std text c client), w1) _ h
                (λ u rest h.
                  let (one, key, jwt) =
                    keys-IsSet c client (refuse-ok (validate_keys c client) keys) in
                  let (ip, header) =
                    rest-IsSet c client (refuse-ok (validate_rest std text c client) rest) in
                  let (certified, paired) = pairing-IsSet c.enable_mtls client domain w1 (
                    refuse-ok (validate_mtls_pairing service c.enable_mtls client domain w1)
                      mtls) in
                  let same = need_domain-same owner w in
                  let is_d : domain ≡ d = ok_inj (ap (λ o. o.0) h) in
                  (
                    (one, key, jwt, certified, ip, header),
                    (
                      need_domain-some owner w domain owned ∙ ap some is_d,
                      λ e.
                          ap (λ x. domain_mtls x w) (sym is_d)
                          ∙ ap (λ x. domain_mtls domain x) (sym same)
                          ∙ paired e,
                    ),
                    sym same ∙ ap (λ o. o.1) h,
                  )))))
