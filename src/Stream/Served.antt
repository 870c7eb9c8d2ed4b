-- ===== src/Stream/Served.antt =====
-- What a change of a stream's claims that succeeds has checked.
use backend_v.Base.Exec.{◌>>◌, continue, fail_if, or_fail, pure, with_step}
use backend_v.Base.{
  same_bytes, if◌then◌else◌, All, Result, ok, ok_inj, err, ℕ, ◌≡◌, refl, sym, ap, ◌∙◌, subst, Bool,
  true, false, Option, none, some, List,
}
use backend_v.Stream.Service.{
  name_free, rename, stream_name_taken, StreamService, store_failed, port_checked, template_loaded,
  apply_gateway, gateway_call, claim, update, status_recorded, GatewayError, claims_of,
  UpdateStreamInput, apply_logged, logged, failed_as, apply_claims, map_stream_write_error,
}
use backend_v.Stream.Claims.{
  record_not_found, DbError, PortError, stream_found, StreamPortStore, other_failure,
  check_used_claims_kept,
}
use backend_v.Stream.Model.{DomainTemplate, has, StreamPort, normalize, Stream}
use backend_v.Stream.Accepted.{IsClaimSet, validate_stream_ports_iff}
use backend_v.Stream.Kept.{check_used_claims_kept_iff}

module _ (service : StreamService) where
  open service use {
    World, to_upper, get_template, get_row, update_row, exists_by_name, port_store, domain_ports,
    failure, update_status,
  }

  checked-ok :
      {A : Type 0} (r : Result PortError A) {a : A} → port_checked service r ≡ ok a → r ≡ ok a
  checked-ok (ok a) h = ap (λ x. ok x) (ok_inj h)
  checked-ok (err e) h = absurd (cc h)

  found-ok :
      (w : World) (r : Result DbError Stream) {s : Stream}
      → port_checked service
          (stream_found to_upper (λ i. get_row i w) (port_store w) (domain_ports w) r)
        ≡ ok s
      → r ≡ ok s
  found-ok w (ok s) h = ap (λ x. ok x) (ok_inj h)
  found-ok w (err record_not_found) h = absurd (cc h)
  found-ok w (err other_failure) h = absurd (cc h)

  loaded-ok :
      (r : Result DbError DomainTemplate) {t : DomainTemplate}
      → template_loaded service r ≡ ok t
      → r ≡ ok t
  loaded-ok (ok t) h = ap (λ x. ok x) (ok_inj h)
  loaded-ok (err e) h = absurd (cc h)

  -- Looking a name up, and renaming, write nothing.
  name_free-same :
      (project : ℕ) (name : List ℕ) (w : World) → (name_free service project name w).1 ≡ w
  name_free-same project name w = by_answer (exists_by_name project name w)
    where
      by_answer :
          (o : Option Bool)
          → (continue (or_fail o store_failed w) (λ taken. fail_if taken stream_name_taken)).1 ≡ w
      by_answer none = refl
      by_answer (some true) = refl
      by_answer (some false) = refl

  renamed :
      (name : Option (List ℕ)) (s t : Stream) (w v : World)
      → rename service name s w ≡ (ok t, v)
      → (v ≡ w) × (t ≡ record s { name = t.name })
  unfolding rename
  renamed none s t w v h =
      let same = ok_inj (ap (λ o. o.0) h) in
      (sym (ap (λ o. o.1) h), subst (λ x. x ≡ record s { name = x.name }) same refl)
  renamed (some n) s t w v h = by_test (same_bytes n s.name) h
    where
      by_test :
          (b : Bool)
          → (if b
                then pure s
                else (name_free service s.project_id n >> pure (record s { name = n })))
              w
            ≡ (ok t, v)
          → (v ≡ w) × (t ≡ record s { name = t.name })
      by_test true h =
          let same = ok_inj (ap (λ o. o.0) h) in
          (sym (ap (λ o. o.1) h), subst (λ x. x ≡ record s { name = x.name }) same refl)
      by_test false h = with_step (name_free service s.project_id n w) _ h (λ u e h'.
          let same = ok_inj (ap (λ o. o.0) h') in
          (
            sym (ap (λ o. o.1) h') ∙ name_free-same s.project_id n w,
            subst (λ x. x ≡ record s { name = x.name }) same refl,
          ))

  -- What a stream's new claims have passed.
  abbrev pub Claimed : Stream → List StreamPort → List StreamPort → World → Type 0
  Claimed s ports claims w =
      (tmpl : DomainTemplate) × (get_template s.gateway_template_id w ≡ ok tmpl)
      × IsClaimSet to_upper (λ i. get_row i w) (port_store w) (domain_ports w) tmpl (some s.id)
          ports claims
      × (claims ≡ normalize to_upper ports)
      × ((store : StreamPortStore) × (port_store w ≡ some store)
          × ((used : List StreamPort) × (store.used_ports_by_stream s.id none ≡ some used)
              × All (λ u. has (normalize to_upper claims) u ≡ true) used))

  claim-facts :
      (ports : List StreamPort) (s t : Stream) (w v : World)
      → claim service (some ports) s w ≡ (ok t, v)
      → (v ≡ w) × (t ≡ record s { ports = t.ports }) × Claimed s ports t.ports w
  unfolding claim
  claim-facts ports s t w v h =
      with_step (template_loaded service (get_template s.gateway_template_id w), w) _ h
        (λ tmpl e1 h1.
          with_step (claims_of service tmpl (some s.id) ports w, w) _ h1
            (λ claims e2 h2.
              with_step
                (
                  port_checked service (
                      check_used_claims_kept to_upper (λ i. get_row i w) (port_store w)
                        (domain_ports w) s claims),
                  w,
                )
                _ h2
                (λ u e3 h3.
                  let set =
                    (validate_stream_ports_iff to_upper (λ i. get_row i w) (port_store w)
                        (domain_ports w) tmpl (some s.id) ports claims).0
                      (checked-ok _ e2) in
                  let same = ok_inj (ap (λ o. o.0) h3) in
                  (
                    sym (ap (λ o. o.1) h3),
                    subst (λ x. x ≡ record s { ports = x.ports }) same refl,
                    subst (λ x. Claimed s ports x.ports w) same
                        (
                          tmpl,
                          loaded-ok (get_template s.gateway_template_id w) e1,
                          subst
                              (IsClaimSet to_upper (λ i. get_row i w) (port_store w)
                                (domain_ports w) tmpl (some s.id) ports)
                              set.1 set.0,
                          sym set.1,
                          (check_used_claims_kept_iff to_upper (λ i. get_row i w) (port_store w)
                                (domain_ports w) s claims).0
                              (checked-ok _ e3),
                        ),
                  ))))

  applied-kept :
      (s t : Stream) (w v : World)
      → apply_logged service s w ≡ (ok t, v)
      → (t.ports ≡ s.ports) × (t.k8s_gateway_name ≡ s.k8s_gateway_name)
  unfolding apply_gateway
  applied-kept s t w v h = by_answer (gateway_call service s w) h
    where
      by_answer :
          (o : Result GatewayError (Unit {0}) × World)
          → logged service (status_recorded service s o) ≡ (ok t, v)
          → (t.ports ≡ s.ports) × (t.k8s_gateway_name ≡ s.k8s_gateway_name)
      by_answer (ok a, w') k =
          let same = ok_inj (ap (λ o. o.0) k) in
          (ap (λ x. x.ports) (sym same), ap (λ x. x.k8s_gateway_name) (sym same))
      by_answer (err e, w') k =
          let same = ok_inj (ap (λ o. o.0) k) in
          (ap (λ x. x.ports) (sym same), ap (λ x. x.k8s_gateway_name) (sym same))

  -- A change of a stream's claims that returns a stream has checked them in the database it found:
  -- the template was loaded, the returned claims are the proposed ones in order, they form a claim
  -- set that is acceptable on the template, and every port that a route of the stream uses is still
  -- among them. The Gateway's name stays.
  pub update-Claimed :
      (id : ℕ) (input : UpdateStreamInput) (ports : List StreamPort) (s : Stream) (w v : World)
      → update service id input w ≡ (ok s, v)
      → input.ports ≡ some ports
      → (old : Stream) × (get_row id w ≡ ok old)
        × Claimed old ports s.ports w
        × (s.k8s_gateway_name ≡ old.k8s_gateway_name)
  unfolding update
  update-Claimed id input ports s w v h e =
      with_step
        (
          port_checked service (
              stream_found to_upper (λ i. get_row i w) (port_store w) (domain_ports w)
                (get_row id w)),
          w,
        )
        _ h
        (λ old e1 h1. with_step (rename service input.name old w) _ h1 (λ named e2 h2.
          let w1 = (rename service input.name old w).1 in
          let r = renamed input.name old named w w1 (ap (λ x. (x, w1)) e2) in
          with_step (claim service input.ports named w1) _ h2 (λ set e3 h3.
            let w2 = (claim service input.ports named w1).1 in
            let c =
              claim-facts ports named set w1 w2
                (ap (λ p. claim service p named w1) (sym e) ∙ ap (λ x. (x, w2)) e3) in
            with_step (failed_as service (map_stream_write_error service) (update_row set w2)) _ h3
              (λ u e4 h4.
                let kept =
                  applied-kept set s
                    (failed_as service (map_stream_write_error service) (update_row set w2)).1 v
                    (ap
                        (λ p.
                          apply_claims service p set
                            (failed_as service (map_stream_write_error service)
                              (update_row set w2)).1)
                        (sym e)
                      ∙ h4) in
                (
                  old,
                  found-ok w (get_row id w) e1,
                  subst (λ x. Claimed old ports s.ports x) r.0
                      (subst (λ x. Claimed old ports x w1) (sym kept.0)
                        (subst (λ x. Claimed x ports set.ports w1) r.1 c.2)),
                  kept.1 ∙ ap (λ x. x.k8s_gateway_name) c.1 ∙ ap (λ x. x.k8s_gateway_name) r.1,
                )))))
