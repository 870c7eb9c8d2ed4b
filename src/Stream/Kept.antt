-- ===== src/Stream/Kept.antt =====
-- When the routes of a stream keep their claims, and when the claims on a template stay apart from
-- its domains.
use backend_v.Base.{
  bind_iff, id_iff, each_iff, chain_iff, guard_as, Passes, not_iff, All, Result, ℕ, String, ◌≡◌,
  ◌↔◌, true, Option, none, some, List,
}
use backend_v.Base.Int.{ℤ}
use backend_v.Stream.Claims.{
  Reader, DbError, check_used_claims_kept, StreamPortStore, check_domain_ports_against_streams,
  tcp_port, template_domain_defaults, check_merged_template_set,
}
use backend_v.Stream.Model.{StreamPort, normalize, Stream, has, DomainTemplate}
use backend_v.Stream.Accepts.{has-false, unless_if_iff, IsFree, loaded_iff}

module _ (to_upper : String → String) (get_by_id : ℕ → Result DbError Stream)
    (port_store : Option StreamPortStore) (domain_ports : Option Reader) where
  -- `checkUsedClaimsKept` lets the claims of a stream change exactly when the port store is set and
  -- read, and every port that a route of the stream uses is still claimed.
  pub check_used_claims_kept_iff :
      (stream : Stream) (next : List StreamPort)
      → Passes (check_used_claims_kept to_upper get_by_id port_store domain_ports stream next) ↔ (
          (store : StreamPortStore) × (port_store ≡ some store)
          × ((used : List StreamPort) × (store.used_ports_by_stream stream.id none ≡ some used)
              × All (λ u. has (normalize to_upper next) u ≡ true) used))
  unfolding check_used_claims_kept
  check_used_claims_kept_iff stream next =
      let keep = normalize to_upper next in
      bind_iff _ _ (loaded_iff _ port_store) (λ store.
        bind_iff _ _ (loaded_iff _ (store.used_ports_by_stream stream.id none)) (λ used.
          each_iff (λ u. has keep u ≡ true) _ used
            (λ u. guard_as _ _ (not_iff (has keep u) (id_iff _)))))

-- The listeners of a merged template may change exactly when both reads succeed and no port that a
-- stream claims is one of a domain, or as TCP one of the template's HTTP, HTTPS and TLS ports.
pub check_merged_template_set_iff :
    (streams domains : Reader) (tmpl : DomainTemplate)
    → Passes (check_merged_template_set streams domains tmpl) ↔ (
        (stream_used : List StreamPort) × (streams tmpl.id ≡ some stream_used)
        × ((domain_used : List StreamPort) × (domains tmpl.id ≡ some domain_used)
            × (All (IsFree stream_used) domain_used
                × All
                    (λ port. IsFree stream_used (tcp_port port))
                    (template_domain_defaults tmpl))))
unfolding check_merged_template_set
check_merged_template_set_iff streams domains tmpl =
    bind_iff _ _ (loaded_iff _ (streams tmpl.id)) (λ stream_used.
      bind_iff _ _ (loaded_iff _ (domains tmpl.id)) (λ domain_used.
        chain_iff _ _
          (each_iff (IsFree stream_used) _ domain_used
            (λ u. guard_as _ _ (has-false stream_used u)))
          (each_iff (λ port. IsFree stream_used (tcp_port port)) _ (template_domain_defaults tmpl)
            (λ port. guard_as _ _ (has-false stream_used (tcp_port port))))))

-- A domain may bind its listener ports exactly when its template is not merged, or the claims of the
-- template's streams are read and hold none of the ports as TCP.
pub check_domain_ports_against_streams_iff :
    (streams : Option Reader) (tmpl : DomainTemplate) (ports : List ℤ)
    → Passes (check_domain_ports_against_streams streams tmpl ports) ↔ (
        tmpl.merge_gateways ≡ true
        → (claimed : Reader) × (streams ≡ some claimed)
          × ((used : List StreamPort) × (claimed tmpl.id ≡ some used)
              × All (λ port. IsFree used (tcp_port port)) ports))
unfolding check_domain_ports_against_streams
check_domain_ports_against_streams_iff streams tmpl ports = unless_if_iff tmpl.merge_gateways _ (
    bind_iff _ _ (loaded_iff _ streams) (λ claimed.
      bind_iff _ _ (loaded_iff _ (claimed tmpl.id)) (λ used.
        each_iff (λ port. IsFree used (tcp_port port)) _ ports
          (λ port. guard_as _ _ (has-false used (tcp_port port))))))
