-- ===== src/Stream/ServiceTests.antt =====
-- The theorem on changed claims at a database of one stream on a merged template.
use backend_v.Base.Int.{pos}
use backend_v.Base.{ok, ℕ, String, ◌≡◌, refl, true, false, none, some, List, [], ◌∷◌}
use backend_v.Stream.Service.{
  apply_gateway, rename, StreamService, update, claim, UpdateStreamInput,
}
use backend_v.Stream.Claims.{
  check_shape, StreamPortStore, validate_listener_port, check_port_in_range, check_shared,
  validate_stream_ports, template_domain_defaults, check_used_claims_kept, check_merged,
}
use backend_v.Stream.Model.{
  insert, normalize, StreamPort, stream_range, DomainTemplate, Stream, hostname_ports, Protocol,
  sort, has,
}
use backend_v.Stream.Served.{update-Claimed, Claimed}

abbrev claim_at : ℕ → StreamPort
claim_at port = record { transport = "TCP"; port = pos port }

abbrev shared_template : DomainTemplate
shared_template = record {
  id = 1;
  project_id = 3;
  k8s_gateway_class_name = "envoy";
  listeners =
      record {
        protocol = Protocol.tcp;
        port = pos 0;
        port_range_min = pos 5000;
        port_range_max = pos 6000;
      }
      ∷ [];
  merge_gateways = true;
}

abbrev stream_with : List StreamPort → String → String → Stream
stream_with ports status message = record {
  id = 2;
  project_id = 3;
  name = 100 ∷ 98 ∷ [];
  namespace = "data";
  gateway_template_id = 1;
  k8s_gateway_name = 115 ∷ 116 ∷ 114 ∷ 45 ∷ 100 ∷ 98 ∷ [];
  k8s_gateway_class = "envoy";
  status = status;
  status_message = message;
  created_by = none;
  ports = ports;
}

abbrev one_used : StreamPortStore
one_used = record {
  used_ports_by_stream = λ s r. some (claim_at 5432 ∷ []);
  claimed_ports_by_template = λ t s. some (claim_at 5900 ∷ []);
  l4_port_owners_by_stream = λ s. [];
  pending_l4_port_owners_by_stream = λ s. [];
  deployed_l4_port_owners_by_stream = λ s. [];
}

abbrev one_stream : StreamService
one_stream = record {
  World = Stream;
  to_upper = λ s. s;
  matches = λ s. true;
  lower_runes = λ s. s;
  failure = λ e. "failed";
  capabilities = none;
  get_template = λ t w. ok shared_template;
  deployable = λ p n w. ok true;
  create_row = λ s w. (ok s, s);
  get_row = λ i w. ok w;
  list_all = λ w. some (w ∷ []);
  exists_by_name = λ p n w. some false;
  update_row = λ s w. (ok tt, s);
  update_status = λ i s m w. (ok tt, record w { status = s; status_message = m });
  delete_row = λ i w. (ok tt, w);
  count_by_stream_id = λ i w. some 1;
  delete_gateway = λ p n g w. (ok tt, w);
  update_gateway = λ s w. (ok tt, w);
  port_store = λ w. some one_used;
  domain_ports = λ w. some (λ t. some []);
  cancelled = λ w. false;
}

abbrev wider : UpdateStreamInput
wider = record { name = none; ports = some (claim_at 5500 ∷ claim_at 5432 ∷ []) }

abbrev before_change : Stream
before_change = stream_with (claim_at 5432 ∷ []) "error" "failed"

abbrev after_change : Stream
after_change =
    stream_with (claim_at 5432 ∷ claim_at 5500 ∷ []) "active" "Gateway applied successfully"

widens : update one_stream 2 wider before_change ≡ (ok after_change, after_change)
unfolding update rename claim apply_gateway validate_stream_ports check_shape validate_listener_port
    check_port_in_range check_merged check_shared check_used_claims_kept normalize sort insert
    stream_range has hostname_ports template_domain_defaults
widens = refl

update-Claimed_example :
    (old : Stream) × (one_stream.get_row 2 before_change ≡ ok old)
    × Claimed one_stream old (claim_at 5500 ∷ claim_at 5432 ∷ []) after_change.ports before_change
    × (after_change.k8s_gateway_name ≡ old.k8s_gateway_name)
update-Claimed_example =
    update-Claimed one_stream 2 wider (claim_at 5500 ∷ claim_at 5432 ∷ []) after_change
      before_change after_change widens refl
