-- ===== src/Attach/Samples.antt =====
-- What the tests of attachments share: a database of routes and one attachment, and an accepted and
-- then rejected detachment.
use backend_v.Write.Samples.{no_float, plain_text, engine, orders}
use backend_v.Base.{
  if◌then◌else◌, ◌==◌, ok, Result, err, ℕ, Bool, true, false, Option, none, some, [], ◌∷◌,
  Bool-cases, ==_refl, ==_iff, false_iff, ok_inj, ◌≡◌, refl, sym, ap, ◌∙◌, inl, inr,
}
use backend_v.Approval.Model.{
  Approval, ApprovalStatus, ApprovalAction, ApprovalEntityType, effective_min_approvers,
}
use backend_v.Approval.Traversal.{submit, new_approval}
use backend_v.Approval.Planning.{
  no_policy_fallback, find_policy, policy_templates, build_stages, plan_stages, or_fallback,
  or_absent, resolve_team_scope,
}
use backend_v.Base.Int.{pos}
use backend_v.Route.Status.{Route, RouteStatus}
use backend_v.Route.Machine.{RouteError, nil_route}
use backend_v.Attach.Model.{
  AttachmentService, AttachmentStatus, AttachError, Client, ClientRouteAttachment, Credentials,
  refused,
}
use backend_v.Attach.Service.{request_detach, submit_for, detach}
use backend_v.Attach.Ending.{attachment_rejected}
use backend_v.Attach.Laws.{AttachLaws}

pub record Site : Type 0 where
  pub lines : ℕ → Option (Route Bool)
  pub row : Option ClientRouteAttachment

-- The route under an identifier carries it.
abbrev pub line : ℕ → Option (Route Bool) → Result RouteError (Route Bool)
line id none = err nil_route
line id (some r) = ok (record r { id = id })

abbrev pub write_line : Route Bool → Site → Site
write_line r w = record w { lines = λ id. if id == r.id then some r else w.lines id }

abbrev pub by_id : ℕ → Option ClientRouteAttachment → Result AttachError ClientRouteAttachment
by_id id none = err (refused "no row")
by_id id (some a) = if a.id == id then ok a else err (refused "no row")

abbrev pub mobile : Client
mobile = record {
  id = 4;
  team_id = 2;
  name = "mobile";
  api_key_enabled = true;
  jwt_enabled = false;
  mtls_enabled = false;
  ip_address_count = 0;
  header_count = 0;
}

abbrev pub attaching : Bool → AttachmentService
attaching approvals = record {
  Config = Bool;
  std = no_float;
  text = plain_text;
  ports = record (engine Site approvals) {
    get_policy = λ p t a w. ok (some (record { stages = "any" }));
    unmarshal_stages = λ s. some (
        record {
          order = pos 1;
          required_permission = "client.approve";
          team_scope = "any";
          min_approvers = pos 1;
        }
        ∷ []);
  };
  attachments = record {
    get_by_id = λ id w. by_id id w.row;
    get_by_client_and_route = λ c r w. w.row;
    create = λ a w. (ok a, record w { row = some a });
    update = λ a w. (ok tt, record w { row = some a });
  };
  get_client = λ id w. if id == 4 then some mobile else none;
  get_route = λ id w. line id (w.lines id);
  update_route = λ r w. (ok tt, write_line r w);
  delete_route = λ id w. (ok tt, w);
  domain_project = λ d w. some 3;
  domain_mtls = λ d w. false;
}

abbrev pub for_clients : RouteStatus → Route Bool
for_clients s = record (orders s) { security_mode = "client" }

abbrev pub asked_for : ApprovalAction → Approval
asked_for action = record {
  id = 0;
  project_id = 3;
  entity_type = ApprovalEntityType.client_attachment;
  entity_id = 0;
  action = action;
  config_snapshot = none;
  previous_config = none;
  submitted_by = 5;
  status = ApprovalStatus.rejected;
  change_description = "";
  ai_review = none;
  stages = [];
}

abbrev pub keyed_only : Credentials
keyed_only = record {
  enable_ip_allowlist = false;
  enable_api_key = true;
  enable_jwt = false;
  enable_basic_auth = false;
  enable_mtls = false;
  enable_header_auth = false;
  rate_limit_config = none;
  ext_auth = none;
}

abbrev pub attached : AttachmentStatus → ClientRouteAttachment
attached s = record {
  id = 0;
  client_id = 4;
  route_id = 1;
  credentials = keyed_only;
  status = s;
  created_by = 5;
}

-- One route, and the attachment of a client to it.
abbrev pub holding : Option ClientRouteAttachment → Site
holding a = record {
  lines = λ id. if id == 1 then some (for_clients RouteStatus.active) else none;
  row = a;
}

pub by_id-key :
    (id : ℕ) (o : Option ClientRouteAttachment) (a : ClientRouteAttachment)
    → by_id id o ≡ ok a
    → a.id ≡ id
by_id-key id none a h = absurd (cc h)
by_id-key id (some b) a h = elim (Bool-cases (b.id == id)) [
  | inl e ↦
      ap (λ x. x.id)
        (sym (ok_inj (ap (λ c. if c then ok b else err (refused "no row")) (sym e) ∙ h)))
      ∙ (==_iff b.id id).0 e
  | inr e ↦ absurd (cc (ap (λ c. if c then ok b else err (refused "no row")) (sym e) ∙ h))
]

pub line-key : (id : ℕ) (o : Option (Route Bool)) (r : Route Bool) → line id o ≡ ok r → r.id ≡ id
line-key id none r h = absurd (cc h)
line-key id (some s) r h = ap (λ x. x.id) (sym (ok_inj h))

pub laws : (approvals : Bool) → AttachLaws (attaching approvals)
laws approvals = record {
  route_keyed = λ id w r h. line-key id (w.lines id) r h;
  route_updated = λ r w h. rw (==_refl r.id) refl;
  other_routes = λ r w id n. rw ((false_iff (id == r.id) (==_iff id r.id)).1 n) refl;
  attachment_keyed = λ id w a h. by_id-key id w.row a h;
  attachment_updated = λ a w h. rw (==_refl a.id) refl;
  update-routes = λ a w id. refl;
  create-routes = λ a w id. refl;
  created = λ a b w h. sym (ok_inj h) ∙ ap (λ x. record a { id = x.id }) (ok_inj h);
  submit-attachments = λ a w id. refl;
}

pub detaches :
    request_detach (attaching true) 0 5 (holding (some (attached AttachmentStatus.active))) ≡ (
      ok (attached AttachmentStatus.pending_detach),
      holding (some (attached AttachmentStatus.pending_detach)),
    )
unfolding request_detach detach submit_for submit plan_stages find_policy or_absent policy_templates
    build_stages or_fallback no_policy_fallback new_approval resolve_team_scope
    effective_min_approvers
detaches = refl

pub settles :
    (attachment_rejected
      (attaching true)
      (asked_for ApprovalAction.detach)
      (holding (some (attached AttachmentStatus.pending_detach)))).0
    ≡ ok tt
unfolding attachment_rejected
settles = refl
