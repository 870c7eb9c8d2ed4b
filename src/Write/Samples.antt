-- ===== src/Write/Samples.antt =====
-- What the tests of writes, attachments and deploys share: packages that answer the simplest thing, an
-- engine without policies, and one route.
use backend_v.Base.{
  if◌then◌else◌, ltb, ◌==◌, ok, Result, err, ℕ, Bool, true, false, Option, none, some, [], ◌∷◌,
  Bool-cases, ==_iff, ok_inj, ◌≡◌, sym, ap, ◌∙◌, inl, inr,
}
use backend_v.Approval.Ports.{port_error, Ports, policy_not_found}
use backend_v.Traffic.Checks.{Std}
use backend_v.Write.Security.{Text}
use backend_v.Write.Tables.{PolicyTable}
use backend_v.Route.Status.{Route, RouteStatus}
use backend_v.Route.Machine.{RouteError, nil_route}

abbrev pub no_float : Std
no_float = record {
  parse_duration = λ s. none;
  parse_cidr = λ s. true;
  parse_ip = λ s. true;
  size_pattern = λ s. true;
  Float32 = ℕ;
  below_zero = λ n. false;
  above_hundred = λ n. ltb 100 n;
}

abbrev pub plain_text : Text
plain_text = record {
  to_upper = λ s. s;
  trim_space = λ s. s;
  has_prefix = λ s p. true;
  contains = λ s p. false;
  concat = λ s t. s;
  parse_ip = λ s. none;
  parse_cidr = λ s. true;
  bytes = λ s. 97 ∷ [];
}

abbrev pub engine : Type 0 → Bool → Ports
engine Site approvals = record {
  World = Site;
  get_by_id = λ i w. err (port_error "no approvals here");
  create_approval = λ a w. (ok a, w);
  update_approval = λ a w. (ok tt, w);
  update_stage = λ s w. (ok tt, w);
  create_review = λ r w. (ok tt, w);
  list_by_stage_id = λ s w. ok [];
  count_by_stage_and_decision = λ s d w. ok 0;
  get_policy = λ p t a w. err policy_not_found;
  unmarshal_stages = λ s. none;
  get_user_teams_in_project = λ u p w. ok [];
  list_project_teams = λ p w. ok [];
  is_member = λ t u w. ok false;
  has_permission_in_project = λ p u perm w. ok true;
  get_project = λ p w. ok (record { approval_enabled = approvals; self_approval_allowed = false });
  is_admin = λ p u w. (false, none);
  completers = λ t. none;
}

abbrev pub blank : {C Site : Type 0} → PolicyTable C Site
blank = record {
  get_by_route_id = λ id w. none;
  create = λ id p c w. (ok tt, w);
  upsert = λ id p c w. (ok tt, w);
  delete_by_route_id = λ id w. (ok tt, w);
}

abbrev pub orders : RouteStatus → Route Bool
orders s = record {
  id = 1;
  domain_id = some 9;
  stream_id = none;
  team_id = 2;
  name = "orders";
  description = "orders";
  protocol = "http";
  security_mode = "general";
  k8s_route_name = "orders-1";
  created_by = 5;
  labels = [];
  config = true;
  status = s;
}

-- A table of one route.
abbrev pub by_id : ℕ → Option (Route Bool) → Result RouteError (Route Bool)
by_id id none = err nil_route
by_id id (some r) = if r.id == id then ok r else err nil_route

pub by_id-key : (id : ℕ) (o : Option (Route Bool)) (r : Route Bool) → by_id id o ≡ ok r → r.id ≡ id
by_id-key id none r h = absurd (cc h)
by_id-key id (some s) r h = elim (Bool-cases (s.id == id)) [
  | inl e ↦
      ap (λ x. x.id) (sym (ok_inj (ap (λ b. if b then ok s else err nil_route) (sym e) ∙ h)))
      ∙ (==_iff s.id id).0 e
  | inr e ↦ absurd (cc (ap (λ b. if b then ok s else err nil_route) (sym e) ∙ h))
]
