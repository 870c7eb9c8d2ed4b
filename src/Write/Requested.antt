-- ===== src/Write/Requested.antt =====
-- What a submitted change of a route leaves in the database.
use backend_v.Base.{
  Bool-cases, Result, err, ok, ◌≡◌, refl, ap, ◌∙◌, inl, inr, some, ok_inj, ℕ, sym, Option, none,
  subst,
}
use backend_v.Base.Exec.{◌>>◌, continue, pure, continue-keeps, Exec}
use backend_v.Write.Laws.{StoreLaws, Keeps, SameRoutes, SameSecurity}
use backend_v.Write.Submit.{
  route_store, moved, begin_update, transition, rewrite_row, put, put_waf, persist_update_policies,
  is_general,
}
use backend_v.Write.Tables.{
  wrapped, RouteService, route_failure, PolicyTable, UpdateRouteInput, WriteError,
}
use backend_v.Route.Lifecycle.{status_eq-eq, to_status-Legal}
use backend_v.Route.Status.{Route, RouteStatus, route_update, status_eq}
use backend_v.Route.Machine.{RouteError}
use backend_v.Route.Legal.{request_update}
use backend_v.Write.Checks.{refuse}
use backend_v.Write.Policies.{WafPolicyConfig, validate_waf, with_traffic, with_extension}
use backend_v.Write.Security.{
  with_security, security_config, SecurityPolicyInput, SecurityPolicyConfig,
}

module _ (service : RouteService) (laws : StoreLaws service) where
  open service use {Config, std, text, ports, tables, checks, key_matches, value_matches, marshal}
  open ports use {World, create_approval, get_project}
  open tables use {get_route, update_route, security, traffic, extension, waf, get_pending}
  open laws use {
    keyed, updated, update-security, created, create-routes, upserted, security-routes,
    traffic-routes, extension-routes, waf-routes, traffic-security, extension-security,
    waf-security,
  }

  -- The row as the request leaves it.
  abbrev pub requested : Route Config → Route Config
  requested r = record r { status = RouteStatus.pending_update }

  moved-row :
      (r r' : Route Config) (o : Result RouteError (Unit {0}) × World)
      → moved service r (o.0, some r', o.1) ≡ continue (wrapped route_failure o) (λ u. pure r')
  moved-row r r' (ok a, w) = refl
  moved-row r r' (err e, w) = refl

  -- Both branches write the requested row.
  begin_update-row :
      (r : Route Config) (w : World)
      → begin_update service r w ≡ rewrite_row service (requested r) w
  unfolding transition
  begin_update-row r w = elim (Bool-cases (status_eq r.status RouteStatus.pending_update)) [
    | inl e ↦ rw e (
        ap (λ s. rewrite_row service (record r { status = s }) w)
          (status_eq-eq r.status RouteStatus.pending_update e))
    | inr e ↦ rw e (
        ap (λ o. moved service r o)
          (to_status-Legal (route_store service) route_update r RouteStatus.pending_update w
            (request_update (λ h. cc (e, ap (λ s. status_eq s RouteStatus.pending_update) h))))
        ∙ moved-row r (requested r) (update_route (requested r) w))
  ]

  written-row :
      (r r' : Route Config) (o : Result RouteError (Unit {0}) × World) (v : World)
      → continue (wrapped route_failure o) (λ u. pure r) ≡ (ok r', v)
      → (r' ≡ r) × (o.0 ≡ ok tt) × (o.1 ≡ v)
  written-row r r' (ok a, w) v h = (sym (ok_inj (ap (λ x. x.0) h)), refl, ap (λ x. x.1) h)
  written-row r r' (err e, w) v h = absurd (cc (ap (λ x. x.0) h))

  pub begun :
      (r r' : Route Config) (w v : World)
      → begin_update service r w ≡ (ok r', v)
      → (r' ≡ requested r) × (get_route r.id v ≡ ok r')
  begun r r' w v h =
      let done =
        written-row (requested r) r' (update_route (requested r) w) v
          (sym (begin_update-row r w) ∙ h) in
      (
        done.0,
        ap (λ x. get_route r.id x) (sym done.2)
            ∙ updated (requested r) w done.1
            ∙ ap (λ x. ok x) (sym done.0),
      )

  wrapped-world : {E F W A : Type 0} (f : E → F) (o : Result E A × W) → (wrapped f o).1 ≡ o.1
  wrapped-world f (ok a, w) = refl
  wrapped-world f (err e, w) = refl

  module _ (Related : World → World → Type 0) (Holds : World → Type 0)
      (closed : (w v : World) → Related w v → Holds w → Holds v) where
    -- A step that leaves related databases keeps what relation keeps.
    through :
        {A : Type 0} (o : Result RouteError A × World) (w : World)
        → Related w o.1
        → Holds w
        → Holds (wrapped route_failure o).1
    through o w p h = subst Holds (sym (wrapped-world route_failure o)) (closed w o.1 p h)

    put-Keeps :
        {C : Type 0} (table : PolicyTable C World)
        → Keeps service Related table
        → (id project : ℕ) (c : Option C) (w : World) → Holds w
        → Holds (put service table id project c w).1
    put-Keeps table keeps id project none w h =
        through (table.delete_by_route_id id w) w (keeps.1 id w) h
    put-Keeps table keeps id project (some c) w h =
        through (table.upsert id project c w) w (keeps.0 id project c w) h

    put_waf-Keeps :
        Keeps service Related waf
        → (id project : ℕ) (c : Option WafPolicyConfig) (w : World) → Holds w
        → Holds (put_waf service id project c w).1
    put_waf-Keeps keeps id project none w h = h
    put_waf-Keeps keeps id project (some c) w h =
        continue-keeps Holds (refuse (validate_waf c), w) _ h
          (λ u e. through (waf.upsert id project c w) w (keeps.0 id project c w) h)

    -- The policies after the security policy.
    rest-Keeps :
        Keeps service Related traffic
        → Keeps service Related extension
        → Keeps service Related waf
        → (id project : ℕ) (input : UpdateRouteInput Config std) (w : World) → Holds w
        → Holds
            ((put service traffic id project (with_traffic std input.traffic)
                >> (put service extension id project (with_extension input.extension)
                    >> put_waf service id project input.waf))
              w).1
    rest-Keeps t x f id project input w h =
        continue-keeps Holds (put service traffic id project (with_traffic std input.traffic) w) _
          (put-Keeps traffic t id project (with_traffic std input.traffic) w h)
          (λ u e.
            continue-keeps Holds
              (put service extension id project (with_extension input.extension) _) _
              (put-Keeps extension x id project (with_extension input.extension) _
                (put-Keeps traffic t id project (with_traffic std input.traffic) w h))
              (λ u' e'. put_waf-Keeps f id project input.waf _ (
                put-Keeps extension x id project (with_extension input.extension) _
                  (put-Keeps traffic t id project (with_traffic std input.traffic) w h))))

  -- Persisting the policies keeps the routes, and stores the security policy of the request.
  pub persist-routes :
      (r : Route Config) (project : ℕ) (input : UpdateRouteInput Config std) (w : World)
      → SameRoutes service w (persist_update_policies service r project input w).1
  unfolding persist_update_policies
  persist-routes r project input w id =
      continue-keeps Holds
        (put service security r.id project
          (with_security text (is_general service r.security_mode) input.security) w)
        _ first
        (λ u e.
          rest-Keeps (SameRoutes service) Holds (λ x y p q. p id ∙ q) traffic-routes
            extension-routes waf-routes r.id project input _ first)
    where
      Holds : World → Type 0
      Holds x = get_route id x ≡ get_route id w

      first :
          Holds
            (put service security r.id project
              (with_security text (is_general service r.security_mode) input.security)
              w).1
      first =
          put-Keeps (SameRoutes service) Holds (λ x y p q. p id ∙ q) security security-routes r.id
            project (with_security text (is_general service r.security_mode) input.security) w refl

  after-stored :
      (id : ℕ) (c : SecurityPolicyConfig) (o : Result RouteError (Unit {0}) × World)
      → (k : Exec WriteError World (Unit {0}))
      → (o.0 ≡ ok tt → security.get_by_route_id id o.1 ≡ some c)
      → ((x : World)
          → security.get_by_route_id id x ≡ some c
          → security.get_by_route_id id (k x).1 ≡ some c)
      → (continue (wrapped route_failure o) (λ u. k)).0 ≡ ok tt
      → security.get_by_route_id id (continue (wrapped route_failure o) (λ u. k)).1 ≡ some c
  after-stored id c (ok a, w) k stored keep h = keep w (stored refl)
  after-stored id c (err e, w) k stored keep h = absurd (cc h)

  put-stored :
      (id project : ℕ) (c : SecurityPolicyConfig) (cs : Option SecurityPolicyConfig)
      → cs ≡ some c
      → (w : World) (k : Exec WriteError World (Unit {0}))
      → ((x : World)
          → security.get_by_route_id id x ≡ some c
          → security.get_by_route_id id (k x).1 ≡ some c)
      → (continue (put service security id project cs w) (λ u. k)).0 ≡ ok tt
      → security.get_by_route_id id (continue (put service security id project cs w) (λ u. k)).1
        ≡ some c
  put-stored id project c none e w k keep h = absurd (cc e)
  put-stored id project c (some c') e w k keep h =
      after-stored id c (security.upsert id project c' w) k
        (λ done. upserted id project c' w done ∙ e) keep h

  pub persist-security :
      (r : Route Config) (project : ℕ) (input : UpdateRouteInput Config std) (w : World)
      → (persist_update_policies service r project input w).0 ≡ ok tt
      → (sp : SecurityPolicyInput) → input.security ≡ some sp
      → security.get_by_route_id r.id (persist_update_policies service r project input w).1
        ≡ some (security_config text (is_general service r.security_mode) sp)
  unfolding persist_update_policies
  persist-security r project input w h sp e =
      put-stored r.id project (security_config text (is_general service r.security_mode) sp)
        (with_security text (is_general service r.security_mode) input.security)
        (ap (λ x. with_security text (is_general service r.security_mode) x) e) w _
        (λ x.
          rest-Keeps (SameSecurity service)
            (λ y.
              security.get_by_route_id r.id y
              ≡ some (security_config text (is_general service r.security_mode) sp))
            (λ y z p q. p r.id ∙ q) traffic-security extension-security waf-security r.id project
            input x)
        h
