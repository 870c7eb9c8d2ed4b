-- ===== src/Write/Laws.antt =====
-- What the submitting side relies on of its repositories: what a write stores, and what it leaves.
use backend_v.Base.{ok, ℕ, ◌≡◌, some}
use backend_v.Approval.Model.{Approval}
use backend_v.Write.Security.{SecurityPolicyConfig}
use backend_v.Write.Tables.{RouteService, PolicyTable}
use backend_v.Route.Status.{Route}

module _ (service : RouteService) where
  open service use {Config, std, ports, tables}
  open ports use {World, create_approval}
  open tables use {get_route, update_route, security, traffic, extension, waf}

  -- The routes, and the security policies, of two databases.
  abbrev pub SameRoutes : World → World → Type 0
  SameRoutes w v = (id : ℕ) → get_route id v ≡ get_route id w

  abbrev pub SameSecurity : World → World → Type 0
  SameSecurity w v = (id : ℕ) → security.get_by_route_id id v ≡ security.get_by_route_id id w

  -- The writes of a policy table that an update makes keep a relation.
  abbrev pub Keeps : {C : Type 0} → (World → World → Type 0) → PolicyTable C World → Type 0
  Keeps {C} P table =
      ((id project : ℕ) (c : C) (w : World) → P w (table.upsert id project c w).1)
      × ((id : ℕ) (w : World) → P w (table.delete_by_route_id id w).1)

  pub record StoreLaws : Type 0 where
    pub keyed : (id : ℕ) (w : World) (r : Route Config) → get_route id w ≡ ok r → r.id ≡ id
    pub updated :
        (r : Route Config) (w : World)
        → (update_route r w).0 ≡ ok tt
        → get_route r.id (update_route r w).1 ≡ ok r
    pub update-security : (r : Route Config) (w : World) → SameSecurity w (update_route r w).1
    pub created :
        (a b : Approval) (w : World)
        → (create_approval a w).0 ≡ ok b
        → (b.entity_id ≡ a.entity_id)
          × (b.action ≡ a.action)
          × (b.config_snapshot ≡ a.config_snapshot)
    pub create-routes : (a : Approval) (w : World) → SameRoutes w (create_approval a w).1
    pub upserted :
        (id project : ℕ) (c : SecurityPolicyConfig) (w : World)
        → (security.upsert id project c w).0 ≡ ok tt
        → security.get_by_route_id id (security.upsert id project c w).1 ≡ some c
    pub security-routes : Keeps SameRoutes security
    pub traffic-routes : Keeps SameRoutes traffic
    pub extension-routes : Keeps SameRoutes extension
    pub waf-routes : Keeps SameRoutes waf
    pub traffic-security : Keeps SameSecurity traffic
    pub extension-security : Keeps SameSecurity extension
    pub waf-security : Keeps SameSecurity waf
