-- ===== src/Write/Tables.antt =====
-- What the writes of routes call: the repositories of routes, owners, teams and policies, and the
-- checks of a route's configuration, which only read. `W` is the database.
use backend_v.Base.{ok, err, Result, ℕ, String, Bool, Option, List, ◌≡◌, refl, ap}
use backend_v.Base.Exec.{Exec, continue}
use backend_v.Approval.Ports.{ApprovalError, Ports}
use backend_v.Approval.Model.{Approval}
use backend_v.Write.Security.{SecurityPolicyInput, SecurityPolicyConfig, Text}
use backend_v.Write.Policies.{BackendTrafficPolicy, WafPolicyConfig, EnvoyExtensionPolicy}
use backend_v.Traffic.Checks.{Std, Check}
use backend_v.Route.Status.{Route}
use backend_v.Route.Machine.{RouteError}

pub data WriteError : Type 0 where
  route_failure : RouteError → WriteError
  approval_failure : ApprovalError → WriteError
  invalid_request : String → WriteError
  owner_ambiguous not_l4 stream_not_found domain_not_found : WriteError
  team_not_found name_taken duplicate_row port_collision pending_exists : WriteError

-- What gorm answers to an insert: a unique violation or another failure.
pub data InsertError : Type 0 where
  duplicated_key : InsertError
  insert_failed : RouteError → InsertError

-- The repository of one kind of policy: by route, with the project on a write. A read that fails or
-- finds nothing is `none`.
pub record PolicyTable (C W : Type 0) : Type 0 where
  pub get_by_route_id : ℕ → W → Option C
  pub create : ℕ → ℕ → C → Exec RouteError W (Unit {0})
  pub upsert : ℕ → ℕ → C → Exec RouteError W (Unit {0})
  pub delete_by_route_id : ℕ → Exec RouteError W (Unit {0})

-- Owners are read for their project; a failed read is `none`, and so is that of a pending approval.
pub record Tables (Config : Type 0) (std : Std) (W : Type 0) : Type 0 where
  pub get_route : ℕ → W → Result RouteError (Route Config)
  pub create_route : Route Config → Exec InsertError W (Unit {0})
  pub update_route : Route Config → Exec RouteError W (Unit {0})
  pub delete_route : ℕ → Exec RouteError W (Unit {0})
  pub exists_by_name : ℕ → String → W → Result RouteError Bool
  pub exists_by_stream_and_name : ℕ → String → W → Result RouteError Bool
  pub domain_project : ℕ → W → Option ℕ
  pub stream_project : ℕ → W → Option ℕ
  pub team_exists : ℕ → W → Bool
  pub get_pending : ℕ → W → Option Approval
  pub security : PolicyTable SecurityPolicyConfig W
  pub traffic : PolicyTable (BackendTrafficPolicy std) W
  pub extension : PolicyTable EnvoyExtensionPolicy W
  pub waf : PolicyTable WafPolicyConfig W

-- The checks of the configuration itself: the first four lines of `validateRouteTrafficPolicies`, then
-- `validateDirectResponseInput` and `validateRouteShapeAndConflicts`. The last arguments of `shape`
-- are the route's domain and stream and the route to leave out.
pub record ConfigChecks (Config : Type 0) (std : Std) (W : Type 0) : Type 0 where
  pub backends : Config → ℕ → W → Check
  pub direct_response : Config → Option (BackendTrafficPolicy std) → Check
  pub shape :
      Config
      → Option (BackendTrafficPolicy std)
      → String
      → Option ℕ
      → Option ℕ
      → Option ℕ
      → W
      → Check

pub record CreateRouteInput (Config : Type 0) (std : Std) : Type 0 where
  pub name : String
  pub description : String
  pub protocol : String
  pub security_mode : String
  pub team_id : ℕ
  pub config : Config
  pub security : Option SecurityPolicyInput
  pub traffic : Option (BackendTrafficPolicy std)
  pub extension : Option EnvoyExtensionPolicy
  pub waf : Option WafPolicyConfig
  pub change_description : String
  pub ai_review : Option String
  pub labels : Option (List (String × String))
  pub stream_id : Option ℕ

pub record UpdateRouteInput (Config : Type 0) (std : Std) : Type 0 where
  pub description : String
  pub config : Config
  pub security : Option SecurityPolicyInput
  pub traffic : Option (BackendTrafficPolicy std)
  pub extension : Option EnvoyExtensionPolicy
  pub waf : Option WafPolicyConfig
  pub change_description : String
  pub ai_review : Option String
  pub labels : Option (List (String × String))

-- `RouteApprovalSnapshot`
pub record Snapshot (Config : Type 0) (std : Std) : Type 0 where
  pub route_config : Config
  pub security : Option SecurityPolicyConfig
  pub traffic : Option (BackendTrafficPolicy std)
  pub extension : Option EnvoyExtensionPolicy
  pub waf : Option WafPolicyConfig

-- A route as a write returns it.
pub record Written (Config : Type 0) : Type 0 where
  pub row : Route Config
  pub pending_approval : Option Approval

-- A call of another layer, with its error wrapped.
abbrev pub wrapped : {E F W A : Type 0} → (E → F) → Result E A × W → Result F A × W
wrapped f (ok a, w) = (ok a, w)
wrapped f (err e, w) = (err (f e), w)

-- A chain that returned, with what a wrapped call returned.
pub with_wrapped :
    {E F W A B C : Type 0} (wrap : E → F) (o : Result E A × W) (f : A → Exec F W B) {b : B} {w : W}
    → continue (wrapped wrap o) f ≡ (ok b, w)
    → ((a : A) → o.0 ≡ ok a → f a o.1 ≡ (ok b, w) → C)
    → C
with_wrapped wrap (ok a, v) f h k = k a refl h
with_wrapped wrap (err e, v) f h k = absurd (cc (ap (λ o. o.0) h))

abbrev pub wrap : {E F W A : Type 0} → (E → F) → Exec E W A → Exec F W A
wrap f m w = wrapped f (m w)

-- `RouteService`, with json.Marshal of a snapshot and the regexps of label keys and values.
pub record RouteService : Type 1 where
  pub Config : Type 0
  pub std : Std
  pub text : Text
  pub ports : Ports
  pub tables : Tables Config std ports.World
  pub checks : ConfigChecks Config std ports.World
  pub key_matches : String → Bool
  pub value_matches : String → Bool
  pub marshal : Snapshot Config std → String
