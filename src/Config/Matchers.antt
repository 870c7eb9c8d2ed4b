-- ===== src/Config/Matchers.antt =====
-- When the matchers of two routes conflict (internal/services/route_validation.go). `Folding` is Go's
-- strings.EqualFold and strings.ToLower; a Go map with triples as keys is the list of its keys.
use backend_v.Base.{
  ◌==◌, if◌then◌else◌, is_nil, all, any, length, ok, Result, err, ℕ, String, Bool, true, false, not,
  ◌&&◌, Option, none, some, List, [], ◌∷◌, map, str_eq,
}
use backend_v.Config.Model.{
  HeaderMatch, GrpcMethodMatch, RouteConfig, QueryParamMatch, RouteMatch, PathMatch,
}
use backend_v.Traffic.Checks.{Check}
use backend_v.Route.Status.{Route}

pub record Folding : Type 0 where
  pub equal_fold : String → String → Bool
  pub to_lower : String → String

pub record ConflictResult : Type 0 where
  pub route_id : ℕ
  pub route_name : String

-- The `key` of headerMatchesEqual and queryParamMatchesEqual.
pub record Key : Type 0 where
  pub name : String
  pub typ : String
  pub value : String

abbrev pub same_key : Key → Key → Bool
same_key k l = str_eq k.name l.name && (str_eq k.typ l.typ && str_eq k.value l.value)

abbrev pub in_set : List Key → Key → Bool
in_set set k = any (same_key k) set

-- What both comparisons of lists do with the keys of `a` and of `b`.
unfoldable pub keys_equal : List Key → List Key → Bool
keys_equal a b =
    if not (length a == length b) then false else if is_nil a then true else all (in_set a) b

module _ (folding : Folding) where
  open folding use {equal_fold, to_lower}

  unfoldable pub path_match_equal : Option PathMatch → Option PathMatch → Bool
  path_match_equal none none = true
  path_match_equal (some a) (some b) = equal_fold a.type b.type && equal_fold a.value b.value
  path_match_equal _ _ = false

  unfoldable pub grpc_match_equal : Option GrpcMethodMatch → Option GrpcMethodMatch → Bool
  grpc_match_equal none none = true
  grpc_match_equal (some a) (some b) = equal_fold a.type b.type && equal_fold a.value b.value
  grpc_match_equal _ _ = false

  abbrev pub header_key : HeaderMatch → Key
  header_key h = record { name = to_lower h.name; typ = to_lower h.type; value = to_lower h.value }

  abbrev pub query_key : QueryParamMatch → Key
  query_key q = record { name = to_lower q.name; typ = to_lower q.type; value = to_lower q.value }

  unfoldable pub header_matches_equal : List HeaderMatch → List HeaderMatch → Bool
  header_matches_equal a b = keys_equal (map header_key a) (map header_key b)

  unfoldable pub query_param_matches_equal : List QueryParamMatch → List QueryParamMatch → Bool
  query_param_matches_equal a b = keys_equal (map query_key a) (map query_key b)

  unfoldable pub route_matchers_equal : RouteMatch → RouteMatch → Bool
  route_matchers_equal a b =
      path_match_equal a.path b.path
      && (equal_fold a.method b.method
          && (header_matches_equal a.headers b.headers
              && (query_param_matches_equal a.query_params b.query_params
                  && (grpc_match_equal a.grpc_service b.grpc_service
                      && grpc_match_equal a.grpc_method b.grpc_method))))

  -- Is the route the one to leave out?
  abbrev pub excluded : Option ℕ → Route RouteConfig → Bool
  excluded none r = false
  excluded (some id) r = r.id == id

  abbrev pub first_conflicts : RouteMatch → List RouteMatch → Bool
  first_conflicts m [] = false
  first_conflicts m (n ∷ ns) = route_matchers_equal m n

  unfoldable pub first_conflict : RouteMatch → Option ℕ → List (Route RouteConfig) → Check
  first_conflict m exclude [] = ok tt
  first_conflict m exclude (r ∷ rs) =
      let rest = first_conflict m exclude rs in
      if excluded exclude r
      then rest
      else if first_conflicts m r.config.matches
      then err "route matcher conflicts with existing route"
      else rest

  -- `ListByDomainID` with a high limit; `none` when the read fails.
  unfoldable pub validate_matcher_conflict :
      Option (List (Route RouteConfig)) → RouteConfig → Option ℕ → Check
  validate_matcher_conflict listed c exclude = elim c.matches [
    | [] ↦ ok tt
    | m ∷ ms ↦ elim listed [
      | none ↦ err "failed to check matcher conflicts"
      | some routes ↦ first_conflict m exclude routes
    ]
  ]

  unfoldable pub conflicts_among :
      RouteMatch → Option ℕ → List (Route RouteConfig) → List ConflictResult
  conflicts_among m exclude [] = []
  conflicts_among m exclude (r ∷ rs) =
      let rest = conflicts_among m exclude rs in
      if excluded exclude r
      then rest
      else if first_conflicts m r.config.matches
      then record { route_id = r.id; route_name = r.name } ∷ rest
      else rest

  unfoldable pub check_matcher_conflicts :
      Option (List (Route RouteConfig))
      → RouteMatch
      → Option ℕ
      → Result String (List ConflictResult)
  check_matcher_conflicts none m exclude = err "failed to check matcher conflicts"
  check_matcher_conflicts (some routes) m exclude = ok (conflicts_among m exclude routes)
