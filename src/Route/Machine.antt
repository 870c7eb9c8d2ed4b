-- ===== src/Route/Machine.antt =====
-- internal/routestate/routestate.go: `Machine.To`.
use backend_v.Base.{ℕ, String, Option, none, some, List, Result, ok, err, any, if◌then◌else◌}
use backend_v.Base.Exec.{Exec}
use backend_v.Route.Status.{RouteStatus, TransitionSite, Route, status_eq}
use backend_v.Route.Table.{Row, legal_transitions, allowed_from}

-- The refusals of the machine, the failures of the store, and those of the completer.
pub data RouteError : Type 0 where
  nil_route unknown_site no_transitions illegal_transition : RouteError
  store_error snapshot_error : String → RouteError
  unsupported_action : RouteError

-- The slice of `RouteRepositoryInterface` that the machine and the completer call, over a database.
pub record RouteStore (Config : Type 0) : Type 1 where
  pub World : Type 0
  pub get_by_id : ℕ → World → Result RouteError (Route Config)
  pub update : Route Config → Exec RouteError World (Unit {0})
  pub delete : ℕ → Exec RouteError World (Unit {0})

module _ {Config : Type 0} (store : RouteStore Config) where
  open store use {World, update}

  -- What a call leaves behind: its error, the route in the caller's memory, the database.
  abbrev pub Outcome : Type 0
  Outcome = Result RouteError (Unit {0}) × Option (Route Config) × World

  -- `route.Status = next; return m.repo.Update(route)`
  unfoldable pub write_status : Route Config → RouteStatus → World → Outcome
  write_status r next w =
      let r' : Route Config = record r { status = next } in
      let (res, w') = update r' w in (res, some r', w')

  -- The search of the allowed targets.
  unfoldable pub try_targets :
      Option (List RouteStatus) → Route Config → RouteStatus → World → Outcome
  unfolding write_status
  try_targets none r next w = (err no_transitions, some r, w)
  try_targets (some tos) r next w =
      if any (λ to. status_eq to next) tos
      then write_status r next w
      else (err illegal_transition, some r, w)

  unfoldable pub by_site : Option (List Row) → Route Config → RouteStatus → World → Outcome
  unfolding try_targets
  by_site none r next w = (err unknown_site, some r, w)
  by_site (some rows) r next w = try_targets (allowed_from r.status rows) r next w

  unfoldable pub to_status : TransitionSite → Option (Route Config) → RouteStatus → World → Outcome
  unfolding by_site
  to_status site none next w = (err nil_route, none, w)
  to_status site (some r) next w =
      if status_eq r.status next
      then (ok tt, some r, w)
      else by_site (legal_transitions site) r next w
