-- ===== src/Write/Blocked.antt =====
-- A route with a pending approval takes no further request.
use backend_v.Base.{Result, err, ok, ℕ, ◌≡◌, refl, Option, none, some}
use backend_v.Base.Exec.{Exec, fail_if, continue}
use backend_v.Approval.Model.{Approval}
use backend_v.Write.Submit.{delete, update}
use backend_v.Write.Checks.{validate_update}
use backend_v.Write.Tables.{
  pending_exists, UpdateRouteInput, wrapped, route_failure, wrap, WriteError, RouteService,
}
use backend_v.Traffic.Checks.{is_some}
use backend_v.Route.Lifecycle.{IsErr}

module _ (service : RouteService) where
  open service use {Config, std, text, ports, tables, checks}
  open ports use {World}
  open tables use {get_route, get_pending}

  -- An error, with the database as it was.
  abbrev pub Stopped : {A : Type 0} → World → Result WriteError A × World → Type 0
  Stopped w o = IsErr o.0 × (o.1 ≡ w)

  found-Stopped :
      {E A B : Type 0} (wrap : E → WriteError) (m : Result E A) (w : World)
      → (f : A → Exec WriteError World B) → ((a : A) → Stopped w (f a w))
      → Stopped w (continue (wrapped wrap (m, w)) f)
  found-Stopped wrap (ok a) w f h = h a
  found-Stopped wrap (err e) w f h = (tt, refl)

  read-Stopped :
      {A B : Type 0} (m : Result WriteError A) (w : World) (f : A → Exec WriteError World B)
      → ((a : A) → Stopped w (f a w))
      → Stopped w (continue (m, w) f)
  read-Stopped (ok a) w f h = h a
  read-Stopped (err e) w f h = (tt, refl)

  pending-Stopped :
      {B : Type 0} (o : Option Approval) (a : Approval) (w : World) (f : Exec WriteError World B)
      → o ≡ some a
      → Stopped w (continue (fail_if (is_some o) pending_exists w) (λ u. f))
  pending-Stopped none a w f e = absurd (cc e)
  pending-Stopped (some b) a w f e = (tt, refl)

  -- While a route has a pending approval, a change and a deletion of it both fail, and neither
  -- writes anything.
  pub pending_blocks :
      (id user : ℕ) (input : UpdateRouteInput Config std) (a : Approval) (w : World)
      → get_pending id w ≡ some a
      → Stopped w (update service id input user w) × Stopped w (delete service id user w)
  unfolding update delete
  pending_blocks id user input a w e = (
    found-Stopped route_failure (get_route id w) w _ (λ r.
        read-Stopped (validate_update text tables checks id r input w) w _
          (λ project. pending-Stopped (get_pending id w) a w _ e)),
    found-Stopped route_failure (get_route id w) w _
        (λ r. pending-Stopped (get_pending id w) a w _ e),
  )
