-- ===== src/Route/Lifecycle.antt =====
-- What `Machine.To` does on each branch, and what chains of transitions can do to a route.
use backend_v.Base.{
  ◌↔◌, Option-cases, true, false, some, ◌≡◌, refl, arith, Result, ok, err, Bool-cases, inl, inr,
  Option, none, List, Any, ◌≢◌, [], ◌∷◌, sym, subst, ◌⊎◌, ap,
}
use backend_v.Route.Status.{
  RouteStatus, TransitionSite, Route, status_eq, active, deploy, pending_update, pending_delete,
  pending_deploy, pending_create, approved,
}
use backend_v.Route.Machine.{
  RouteStore, to_status, write_status, no_transitions, by_site, unknown_site, illegal_transition,
  RouteError,
}
use backend_v.Route.Legal.{
  Legal, in_table, in_table-of-Legal, in_rows, in_table_irrefl, Legal-of-in_table, first_deploy,
  next_deploy, give_back_delete, Reverts, give_back_update,
}
use backend_v.Route.Table.{legal_transitions, allowed_from, Row}

pub status_eq-eq : (s t : RouteStatus) → status_eq s t ≡ true → s ≡ t
status_eq-eq s t h = ground arith

pub status_eq-ne : (s t : RouteStatus) → s ≢ t → status_eq s t ≡ false
status_eq-ne s t h = elim (Bool-cases (status_eq s t)) [
  | inl e ↦ absurd (h (status_eq-eq s t e))
  | inr e ↦ e
]

status_eq_refl : (s : RouteStatus) → status_eq s s ≡ true
status_eq_refl s = ground arith

-- An error, whichever it is.
abbrev pub IsErr : {E A : Type 0} → Result E A → Type 0
IsErr (ok a) = ⊥
IsErr (err e) = Unit

pub Legal-ne : {t : TransitionSite} (s n : RouteStatus) → Legal t s n → status_eq s n ≡ false
Legal-ne {t} s n h = elim (Bool-cases (status_eq s n)) [
  | inl e ↦ cc (in_table_irrefl t s, in_table-of-Legal h, status_eq-eq s n e)
  | inr e ↦ e
]

module _ {Config : Type 0} (store : RouteStore Config) where
  open store use {World, update}

  -- `by_site` follows the table's answer, whatever the rows are.
  by_site-in_rows :
      (o : Option (List Row)) (r : Route Config) (n : RouteStatus) (w : World)
      → in_rows o r.status n ≡ true
      → by_site store o r n w ≡ write_status store r n w
  unfolding by_site
  by_site-in_rows none r n w h = cc
  by_site-in_rows (some rows) r n w h = ground (arith, h)

  by_site-not_in_rows :
      (o : Option (List Row)) (r : Route Config) (n : RouteStatus) (w : World)
      → in_rows o r.status n ≡ false
      → (e : RouteError) × (by_site store o r n w ≡ (err e, some r, w))
  unfolding by_site
  by_site-not_in_rows none r n w h = (unknown_site, refl)
  by_site-not_in_rows (some rows) r n w h = elim (Option-cases (allowed_from r.status rows)) [
    | inl e ↦ (no_transitions, ground arith)
    | inr (tos, e) ↦ (illegal_transition, ground arith)
  ]

  -- A transition that is legal at its site sets the status in memory, then writes the route: the
  -- result and the new database are those of that write.
  pub to_status-Legal :
      (t : TransitionSite) (r : Route Config) (n : RouteStatus) (w : World)
      → Legal t r.status n
      → to_status store t (some r) n w ≡ (
        (update (record r { status = n }) w).0,
        some (record r { status = n }),
        (update (record r { status = n }) w).1,
      )
  unfolding to_status
  to_status-Legal t r n w h =
      rw (Legal-ne r.status n h)
        (by_site-in_rows (legal_transitions t) r n w (unfold in_table in in_table-of-Legal h))

  not-in_rows :
      (t : TransitionSite) (s n : RouteStatus)
      → ¬ (Legal t s n)
      → in_rows (legal_transitions t) s n ≡ false
  not-in_rows t s n h = elim (Bool-cases (in_table t s n)) [
    | inl e ↦ absurd (h (Legal-of-in_table t s n e))
    | inr e ↦ unfold in_table in e
  ]

  pub to_status-err :
      (t : TransitionSite) (r : Route Config) (n : RouteStatus) (w : World)
      → ¬ (Legal t r.status n)
      → r.status ≢ n
      → (e : RouteError) × (to_status store t (some r) n w ≡ (err e, some r, w))
  unfolding to_status
  to_status-err t r n w h d =
      let (e, p) = by_site-not_in_rows (legal_transitions t) r n w (not-in_rows t r.status n h) in
      (e, ground (arith, p, status_eq-eq r.status n))

  -- A transition that is not legal at its site changes neither the route in memory nor the database,
  -- and it succeeds only if it is to the status that the route has already.
  pub to_status-refuses :
      (t : TransitionSite) (r : Route Config) (n : RouteStatus) (w : World)
      → ¬ (Legal t r.status n)
      → ((to_status store t (some r) n w).0 ≡ ok tt ↔ (r.status ≡ n))
        × ((to_status store t (some r) n w).1 ≡ some r)
        × ((to_status store t (some r) n w).2 ≡ w)
  unfolding to_status
  to_status-refuses t r n w h =
      let (e, p) = by_site-not_in_rows (legal_transitions t) r n w (not-in_rows t r.status n h) in
      ground (arith, p)

-- A chain of moves that the table allows, each with its call site and the status it leaves.
pub data Moves : RouteStatus → List (TransitionSite × RouteStatus) → RouteStatus → Type 0 where
  stay : {s : RouteStatus} → Moves s [] s
  move :
      {s u v : RouteStatus} {t : TransitionSite} {ms : List (TransitionSite × RouteStatus)}
      → in_table t s u ≡ true
      → Moves u ms v
      → Moves s ((t, s) ∷ ms) v

-- The moves that turn a route active, by the site and the status left: a deploy of a route that is
-- approved or queued, and the rejection or cancellation of an update or of a delete request.
pub data MakesActive : TransitionSite → RouteStatus → Type 0 where
  deploys_first : MakesActive deploy approved
  deploys_queued : MakesActive deploy pending_deploy
  reverts_update : {t : TransitionSite} → Reverts t → MakesActive t pending_update
  reverts_delete : {t : TransitionSite} → Reverts t → MakesActive t pending_delete

makes_active : {t : TransitionSite} {s : RouteStatus} → Legal t s active → MakesActive t s
makes_active (give_back_update r) = reverts_update r
makes_active (give_back_delete r) = reverts_delete r
makes_active first_deploy = deploys_first
makes_active next_deploy = deploys_queued

active-cases : (u : RouteStatus) → (u ≡ active) ⊎ (u ≢ active)
active-cases active = inl refl
active-cases pending_create = inr (λ e. cc)
active-cases _ = inr (λ e. cc)

-- Where a chain of moves that the table allows leads a route that is not active to active, some move
-- of it is a deploy that leaves approved or pending_deploy, or a rejection or cancellation that leaves
-- pending_update or pending_delete.
pub active-MakesActive :
    {s v : RouteStatus} {ms : List (TransitionSite × RouteStatus)}
    → Moves s ms v
    → s ≢ active
    → v ≡ active
    → Any (λ (m : TransitionSite × RouteStatus). MakesActive m.0 m.1) ms
active-MakesActive stay h e = absurd (h e)
active-MakesActive (move {s} {u = u} {t = t} l m) h e = elim (active-cases u) [
  | inl p ↦
      inl (makes_active (Legal-of-in_table t s active (subst (λ x. in_table t s x ≡ true) p l)))
  | inr n ↦ inr (active-MakesActive m n e)
]

only_deploy :
    {t : TransitionSite} {s : RouteStatus} → s ≡ pending_deploy → Legal t s active → t ≡ deploy
only_deploy e (give_back_update r) = cc
only_deploy e (give_back_delete r) = cc
only_deploy e first_deploy = refl
only_deploy e next_deploy = refl

-- A queued redeploy of a route is spent at no site but the deploy: everywhere else the move from
-- pending_deploy to active is refused, and neither the route nor the database changes.
pub queued_redeploy_kept :
    {Config : Type 0} (store : RouteStore Config) (t : TransitionSite) (r : Route Config)
    → (w : store.World) → r.status ≡ pending_deploy
    → t ≢ deploy
    → IsErr (to_status store t (some r) active w).0
      × ((to_status store t (some r) active w).1 ≡ some r)
      × ((to_status store t (some r) active w).2 ≡ w)
queued_redeploy_kept store t r w h d =
    let (e, p) = to_status-err store t r active w (λ l. d (only_deploy h l)) (λ q. cc (h, q)) in
    (subst IsErr (sym (ap (λ o. o.0) p)) tt, ap (λ o. o.1) p, ap (λ o. o.2) p)
