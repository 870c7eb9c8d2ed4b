-- ===== src/Route/Moved.antt =====
-- What a transition that succeeds has done, whether it is legal or a no-op.
use backend_v.Base.{Bool-cases, ok, ◌≡◌, sym, ap, ◌∙◌, ◌⊎◌, inl, inr, true, false, some}
use backend_v.Route.Lifecycle.{to_status-Legal, to_status-refuses}
use backend_v.Route.Status.{RouteStatus, TransitionSite, Route}
use backend_v.Route.Machine.{to_status, RouteStore}
use backend_v.Route.Legal.{in_table-of-Legal, Legal-of-in_table, in_table}

module _ {Config : Type 0} (store : RouteStore Config) where
  open store use {World, update}

  -- A transition that succeeds either finds the route in its status and keeps the database, or writes
  -- the route with the new status, successfully and once.
  pub to_status-ok :
      (t : TransitionSite) (r : Route Config) (n : RouteStatus) (w : World)
      → (to_status store t (some r) n w).0 ≡ ok tt
      → ((r.status ≡ n) × ((to_status store t (some r) n w).2 ≡ w))
        ⊎ (((update (record r { status = n }) w).0 ≡ ok tt)
            × ((to_status store t (some r) n w).2 ≡ (update (record r { status = n }) w).1))
  to_status-ok t r n w h = split (Bool-cases (in_table t r.status n))
    where
      split :
          (in_table t r.status n ≡ true) ⊎ (in_table t r.status n ≡ false)
          → ((r.status ≡ n) × ((to_status store t (some r) n w).2 ≡ w))
            ⊎ (((update (record r { status = n }) w).0 ≡ ok tt)
                × ((to_status store t (some r) n w).2 ≡ (update (record r { status = n }) w).1))
      split (inl e) =
          let p = to_status-Legal store t r n w (Legal-of-in_table t r.status n e) in
          inr (sym (ap (λ o. o.0) p) ∙ h, ap (λ o. o.2) p)
      split (inr e) =
          let p = to_status-refuses store t r n w (λ l. cc (in_table-of-Legal l, e)) in
          inl (p.0.0 h, p.2)
