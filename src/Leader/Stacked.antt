-- ===== src/Leader/Stacked.antt =====
-- The holds that a run of the election leaves behind.
use backend_v.Base.{
  ok_inj, err, Result, ok, ℕ, zero, suc, ◌+◌, ◌<◌, String, ◌≡◌, refl, sym, ap, ◌∙◌, subst, ◌≢◌,
  Bool, true, false, none, some, arith,
}
use backend_v.Leader.Gate.{
  ticks, run, shutdown, PostgresGate, scanned, query, pinned, Server, flagged, attempt,
}
use backend_v.Leader.Laws.{Documented}

module _ (server : Server) (key : ℕ) (laws : Documented server key) where
  open server use {World, connect, try_advisory_lock, advisory_unlock, close}
  open laws use {holds, exclusive, grants, try-holds, unlocks, pools}

  -- The database after `n` requests by one session, and that it granted each.
  abbrev pub asked : ℕ → ℕ → World → World
  asked zero c w = w
  asked (suc n) c w = asked n c (try_advisory_lock key c w).1

  abbrev pub Granted : ℕ → ℕ → World → Type 0
  Granted zero c w = Unit
  Granted (suc n) c w =
      ((try_advisory_lock key c w).0 ≡ ok true) × Granted n c (try_advisory_lock key c w).1

  abbrev leading : ℕ → PostgresGate
  leading c = record { conn = some c; leader = true }

  scanned-leading :
      (c : ℕ) (o : Result String Bool × World)
      → o.0 ≡ ok true
      → flagged server key (scanned server key c o) ≡ (leading c, o.1)
  scanned-leading c (ok b, w) h = rw (ok_inj h) refl
  scanned-leading c (err e, w) h = absurd (cc h)

  ticks-leading :
      (n c : ℕ) (w : World)
      → Granted n c w
      → ticks server key n (leading c, w) ≡ (leading c, asked n c w)
  unfolding attempt
  ticks-leading zero c w h = refl
  ticks-leading (suc n) c w h =
      ap (λ s. ticks server key n s) (scanned-leading c (try_advisory_lock key c w) h.0)
      ∙ ticks-leading n c (try_advisory_lock key c w).1 h.1

  holds-asked : (n c : ℕ) (w : World) → Granted n c w → holds (asked n c w) c ≡ n + holds w c
  holds-asked zero c w h = omega arith
  holds-asked (suc n) c w h =
      omega (arith, holds-asked n c (try_advisory_lock key c w).1 h.1, grants w c h.0)

  refused : (w : World) (c d : ℕ) → c ≢ d → 0 < holds w c → (try_advisory_lock key d w).0 ≢ ok true
  refused w c d n h g = n (
      exclusive (try_advisory_lock key d w).1 c d
        (omega (arith, h, try-holds w d c (λ e. n (sym e)))) (omega (arith, grants w d g)))

  pinned-leading :
      (c : ℕ) (o : Result String ℕ × World)
      → o.0 ≡ ok c
      → (try_advisory_lock key c o.1).0 ≡ ok true
      → flagged server key (pinned server key o) ≡ (leading c, (try_advisory_lock key c o.1).1)
  pinned-leading c (ok d, w) h g =
      subst
        (λ e.
          flagged server key (query server key e w) ≡ (leading c, (try_advisory_lock key c w).1))
        (sym (ok_inj h)) (scanned-leading c (try_advisory_lock key c w) g)
  pinned-leading c (err e, w) h g = absurd (cc h)

  run-shutdown :
      (n c : ℕ) (w : World)
      → (connect w).0 ≡ ok c
      → Granted (suc n) c (connect w).1
      → run server key n (record { conn = none; leader = false }) w
        ≡ shutdown server key (leading c) (asked (suc n) c (connect w).1)
  unfolding run attempt
  run-shutdown n c w pin granted =
      ap (λ s. shutdown server key s.0 s.1)
        (ap (λ s. ticks server key n s) (pinned-leading c (connect w) pin granted.0)
          ∙ ticks-leading n c (try_advisory_lock key c (connect w).1).1 granted.1)

  holds-shutdown :
      (n c : ℕ) (w : World)
      → Granted (suc n) c w
      → (advisory_unlock key c (asked (suc n) c w)).0 ≡ ok tt
      → (close c (advisory_unlock key c (asked (suc n) c w)).1).0 ≡ ok tt
      → holds (shutdown server key (leading c) (asked (suc n) c w)).1 c ≡ n + holds w c
  unfolding shutdown
  holds-shutdown n c w granted unlocked closed =
      let v = asked (suc n) c w in
      omega (
        arith,
        pools (advisory_unlock key c v).1 c closed,
        unlocks v c unlocked,
        holds-asked (suc n) c w granted,
      )

  -- A run pins a session, which is granted the lock by the first attempt and by each of `n` ticks,
  -- and shuts down with its unlock and its close succeeding. Then the gate gave up its session and
  -- its flag, but the session, back in the pool, holds the lock `n` times more often than when it
  -- was pinned; with a tick, every other session is refused.
  pub run-keeps_lock :
      (n c : ℕ) (w : World)
      → (connect w).0 ≡ ok c
      → Granted (suc n) c (connect w).1
      → (advisory_unlock key c (asked (suc n) c (connect w).1)).0 ≡ ok tt
      → (close c (advisory_unlock key c (asked (suc n) c (connect w).1)).1).0 ≡ ok tt
      → let after = run server key n (record { conn = none; leader = false }) w in
        (after.0 ≡ record { conn = none; leader = false })
        × (holds after.1 c ≡ n + holds (connect w).1 c)
        × (0 < n → (d : ℕ) → c ≢ d → (try_advisory_lock key d after.1).0 ≢ ok true)
  unfolding shutdown
  run-keeps_lock n c w pin granted unlocked closed =
      let left = holds-shutdown n c (connect w).1 granted unlocked closed in
      rw (run-shutdown n c w pin granted) (
        refl,
        left,
        λ ticked d other.
            refused (shutdown server key (leading c) (asked (suc n) c (connect w).1)).1 c d other
              (omega (arith, left, ticked)),
      )
