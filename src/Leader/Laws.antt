-- ===== src/Leader/Laws.antt =====
-- What the documentation of Postgres and of database/sql promises of one lock's key.
use backend_v.Base.{ok, ℕ, suc, ◌-◌, ◌<◌, ◌≡◌, ◌≢◌, Bool, true, false}
use backend_v.Leader.Gate.{Server}

module _ (server : Server) (key : ℕ) where
  open server use {World, connect, try_advisory_lock, advisory_unlock, close}

  pub record Documented : Type 0 where
    -- How often a session holds the lock, and whether a replica has the session pinned.
    pub holds : World → ℕ → ℕ
    pub in_use : World → ℕ → Bool
    -- A session that is handed out is in use by nobody else.
    pub fresh : (w : World) (c : ℕ) → (connect w).0 ≡ ok c → in_use w c ≡ false
    pub pins : (w : World) (c : ℕ) → (connect w).0 ≡ ok c → in_use (connect w).1 c ≡ true
    pub connect-in_use : (w : World) (d : ℕ) → in_use w d ≡ true → in_use (connect w).1 d ≡ true
    pub connect-holds : (w : World) (d : ℕ) → holds (connect w).1 d ≡ holds w d
    -- At most one session holds the lock; each request that it grants stacks a hold.
    pub exclusive : (w : World) (c d : ℕ) → 0 < holds w c → 0 < holds w d → c ≡ d
    pub grants :
        (w : World) (c : ℕ)
        → (try_advisory_lock key c w).0 ≡ ok true
        → holds (try_advisory_lock key c w).1 c ≡ suc (holds w c)
    pub try-in_use : (w : World) (c d : ℕ) → in_use (try_advisory_lock key c w).1 d ≡ in_use w d
    pub try-holds :
        (w : World) (c d : ℕ) → c ≢ d → holds (try_advisory_lock key c w).1 d ≡ holds w d
    -- Unlocking takes one hold away.
    pub unlocks :
        (w : World) (c : ℕ)
        → (advisory_unlock key c w).0 ≡ ok tt
        → holds (advisory_unlock key c w).1 c ≡ holds w c - 1
    pub unlock-in_use : (w : World) (c d : ℕ) → in_use (advisory_unlock key c w).1 d ≡ in_use w d
    pub unlock-holds :
        (w : World) (c d : ℕ) → c ≢ d → holds (advisory_unlock key c w).1 d ≡ holds w d
    -- Closing gives the session back to the pool, which leaves it open.
    pub pools : (w : World) (c : ℕ) → (close c w).0 ≡ ok tt → holds (close c w).1 c ≡ holds w c
    pub close-in_use : (w : World) (c d : ℕ) → c ≢ d → in_use (close c w).1 d ≡ in_use w d
    pub close-holds : (w : World) (c d : ℕ) → c ≢ d → holds (close c w).1 d ≡ holds w d
