-- ===== src/Leader/Gate.antt =====
-- `PostgresGate`: its loop and the lock and unlock closures of `New`. Sessions and keys are numbers.
use backend_v.Base.{Result, ok, err, ℕ, zero, suc, String, Bool, false, Option, none, some}
use backend_v.Base.Exec.{Exec}

-- What the gate calls: database/sql and Postgres. `World` is the database with its sessions.
pub record Server : Type 1 where
  pub World : Type 0
  -- `sqlDB.Conn`: pin a session out of the pool.
  pub connect : Exec String World ℕ
  pub try_advisory_lock : ℕ → ℕ → Exec String World Bool
  pub advisory_unlock : ℕ → ℕ → Exec String World (Unit {0})
  -- `conn.Close`
  pub close : ℕ → Exec String World (Unit {0})

-- The pinned session and the leader flag.
pub record PostgresGate : Type 0 where
  pub conn : Option ℕ
  pub leader : Bool

unfoldable pub is_leader : PostgresGate → Bool
is_leader g = g.leader

module _ (server : Server) (key : ℕ) where
  open server use {World, connect, try_advisory_lock, advisory_unlock, close}

  -- A query that fails drops its session.
  abbrev pub scanned : ℕ → Result String Bool × World → Result String Bool × Option ℕ × World
  scanned c (ok acquired, w) = (ok acquired, some c, w)
  scanned c (err e, w) = (err e, none, (close c w).1)

  abbrev pub query : ℕ → World → Result String Bool × Option ℕ × World
  query c w = scanned c (try_advisory_lock key c w)

  abbrev pub pinned : Result String ℕ × World → Result String Bool × Option ℕ × World
  pinned (ok c, w) = query c w
  pinned (err e, w) = (err e, none, w)

  abbrev pub try_lock : Option ℕ → World → Result String Bool × Option ℕ × World
  try_lock none w = pinned (connect w)
  try_lock (some c) w = query c w

  abbrev pub unlock : Option ℕ → World → Option ℕ × World
  unlock none w = (none, w)
  unlock (some c) w = (none, (close c (advisory_unlock key c w).1).1)

  abbrev pub flagged : Result String Bool × Option ℕ × World → PostgresGate × World
  flagged (ok acquired, conn, w) = (record { conn = conn; leader = acquired }, w)
  flagged (err e, conn, w) = (record { conn = conn; leader = false }, w)

  unfoldable pub attempt : PostgresGate → World → PostgresGate × World
  attempt g w = flagged (try_lock g.conn w)

  -- The end of `Run`, once its context is cancelled.
  unfoldable pub shutdown : PostgresGate → World → PostgresGate × World
  shutdown g w = let (conn, w') = unlock g.conn w in (record { conn = conn; leader = false }, w')

  abbrev pub ticks : ℕ → PostgresGate × World → PostgresGate × World
  ticks zero (g, w) = (g, w)
  ticks (suc n) (g, w) = ticks n (attempt g w)

  -- `Run` when the ticker fires `n` times before the context is cancelled.
  unfoldable pub run : ℕ → PostgresGate → World → PostgresGate × World
  run n g w = let (g', w') = ticks n (attempt g w) in shutdown g' w'
