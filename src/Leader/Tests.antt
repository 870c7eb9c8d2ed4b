-- ===== src/Leader/Tests.antt =====
-- The theorems at a database with one lock, whose sessions are numbered as they are handed out.
use backend_v.Base.{
  if◌then◌else◌, ltb, ◌==◌, ok, ok_inj, ℕ, suc, ◌+◌, ◌-◌, ◌<◌, String, ◌≡◌, refl, ◌≢◌, Bool, true,
  false, none, some, arith,
}
use backend_v.Base.Exec.{Exec}
use backend_v.Leader.Stacked.{run-keeps_lock}
use backend_v.Leader.Gate.{is_leader, shutdown, PostgresGate, run, Server, attempt}
use backend_v.Leader.Laws.{Documented}
use backend_v.Leader.Exclusive.{
  Steps, start, first_attempts, at_most_one_leader, then_step, second_attempts,
}

record Db : Type 0 where
  next : ℕ
  owner : ℕ
  count : ℕ

abbrev db_connect : Exec String Db ℕ
db_connect w = (ok w.next, record w { next = w.next + 1 })

abbrev db_try : ℕ → ℕ → Exec String Db Bool
db_try key c w =
    if w.count == 0
    then (ok true, record w { owner = c; count = 1 })
    else if w.owner == c
    then (ok true, record w { count = w.count + 1 })
    else (ok false, w)

abbrev db_unlock : ℕ → ℕ → Exec String Db (Unit {0})
db_unlock key c w = (ok tt, if w.owner == c then record w { count = w.count - 1 } else w)

abbrev database : Server
database = record {
  World = Db;
  connect = db_connect;
  try_advisory_lock = db_try;
  advisory_unlock = db_unlock;
  close = λ c w. (ok tt, w);
}

abbrev db_holds : Db → ℕ → ℕ
db_holds w c = if w.owner == c then w.count else 0

db_grants :
    (w : Db) (c : ℕ) → (db_try 7 c w).0 ≡ ok true → db_holds (db_try 7 c w).1 c ≡ suc (db_holds w c)
db_grants w c h = ground arith

db_try-holds : (w : Db) (c d : ℕ) → c ≢ d → db_holds (db_try 7 c w).1 d ≡ db_holds w d
db_try-holds w c d n = ground arith

db_laws : Documented database 7
db_laws = record {
  holds = db_holds;
  in_use = λ w c. ltb c w.next;
  fresh = λ w c e. ground (arith, ok_inj e);
  pins = λ w c e. ground (arith, ok_inj e);
  connect-in_use = λ w d u. ground arith;
  connect-holds = λ w d. refl;
  exclusive = λ w c d h h'. ground arith;
  grants = db_grants;
  try-in_use = λ w c d. ground arith;
  try-holds = db_try-holds;
  unlocks = λ w c e. ground arith;
  unlock-in_use = λ w c d. ground arith;
  unlock-holds = λ w c d n. ground arith;
  pools = λ w c e. refl;
  close-in_use = λ w c d n. refl;
  close-holds = λ w c d n. refl;
}

abbrev empty : Db
empty = record { next = 1; owner = 0; count = 0 }

abbrev idle : PostgresGate
idle = record { conn = none; leader = false }

abbrev one_leader : PostgresGate × Db
one_leader = (record { conn = some 1; leader = true }, record { next = 2; owner = 1; count = 1 })

two_attempts :
    Steps
      (attempt database 7)
      (shutdown database 7)
      (idle, idle, empty)
      (
        one_leader.0,
        record { conn = some 2; leader = false },
        record { next = 3; owner = 1; count = 1 },
      )
unfolding attempt
two_attempts =
    then_step (then_step start (first_attempts idle idle empty))
      (second_attempts one_leader.0 idle one_leader.1)

at_most_one_leader_example : ¬ (
    (is_leader one_leader.0 ≡ true) × (is_leader (record { conn = some 2; leader = false }) ≡ true))
at_most_one_leader_example = at_most_one_leader database 7 db_laws empty two_attempts

run-keeps_lock_example :
    let after = run database 7 3 idle empty in
    (after.0 ≡ idle)
    × (db_holds after.1 1 ≡ 3 + db_holds (db_connect empty).1 1)
    × (0 < 3 → (d : ℕ) → 1 ≢ d → (db_try 7 d after.1).0 ≢ ok true)
unfolding db_laws
run-keeps_lock_example =
    run-keeps_lock database 7 db_laws 3 1 empty refl (refl, (refl, (refl, (refl, tt)))) refl refl
