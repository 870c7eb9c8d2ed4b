-- ===== src/Leader/Exclusive.antt =====
-- Two replicas never lead at once.
use backend_v.Base.{
  Result, ok, err, ℕ, ◌<◌, String, ◌≡◌, refl, ◌≢◌, Bool, true, false, Option, none, some, before,
  sym, ap, ◌∙◌, arith,
}
use backend_v.Leader.Gate.{
  flagged, PostgresGate, scanned, Server, try_lock, attempt, is_leader, shutdown, unlock, pinned,
}
use backend_v.Leader.Laws.{Documented}

-- One replica's step, or the other's.
pub data Step {W : Type 0} (act stop : PostgresGate → W → PostgresGate × W)
    : PostgresGate × PostgresGate × W → PostgresGate × PostgresGate × W → Type 0 where
  first_attempts :
      (g h : PostgresGate) (w : W) → Step act stop (g, h, w) ((act g w).0, h, (act g w).1)
  second_attempts :
      (g h : PostgresGate) (w : W) → Step act stop (g, h, w) (g, (act h w).0, (act h w).1)
  first_stops :
      (g h : PostgresGate) (w : W) → Step act stop (g, h, w) ((stop g w).0, h, (stop g w).1)
  second_stops :
      (g h : PostgresGate) (w : W) → Step act stop (g, h, w) (g, (stop h w).0, (stop h w).1)

pub data Steps {W : Type 0} (act stop : PostgresGate → W → PostgresGate × W)
    : PostgresGate × PostgresGate × W → PostgresGate × PostgresGate × W → Type 0 where
  start : {s : PostgresGate × PostgresGate × W} → Steps act stop s s
  then_step :
      {s t u : PostgresGate × PostgresGate × W}
      → Steps act stop s t
      → Step act stop t u
      → Steps act stop s u

module _ (server : Server) (key : ℕ) (laws : Documented server key) where
  open server use {World, connect, try_advisory_lock, advisory_unlock, close}
  open laws use {
    holds, in_use, fresh, pins, connect-in_use, connect-holds, exclusive, grants, try-in_use,
    try-holds, unlock-in_use, unlock-holds, close-in_use, close-holds,
  }

  -- A gate's session is in use, and holds the lock if the gate leads; without one it does not lead.
  abbrev pub Session : Option ℕ → Bool → World → Type 0
  Session none leads w = leads ≡ false
  Session (some c) leads w = (in_use w c ≡ true) × (leads ≡ true → 0 < holds w c)

  abbrev pub Apart : Option ℕ → ℕ → Type 0
  Apart none d = Unit
  Apart (some c) d = c ≢ d

  -- What a gate's step does to a session in use that is not the gate's own.
  abbrev Spared : Option ℕ → World → World → ℕ → Type 0
  Spared conn w w' d = Apart conn d × (in_use w' d ≡ true) × (holds w' d ≡ holds w d)

  tried-in_use :
      (c d : ℕ) (w : World) (o : Result String Bool × World)
      → try_advisory_lock key c w ≡ o
      → in_use w d ≡ true
      → in_use o.1 d ≡ true
  tried-in_use c d w o e u = ap (λ x. in_use x.1 d) (sym e) ∙ try-in_use w c d ∙ u

  scanned-Session :
      (c : ℕ) (w : World)
      → in_use w c ≡ true
      → (o : Result String Bool × World) → try_advisory_lock key c w ≡ o
      → let (g, w') = flagged server key (scanned server key c o) in Session g.conn g.leader w'
  scanned-Session c w u (ok true, w') e = (
    tried-in_use c c w (ok true, w') e u,
    λ _. omega (arith, ap (λ o. holds o.1 c) (sym e) ∙ grants w c (ap (λ o. o.0) e)),
  )
  scanned-Session c w u (ok false, w') e =
      (tried-in_use c c w (ok false, w') e u, λ h. absurd (cc h))
  scanned-Session c w u (err m, w') e = refl

  scanned-Spared :
      (c d : ℕ) (w : World)
      → c ≢ d
      → in_use w d ≡ true
      → (o : Result String Bool × World) → try_advisory_lock key c w ≡ o
      → let (g, w') = flagged server key (scanned server key c o) in Spared g.conn w w' d
  scanned-Spared c d w n u (ok b, w') e =
      (n, tried-in_use c d w (ok b, w') e u, ap (λ o. holds o.1 d) (sym e) ∙ try-holds w c d n)
  scanned-Spared c d w n u (err m, w') e = (
    tt,
    close-in_use w' c d n ∙ tried-in_use c d w (err m, w') e u,
    close-holds w' c d n ∙ ap (λ o. holds o.1 d) (sym e) ∙ try-holds w c d n,
  )

  pinned-Session :
      (w : World) (o : Result String ℕ × World)
      → connect w ≡ o
      → let (g, w') = flagged server key (pinned server key o) in Session g.conn g.leader w'
  pinned-Session w (ok c, w') e =
      scanned-Session c w' (ap (λ o. in_use o.1 c) (sym e) ∙ pins w c (ap (λ o. o.0) e))
        (try_advisory_lock key c w') refl
  pinned-Session w (err m, w') e = refl

  pinned-Spared :
      (d : ℕ) (w : World)
      → in_use w d ≡ true
      → (o : Result String ℕ × World) → connect w ≡ o
      → let (g, w') = flagged server key (pinned server key o) in Spared g.conn w w' d
  pinned-Spared d w u (ok c, w') e =
      let rest = scanned-Spared c d w' other there (try_advisory_lock key c w') refl in
      (rest.0, rest.1, rest.2 ∙ kept)
    where
      there : in_use w' d ≡ true
      there = ap (λ o. in_use o.1 d) (sym e) ∙ connect-in_use w d u

      kept : holds w' d ≡ holds w d
      kept = ap (λ o. holds o.1 d) (sym e) ∙ connect-holds w d

      other : c ≢ d
      other h = cc (h, u, fresh w c (ap (λ o. o.0) e))
  pinned-Spared d w u (err m, w') e = (
    tt,
    ap (λ o. in_use o.1 d) (sym e) ∙ connect-in_use w d u,
    ap (λ o. holds o.1 d) (sym e) ∙ connect-holds w d,
  )

  abbrev Fits : PostgresGate → World → Type 0
  Fits g w = Session g.conn g.leader w

  attempt-Fits :
      (conn : Option ℕ) (leads : Bool) (w : World)
      → Session conn leads w
      → let (g, w') = flagged server key (try_lock server key conn w) in Fits g w'
  attempt-Fits none leads w h = pinned-Session w (connect w) refl
  attempt-Fits (some c) leads w h = scanned-Session c w h.0 (try_advisory_lock key c w) refl

  attempt-Spared :
      (conn : Option ℕ) (d : ℕ) (w : World)
      → Apart conn d
      → in_use w d ≡ true
      → let (g, w') = flagged server key (try_lock server key conn w) in Spared g.conn w w' d
  attempt-Spared none d w a u = pinned-Spared d w u (connect w) refl
  attempt-Spared (some c) d w a u = scanned-Spared c d w a u (try_advisory_lock key c w) refl

  unlock-Spared :
      (conn : Option ℕ) (d : ℕ) (w : World)
      → Apart conn d
      → in_use w d ≡ true
      → let (conn', w') = unlock server key conn w in Spared conn' w w' d
  unlock-Spared none d w a u = (tt, u, refl)
  unlock-Spared (some c) d w a u =
      let w' = (advisory_unlock key c w).1 in
      (
        tt,
        close-in_use w' c d a ∙ unlock-in_use w c d ∙ u,
        close-holds w' c d a ∙ unlock-holds w c d a,
      )

  unlock-Session :
      (conn : Option ℕ) (w : World)
      → let (conn', w') = unlock server key conn w in Session conn' false w'
  unlock-Session none w = refl
  unlock-Session (some c) w = refl

  -- Both gates' sessions, which differ.
  abbrev Differ : Option ℕ → Option ℕ → Type 0
  Differ conn none = Unit
  Differ conn (some d) = Apart conn d

  abbrev pub Fair : PostgresGate × PostgresGate × World → Type 0
  Fair (g, h, w) = Fits g w × Fits h w × Differ g.conn h.conn

  -- What a step of one gate leaves of the other.
  Spared-other :
      (conn conn' other : Option ℕ) (leads : Bool) (w w' : World)
      → Session other leads w
      → Differ conn other
      → ((d : ℕ) → Apart conn d → in_use w d ≡ true → Spared conn' w w' d)
      → Session other leads w' × Differ conn' other
  Spared-other conn conn' none leads w w' h a f = (h, tt)
  Spared-other conn conn' (some d) leads w w' h a f =
      let rest = f d a h.0 in ((rest.1, λ l. omega (arith, h.1 l, rest.2)), rest.0)

  Differ-sym : (conn other : Option ℕ) → Differ conn other → Differ other conn
  Differ-sym none none h = tt
  Differ-sym none (some d) h = tt
  Differ-sym (some c) none h = tt
  Differ-sym (some c) (some d) h = λ e. h (sym e)

  Step-Fair :
      {s t : PostgresGate × PostgresGate × World}
      → Step (attempt server key) (shutdown server key) s t
      → Fair s
      → Fair t
  unfolding attempt shutdown
  Step-Fair (first_attempts g h w) (fits, other, differ) =
      let spared =
        Spared-other g.conn (attempt server key g w).0.conn h.conn h.leader w
          (attempt server key g w).1 other differ (λ d a u. attempt-Spared g.conn d w a u) in
      (attempt-Fits g.conn g.leader w fits, spared.0, spared.1)
  Step-Fair (second_attempts g h w) (other, fits, differ) =
      let spared =
        Spared-other h.conn (attempt server key h w).0.conn g.conn g.leader w
          (attempt server key h w).1 other (Differ-sym g.conn h.conn differ)
          (λ d a u. attempt-Spared h.conn d w a u) in
      (
        spared.0,
        attempt-Fits h.conn h.leader w fits,
        Differ-sym (attempt server key h w).0.conn g.conn spared.1,
      )
  Step-Fair (first_stops g h w) (fits, other, differ) =
      let spared =
        Spared-other g.conn (shutdown server key g w).0.conn h.conn h.leader w
          (shutdown server key g w).1 other differ (λ d a u. unlock-Spared g.conn d w a u) in
      (unlock-Session g.conn w, spared.0, spared.1)
  Step-Fair (second_stops g h w) (other, fits, differ) =
      let spared =
        Spared-other h.conn (shutdown server key h w).0.conn g.conn g.leader w
          (shutdown server key h w).1 other (Differ-sym g.conn h.conn differ)
          (λ d a u. unlock-Spared h.conn d w a u) in
      (
        spared.0,
        unlock-Session h.conn w,
        Differ-sym (shutdown server key h w).0.conn g.conn spared.1,
      )

  Steps-Fair :
      {s t : PostgresGate × PostgresGate × World}
      → Steps (attempt server key) (shutdown server key) s t
      → Fair s
      → Fair t
  Steps-Fair start h = h
  Steps-Fair (then_step before step) h = Step-Fair step (Steps-Fair before h)

  Fair-one :
      (c d : Option ℕ) (leads leads' : Bool) (w : World)
      → Session c leads w
      → Session d leads' w
      → Differ c d
      → ¬ ((leads ≡ true) × (leads' ≡ true))
  Fair-one none d leads leads' w h h' n (l, l') = cc (h, l)
  Fair-one (some c) none leads leads' w h h' n (l, l') = cc (h', l')
  Fair-one (some c) (some d) leads leads' w h h' n (l, l') = n (exclusive w c d (h.1 l) (h'.1 l'))

  -- Two replicas start without a session and then attempt to lead and shut down in any order. At no
  -- point do both lead, given what Postgres and database/sql document and that sessions last.
  pub at_most_one_leader :
      (w : World) {g h : PostgresGate} {w' : World}
      → Steps
          (attempt server key)
          (shutdown server key)
          (record { conn = none; leader = false }, record { conn = none; leader = false }, w)
          (g, h, w')
      → ¬ ((is_leader g ≡ true) × (is_leader h ≡ true))
  unfolding is_leader
  at_most_one_leader w {g} {h} {w'} steps =
      let fair = Steps-Fair steps (refl, refl, tt) in
      Fair-one g.conn h.conn g.leader h.leader w' fair.0 fair.1 fair.2
