-- ===== src/Metadata/Worker.antt =====
-- internal/metadata/sync.go: the life of the sync worker, Start, runLoop, Stop, Restart, SyncNow and
-- the guard of syncOnce, as the steps of any number of goroutines. A section under the mutex is one
-- step, and so is each access to the atomic flag; what a cycle does to the store is in Sync.
pub mod Invariant
pub mod Exclusive
use warpbox.Base.{
  ℕ, suc, ◌≡◌, ◌≢◌, Bool, true, false, ◌||◌, Option, none, some, ◌==◌, if◌then◌else◌,
}

-- A run of the loop is known by the number of its context and of its loopDone channel. A context is
-- over once its cancel was called, or once the process shuts down.
pub record Worker : Type 0 where
  pub started : Bool
  pub cancel : Option ℕ
  pub loop_done : Option ℕ
  pub next : ℕ
  pub syncing : Bool
  pub cancelled : ℕ → Bool
  pub closed : ℕ → Bool
  pub shut_down : Bool

-- Who calls syncOnce.
pub data Caller : Type 0 where
  now : Caller
  in_loop : ℕ → Caller

-- Where a goroutine stands: at the guard of syncOnce, in a cycle, behind syncOnce, waiting in Stop,
-- and behind Stop; `true` stands for the Stop that Restart calls.
pub data Pc : Type 0 where
  idle : Pc
  entry : Caller → Pc
  cycling : Caller → Pc
  back : Caller → Pc
  joining : Option ℕ → Bool → Pc
  stopped : Bool → Pc

unfoldable pub update {ℓ} : {A : Type ℓ} → (ℕ → A) → ℕ → A → ℕ → A
update f i a j = if i == j then a else f j

-- The section of Start, and of Restart, that opens a run of the loop.
abbrev pub opened : Worker → Worker
opened w = record w {
  started = true;
  cancel = some w.next;
  loop_done = some w.next;
  next = suc w.next;
}

-- The section of Stop.
abbrev pub cancel_current : Worker → Worker
cancel_current w = elim w.cancel [
  | none ↦ w
  | some g ↦ record w { cancel = none; cancelled = update w.cancelled g true }
]

-- One step of one goroutine. An idle one may make any of the calls.
pub data Move (w : Worker) : Pc → Worker → Pc → Type 0 where
  start : Move w idle (opened w) (entry (in_loop w.next))
  sync_now : Move w idle w (entry now)
  skip : {c : Caller} → w.syncing ≡ true → Move w (entry c) w (back c)
  enter :
      {c : Caller} → w.syncing ≡ false → Move w (entry c) (record w { syncing = true }) (cycling c)
  finish : {c : Caller} → Move w (cycling c) (record w { syncing = false }) (back c)
  tick : {g : ℕ} → Move w (back (in_loop g)) w (entry (in_loop g))
  leave :
      {g : ℕ}
      → (w.cancelled g || w.shut_down) ≡ true
      → Move w (back (in_loop g)) (record w { closed = update w.closed g true }) idle
  return_now : Move w (back now) w idle
  stop : (restarting : Bool) → Move w idle (cancel_current w) (joining w.loop_done restarting)
  no_loop : {restarting : Bool} → Move w (joining none restarting) w (stopped restarting)
  joined :
      {g : ℕ} {restarting : Bool}
      → w.closed g ≡ true
      → Move w (joining (some g) restarting) w (stopped restarting)
  timed_out :
      {g : ℕ} {restarting : Bool} → Move w (joining (some g) restarting) w (stopped restarting)
  return_stop : Move w (stopped false) w idle
  never_started : w.started ≡ false → Move w (stopped true) w idle

-- The goroutines share one worker.
pub record System : Type 0 where
  pub worker : Worker
  pub pc : ℕ → Pc

-- Restart's second section opens a run of the loop for a new goroutine j.
pub data Step (s : System) : System → Type 0 where
  move :
      (i : ℕ) {w : Worker} {p : Pc}
      → Move s.worker (s.pc i) w p
      → Step s (record { worker = w; pc = update s.pc i p })
  spawn :
      (i j : ℕ)
      → s.pc i ≡ stopped true
      → s.pc j ≡ idle
      → s.worker.started ≡ true
      → Step s (record {
        worker = opened s.worker;
        pc = update (update s.pc i idle) j (entry (in_loop s.worker.next));
      })
  shutdown : Step s (record { worker = record s.worker { shut_down = true }; pc = s.pc })

-- NewSyncWorker
abbrev pub new_worker : Worker
new_worker = record {
  started = false;
  cancel = none;
  loop_done = none;
  next = 0;
  syncing = false;
  cancelled = λ g. false;
  closed = λ g. false;
  shut_down = false;
}

pub data Reach : System → Type 0 where
  begin : Reach (record { worker = new_worker; pc = λ i. idle })
  later : {s t : System} → Reach s → Step s t → Reach t
