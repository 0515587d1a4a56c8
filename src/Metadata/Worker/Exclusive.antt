-- ===== src/Metadata/Worker/Exclusive.antt =====
-- The sync worker: what holds however its goroutines are interleaved.
use warpbox.Base.{ℕ, ◌≡◌, ◌≢◌, ◌↔◌, refl, true, some}
use warpbox.Metadata.Worker.{
  new_worker, idle, System, Step, move, spawn, shutdown, Reach, begin, later,
}
use warpbox.Metadata.Worker.Invariant.{is_cycling, loop_of, Inv, Move-Inv, spawn-Inv}

begin-Inv : Inv new_worker (λ i. idle)
begin-Inv = record {
  one = λ i j h. cc;
  flag = λ i h. cc;
  held = λ h. cc;
  fresh = λ i g h. cc;
  alone = λ i j g h. cc;
  running = λ i g h. cc;
  unused = λ g h. refl;
}

Step-Inv : {s t : System} → Step s t → Inv s.worker s.pc → Inv t.worker t.pc
Step-Inv (move i mv) inv = Move-Inv i mv inv
Step-Inv (spawn i j from free started) inv = spawn-Inv i j from free inv
Step-Inv shutdown inv = record {
  one = inv.one;
  flag = inv.flag;
  held = inv.held;
  fresh = inv.fresh;
  alone = inv.alone;
  running = inv.running;
  unused = inv.unused;
}

Reach-Inv : {s : System} → Reach s → Inv s.worker s.pc
Reach-Inv begin = begin-Inv
Reach-Inv (later r st) = Step-Inv st (Reach-Inv r)

-- However the ticks of the loops and the calls of Start, Stop, Restart and SyncNow interleave, two
-- goroutines are never in a cycle together, and the flag that Status reports as InProgress is set
-- exactly while one is.
pub one_cycle :
    (s : System)
    → Reach s
    → ((i j : ℕ) → is_cycling (s.pc i) ≡ true → is_cycling (s.pc j) ≡ true → i ≡ j)
      × ((s.worker.syncing ≡ true) ↔ ((i : ℕ) × (is_cycling (s.pc i) ≡ true)))
one_cycle s r = let inv = Reach-Inv r in (inv.one, (inv.held, λ h. inv.flag h.0 h.1))

-- However they interleave, once the loopDone of a run of the loop is closed, which is what lets Stop
-- return before its timeout, no goroutine is in that run any more.
pub no_leftover :
    (s : System) (g i : ℕ) → Reach s → s.worker.closed g ≡ true → loop_of (s.pc i) ≢ some g
no_leftover s g i r closed h = (let running = (Reach-Inv r).running i g h in cc)
