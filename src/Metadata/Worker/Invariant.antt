-- ===== src/Metadata/Worker/Invariant.antt =====
-- The sync worker: what every step of its goroutines keeps.
use warpbox.Base.{
  ℕ, suc, ◌≤◌, ◌<◌, ◌≡◌, refl, sym, ap, ◌∙◌, Bool, true, false, Option, none, some, ◌==◌,
  if◌then◌else◌, arith,
}
use warpbox.Metadata.Worker.{
  Worker, Caller, now, in_loop, Pc, idle, entry, cycling, back, stopped, update, opened,
  cancel_current, Move, start, sync_now, skip, enter, finish, tick, leave, return_now, stop,
  no_loop, joined, timed_out, return_stop, never_started,
}

abbrev pub is_cycling : Pc → Bool
is_cycling (cycling c) = true
is_cycling other = false

abbrev run_of : Caller → Option ℕ
run_of now = none
run_of (in_loop g) = some g

-- The run of the loop that a goroutine is in.
abbrev pub loop_of : Pc → Option ℕ
loop_of (entry c) = run_of c
loop_of (cycling c) = run_of c
loop_of (back c) = run_of c
loop_of other = none

pub record Inv (w : Worker) (pc : ℕ → Pc) : Type 0 where
  pub one : (i j : ℕ) → is_cycling (pc i) ≡ true → is_cycling (pc j) ≡ true → i ≡ j
  pub flag : (i : ℕ) → is_cycling (pc i) ≡ true → w.syncing ≡ true
  pub held : w.syncing ≡ true → (i : ℕ) × (is_cycling (pc i) ≡ true)
  pub fresh : (i g : ℕ) → loop_of (pc i) ≡ some g → g < w.next
  pub alone : (i j g : ℕ) → loop_of (pc i) ≡ some g → loop_of (pc j) ≡ some g → i ≡ j
  pub running : (i g : ℕ) → loop_of (pc i) ≡ some g → w.closed g ≡ false
  pub unused : (g : ℕ) → w.next ≤ g → w.closed g ≡ false

-- What a step does to the goroutine and the flag.
data Effect (w w' : Worker) (p p' : Pc) : Type 0 where
  quiet : is_cycling p ≡ is_cycling p' → w'.syncing ≡ w.syncing → Effect w w' p p'
  begun :
      is_cycling p ≡ false
      → is_cycling p' ≡ true
      → w.syncing ≡ false
      → w'.syncing ≡ true
      → Effect w w' p p'
  ended : is_cycling p ≡ true → is_cycling p' ≡ false → w'.syncing ≡ false → Effect w w' p p'

syncing-cancel_current : (w : Worker) → (cancel_current w).syncing ≡ w.syncing
syncing-cancel_current w = ground arith

effect : {w w' : Worker} {p p' : Pc} → Move w p w' p' → Effect w w' p p'
effect start = quiet refl refl
effect sync_now = quiet refl refl
effect (skip h) = quiet refl refl
effect (enter h) = begun refl refl h refl
effect finish = ended refl refl refl
effect tick = quiet refl refl
effect (leave h) = quiet refl refl
effect return_now = quiet refl refl
effect {w} (stop r) = quiet refl (syncing-cancel_current w)
effect no_loop = quiet refl refl
effect (joined h) = quiet refl refl
effect timed_out = quiet refl refl
effect return_stop = quiet refl refl
effect (never_started h) = quiet refl refl

module _ (w w' : Worker) (pc : ℕ → Pc) (i : ℕ) (p' : Pc) (inv : Inv w pc)
    (eff : Effect w w' (pc i) p') where
  open inv use {one, flag, held}

  one-move :
      (a b : ℕ)
      → is_cycling (update pc i p' a) ≡ true
      → is_cycling (update pc i p' b) ≡ true
      → a ≡ b
  unfolding update
  one-move a b ha hb = elim eff [
    | quiet same flagged ↦ ground (arith, one a b, one i b, one a i)
    | begun was is free set ↦ ground (arith, one a b, flag a, flag b)
    | ended was is clear ↦ ground (arith, one a b, one i b, one a i)
  ]

  flag-move : (a : ℕ) → is_cycling (update pc i p' a) ≡ true → w'.syncing ≡ true
  unfolding update
  flag-move a ha = elim eff [
    | quiet same flagged ↦ ground (arith, flag a, flag i)
    | begun was is free set ↦ set
    | ended was is clear ↦ ground (arith, one a i)
  ]

  held-move : w'.syncing ≡ true → (a : ℕ) × (is_cycling (update pc i p' a) ≡ true)
  unfolding update
  held-move h = elim eff [
    | quiet same flagged ↦ let (a, c) = held (sym flagged ∙ h) in (a, ground arith)
    | begun was is free set ↦ (i, ground arith)
    | ended was is clear ↦ absurd (ground arith)
  ]

-- What a step does to the goroutine's run of the loop.
data RunEffect (w w' : Worker) (p p' : Pc) : Type 0 where
  kept :
      loop_of p ≡ loop_of p'
      → w'.next ≡ w.next
      → ((g : ℕ) → w'.closed g ≡ w.closed g)
      → RunEffect w w' p p'
  entered :
      loop_of p ≡ none
      → loop_of p' ≡ some w.next
      → w'.next ≡ suc w.next
      → ((g : ℕ) → w'.closed g ≡ w.closed g)
      → RunEffect w w' p p'
  left :
      (g : ℕ)
      → loop_of p ≡ some g
      → loop_of p' ≡ none
      → w'.next ≡ w.next
      → ((h : ℕ) → w'.closed h ≡ (if g == h then true else w.closed h))
      → RunEffect w w' p p'

next-cancel_current : (w : Worker) → (cancel_current w).next ≡ w.next
next-cancel_current w = ground arith

closed-cancel_current : (w : Worker) (g : ℕ) → (cancel_current w).closed g ≡ w.closed g
closed-cancel_current w g = ground arith

run_effect : {w w' : Worker} {p p' : Pc} → Move w p w' p' → RunEffect w w' p p'
unfolding update
run_effect start = entered refl refl refl (λ g. refl)
run_effect sync_now = kept refl refl (λ g. refl)
run_effect (skip h) = kept refl refl (λ g. refl)
run_effect (enter h) = kept refl refl (λ g. refl)
run_effect finish = kept refl refl (λ g. refl)
run_effect tick = kept refl refl (λ g. refl)
run_effect (leave {g} h) = left g refl refl refl (λ h. refl)
run_effect return_now = kept refl refl (λ g. refl)
run_effect {w} (stop r) = kept refl (next-cancel_current w) (closed-cancel_current w)
run_effect no_loop = kept refl refl (λ g. refl)
run_effect (joined h) = kept refl refl (λ g. refl)
run_effect timed_out = kept refl refl (λ g. refl)
run_effect return_stop = kept refl refl (λ g. refl)
run_effect (never_started h) = kept refl refl (λ g. refl)

module _ (w w' : Worker) (pc : ℕ → Pc) (i : ℕ) (p' : Pc) (inv : Inv w pc)
    (eff : RunEffect w w' (pc i) p') where
  open inv use {fresh, alone, running, unused}

  fresh-move : (a g : ℕ) → loop_of (update pc i p' a) ≡ some g → g < w'.next
  unfolding update
  fresh-move a g h = elim eff [
    | kept same n c ↦ ground (arith, fresh a g, fresh i g)
    | entered was is n c ↦ ground (arith, fresh a g)
    | left k was is n c ↦ ground (arith, fresh a g)
  ]

  alone-move :
      (a b g : ℕ)
      → loop_of (update pc i p' a) ≡ some g
      → loop_of (update pc i p' b) ≡ some g
      → a ≡ b
  unfolding update
  alone-move a b g ha hb = elim eff [
    | kept same n c ↦ ground (arith, alone a b g, alone i b g, alone a i g)
    | entered was is n c ↦ ground (arith, alone a b g, fresh a g, fresh b g)
    | left k was is n c ↦ ground (arith, alone a b g)
  ]

  running-move : (a g : ℕ) → loop_of (update pc i p' a) ≡ some g → w'.closed g ≡ false
  unfolding update
  running-move a g h = elim eff [
    | kept same n c ↦ ground (arith, running a g, running i g, c g)
    | entered was is n c ↦ ground (arith, running a g, unused g, c g)
    | left k was is n c ↦ ground (arith, running a g, alone a i g, c g)
  ]

  unused-move : (g : ℕ) → w'.next ≤ g → w'.closed g ≡ false
  unused-move g h = elim eff [
    | kept same n c ↦ ground (arith, unused g, c g)
    | entered was is n c ↦ ground (arith, unused g, c g)
    | left k was is n c ↦ ground (arith, unused g, fresh i k, c g)
  ]

move-Inv :
    (w w' : Worker) (pc : ℕ → Pc) (i : ℕ) (p' : Pc)
    → Inv w pc
    → Effect w w' (pc i) p'
    → RunEffect w w' (pc i) p'
    → Inv w' (update pc i p')
move-Inv w w' pc i p' inv eff run = record {
  one = one-move w w' pc i p' inv eff;
  flag = flag-move w w' pc i p' inv eff;
  held = held-move w w' pc i p' inv eff;
  fresh = fresh-move w w' pc i p' inv run;
  alone = alone-move w w' pc i p' inv run;
  running = running-move w w' pc i p' inv run;
  unused = unused-move w w' pc i p' inv run;
}

-- A step of one goroutine keeps the invariant.
pub Move-Inv :
    {w w' : Worker} {pc : ℕ → Pc} {p' : Pc} (i : ℕ)
    → Move w (pc i) w' p'
    → Inv w pc
    → Inv w' (update pc i p')
Move-Inv {w} {w'} {pc} {p'} i mv inv = move-Inv w w' pc i p' inv (effect mv) (run_effect mv)

-- Restart's second section is a step to idle and, for an idle goroutine, one like Start's.
pub spawn-Inv :
    {w : Worker} {pc : ℕ → Pc} (i j : ℕ)
    → pc i ≡ stopped true
    → pc j ≡ idle
    → Inv w pc
    → Inv (opened w) (update (update pc i idle) j (entry (in_loop w.next)))
unfolding update
spawn-Inv {w} {pc} i j from free inv =
    let p : Pc = update pc i idle j in
    let at : update pc i idle j ≡ idle = ground arith in
    let calm =
      move-Inv w w pc i idle inv (quiet (ap is_cycling from) refl)
        (kept (ap loop_of from) refl (λ g. refl)) in
    move-Inv w (opened w) (update pc i idle) j (entry (in_loop w.next)) calm
      (quiet (ap is_cycling at) refl) (entered (ap loop_of at) refl refl (λ g. refl))
