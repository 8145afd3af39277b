-- ===== src/PingPong/Turns.antt =====
-- lab2/ch8/sendsignal.c: whose turn it is, and what a signal costs that comes before `pause`.
use open_source_project.Prelude.{ℕ, ◌+◌, ◌≤◌, ◌≡◌, ◌≢◌, refl, Bool, true, false, ◌&&◌, ◌∙◌, arith}
use open_source_project.Prelude.Runs.{Run, here, more}
use open_source_project.PingPong.{
  Pc, asleep, at_kill, at_pause, paused, Process, Move, wakes_up, sends, pauses, handles,
  handles_early, State, Step, child_moves, parent_moves, Reach, start, later,
}

-- Does the process go on to `kill` without a further signal?
abbrev active : Pc → ℕ
active asleep = 1
active at_kill = 1
active at_pause = 0
active paused = 0

abbrev one_if : Bool → ℕ
one_if true = 1
one_if false = 0

-- The turns that `a` has: its own one, or the signal that it sent.
abbrev turns : Process → Process → ℕ
turns a b = active a.pc + one_if b.pending

-- At most one process has the turn, and the child's handler has run as often as the parent's one or once
-- less, which the turn decides; no signal has been merged.
abbrev Inv : Process → Process → Type 0
Inv c p =
    (turns c p + turns p c ≤ 1)
    × (turns c p ≡ 1 → p.calls ≡ c.calls)
    × (turns p c ≡ 1 → p.calls ≡ c.calls + 1)
    × (c.calls ≤ p.calls)
    × (p.calls ≤ c.calls + 1)
    × (c.merged ≡ 0)
    × (p.merged ≡ 0)

child-Inv : {c p c' p' : Process} → Move c p c' p' → Inv c p → Inv c' p'
child-Inv (wakes_up e) v = ground (arith, v)
child-Inv (sends e) v = ground (arith, v)
child-Inv (pauses e) v = ground (arith, v)
child-Inv (handles e f) v = ground (arith, v)
child-Inv (handles_early e f) v = ground (arith, v)

parent-Inv : {c p c' p' : Process} → Move p c p' c' → Inv c p → Inv c' p'
parent-Inv (wakes_up e) v = ground (arith, v)
parent-Inv (sends e) v = ground (arith, v)
parent-Inv (pauses e) v = ground (arith, v)
parent-Inv (handles e f) v = ground (arith, v)
parent-Inv (handles_early e f) v = ground (arith, v)

Step-Inv : {s t : State} → Step s t → Inv s.child s.parent → Inv t.child t.parent
Step-Inv (child_moves mv) v = child-Inv mv v
Step-Inv (parent_moves mv) v = parent-Inv mv v

Reach-Inv : {s : State} → Reach s → Inv s.child s.parent
Reach-Inv start =
    (omega arith, λ h. refl, λ h. absurd (omega arith), omega arith, omega arith, refl, refl)
Reach-Inv (later r st) = Step-Inv st (Reach-Inv r)

-- In every interleaving the two handlers run in turns, the parent's one first: the child's counter is the
-- parent's one or one less, never is a signal on its way to both, and no signal is ever sent to a process
-- that has one pending, so that none is merged with another.
pub handlers_alternate :
    {s : State}
    → Reach s
    → (s.child.calls ≤ s.parent.calls)
      × (s.parent.calls ≤ s.child.calls + 1)
      × ((s.child.pending && s.parent.pending) ≡ false)
      × (s.child.merged ≡ 0)
      × (s.parent.merged ≡ 0)
handlers_alternate r =
    let v = Reach-Inv r in
    let (one, _, _, lo, hi, cm, pm) = v in (lo, hi, ground (arith, one), cm, pm)

-- No turn is left.
abbrev Over : State → Type 0
Over s = turns s.child s.parent + turns s.parent s.child ≡ 0

Move-Over :
    {a b a' b' : Process}
    → Move a b a' b'
    → turns a b + turns b a ≡ 0
    → (turns a' b' + turns b' a' ≡ 0) × (a'.calls ≡ a.calls) × (b'.calls ≡ b.calls)
Move-Over (wakes_up e) h = absurd (ground arith)
Move-Over (sends e) h = absurd (ground arith)
Move-Over (pauses e) h = (ground arith, refl, refl)
Move-Over (handles e f) h = absurd (ground arith)
Move-Over (handles_early e f) h = absurd (ground arith)

-- A handler that runs before its process is in `pause`.
pub data Early (s : State) : State → Type 0 where
  child_early :
      s.child.pending ≡ true
      → s.child.pc ≢ paused
      → Early s (record s { child = record s.child { pending = false; calls = s.child.calls + 1 } })
  parent_early :
      s.parent.pending ≡ true
      → s.parent.pc ≢ paused
      → Early s
          (record s { parent = record s.parent { pending = false; calls = s.parent.calls + 1 } })

Early-Over : {s t : State} → Inv s.child s.parent → Early s t → Over t
Early-Over v (child_early e f) = ground (arith, v.0)
Early-Over v (parent_early e f) = ground (arith, v.0)

abbrev Same : State → State → Type 0
Same s t = Over t × (t.child.calls ≡ s.child.calls) × (t.parent.calls ≡ s.parent.calls)

Run-Over : {s t : State} {n : ℕ} → Over s → Run Step s n t → Same s t
Run-Over o here = (o, refl, refl)
Run-Over o (more run (child_moves mv)) =
    let (o', e, f) = Run-Over o run in let (o'', e', f') = Move-Over mv o' in (o'', e' ∙ e, f' ∙ f)
Run-Over o (more run (parent_moves mv)) =
    let (o', e, f) = Run-Over o run in
    let (o'', f', e') = Move-Over mv (omega arith) in (omega arith, e' ∙ e, f' ∙ f)

-- If a signal is handled before `pause`, the exchange is over: no handler runs again, in any run.
pub early_signal_ends :
    {s t u : State} (n : ℕ)
    → Reach s
    → Early s t
    → Run Step t n u
    → (u.child.calls ≡ t.child.calls) × (u.parent.calls ≡ t.parent.calls)
early_signal_ends n r early run =
    let (_, e, f) = Run-Over (Early-Over (Reach-Inv r) early) run in (e, f)
