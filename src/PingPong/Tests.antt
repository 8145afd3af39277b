-- ===== src/PingPong/Tests.antt =====
-- The two processes, for some steps.
use open_source_project.Prelude.{◌+◌, ◌≤◌, ◌≡◌, ◌&&◌, refl, false, arith}
use open_source_project.Prelude.Runs.{Run, here, more}
use open_source_project.PingPong.{
  State, Step, wakes_up, sends, pauses, handles, child_moves, parent_moves, Reach, start, later,
}
use open_source_project.PingPong.Turns.{Early, parent_early, handlers_alternate}

-- The child has sent its signal, and the parent is not in `pause` yet.
abbrev sent : (s : State) × Reach s
sent = (_, later (later start (child_moves (wakes_up refl))) (child_moves (sends refl)))

-- The parent was in `pause`, and its handler has run.
abbrev handled : (s : State) × Reach s
handled = (_, later (later sent.1 (parent_moves (pauses refl))) (parent_moves (handles refl refl)))

abbrev early : (t : State) × Early sent.0 t
early = (_, parent_early refl (λ e. ground arith))

abbrev both_wait : (u : State) × Run Step early.0 2 u
both_wait = (_, more (more here (parent_moves (pauses refl))) (child_moves (pauses refl)))

handlers_alternate_example :
    (handled.0.child.calls ≤ handled.0.parent.calls)
    × (handled.0.parent.calls ≤ handled.0.child.calls + 1)
    × ((handled.0.child.pending && handled.0.parent.pending) ≡ false)
    × (handled.0.child.merged ≡ 0)
    × (handled.0.parent.merged ≡ 0)
handlers_alternate_example = handlers_alternate handled.1
