-- ===== src/NonblockPipe/Tests.antt =====
-- The pipes of lab2/nonblockpipe.c in a short run.
use open_source_project.Prelude.{true, false, refl, [], ◌∷◌, codes, cstr}
use open_source_project.NonblockPipe.{
  State, pipe_empty, msg, sent_bytes, read_pipe, write_pipe, parent_msg, start_state, parent_reads,
  child_reads, parent_writes, Reach, begin, later,
}
use open_source_project.NonblockPipe.Messages.{Carried, greetings_arrive}

-- The parent finds its pipe empty and writes, and the child reads.
abbrev one_greeting : State
one_greeting = record {
  parent = record { writing = false; printed = pipe_empty ∷ []; sent = 1 };
  child = record {
    writing = true;
    printed = msg (cstr (sent_bytes (codes "B") parent_msg)) ∷ [];
    sent = 0;
  };
  to_child = [];
  to_parent = [];
}

one_greeting_reached : Reach (codes "B") one_greeting
unfolding read_pipe write_pipe
one_greeting_reached =
    let a : State = record start_state {
      parent = record { writing = true; printed = pipe_empty ∷ []; sent = 0 };
    } in
    let b : State = record start_state {
      parent = record { writing = false; printed = pipe_empty ∷ []; sent = 1 };
      to_child = sent_bytes (codes "B") parent_msg ∷ [];
    } in
    let r1 : Reach (codes "B") a = later begin (parent_reads start_state refl) in
    let r2 : Reach (codes "B") b = later r1 (parent_writes true a refl) in
    later r2 (child_reads b refl)

greetings_arrive_run : Carried one_greeting
greetings_arrive_run = greetings_arrive (codes "B") one_greeting one_greeting_reached
