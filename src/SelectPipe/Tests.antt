-- ===== src/SelectPipe/Tests.antt =====
-- The pipes of lab2/selectpipe.c in short runs.
use open_source_project.Prelude.{true, List, [], ◌∷◌, replicate, All, Bytes, codes, cstr}
use open_source_project.SelectPipe.{
  written, child, hello_msg, bye_msg, running, Line, start_line, read_ready, read_line, State,
  selecting, waiting, writes, acts, reads, start_state, Steps, here, more,
}
use open_source_project.SelectPipe.Messages.{Kept, printed_in_order}

-- The first child has written its greeting once, and the parent has read it.
abbrev one_read : State
one_read = record {
  parent = waiting;
  lines =
      record {
        todo =
            written (codes "B") hello_msg
            ∷ written (codes "B") hello_msg
            ∷ written (codes "B") bye_msg
            ∷ [];
        pipe = [];
        shown = cstr (written (codes "B") hello_msg) ∷ [];
        life = running;
      }
      ∷ replicate 2 (start_line (codes "B"));
}

first_message : Steps (start_state (codes "B")) one_read
unfolding child read_ready read_line
first_message =
    let m : Bytes = written (codes "B") hello_msg in
    let later : List Bytes = m ∷ m ∷ written (codes "B") bye_msg ∷ [] in
    let others : List Line = replicate 2 (start_line (codes "B")) in
    let sent : Line = record { todo = later; pipe = m ∷ []; shown = []; life = running } in
    more (more here (acts selecting [] others (start_line (codes "B")) sent (writes m later [] [])))
      (reads (true ∷ []) (sent ∷ others))

printed_in_order_example : All Kept one_read.lines
printed_in_order_example = printed_in_order (codes "B") one_read first_message
