-- ===== src/PipeChat/Tests.antt =====
-- The chat over pipes, for two rounds.
use open_source_project.Prelude.{◌≡◌, refl, none, some, [], arith, codes, cstr}
use open_source_project.PipeChat.{
  got, chat_round, no_input, line, quiet, bytes, State, parent_round, child_round, Reach, start,
  later,
}
use open_source_project.PipeChat.Delivery.{Delivered, heard_in_order}

-- The parent has typed two letters, and the child has read one.
abbrev one_letter : (s : State) × Reach s
unfolding chat_round cstr
one_letter = (
  _,
  later
      (later start (
        parent_round (some (got (codes "hi"))) none (codes "hi") [] _ refl
          (line (codes "hi") (ground arith)) quiet refl))
      (child_round none (some (got (codes "h"))) [] (codes "i") _ refl no_input
        (bytes (codes "h") (codes "i") refl (ground arith)) refl),
)

heard_in_order_example :
    Delivered (codes "Child") one_letter.0.p1 × Delivered (codes "Parent") one_letter.0.p2
heard_in_order_example = heard_in_order one_letter.1

-- The child's screen then.
first_screen : one_letter.0.p1.screen ≡ codes "[Child]: h"
unfolding chat_round cstr
first_screen = refl
