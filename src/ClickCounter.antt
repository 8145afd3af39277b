-- ===== src/ClickCounter.antt =====
-- lab3/8/my_gtk.c: a window with a label that counts the clicks on a button. `int` has 32 bits; an
-- overflow is undefined behaviour, and the result none.
mod Tests
pub mod Clicks
use open_source_project.Prelude.{
  ℕ, zero, suc, ◌+◌, ◌^◌, Option, none, some, List, [], ◌∷◌, ◌++◌, ltb, if◌then◌else◌, Bytes, codes,
}
use open_source_project.Prelude.Decimal.{print_nat}
use open_source_project.ChatServer.Registry.{◌>>=◌}
use open_source_project.ChatClient.{sprintf}

-- `count`, and the text of `label`.
pub record Counter : Type 0 where
  pub count : ℕ
  pub label : Bytes

-- `sprintf(buffer, "Button clicked: %d times", count)`
unfoldable pub label_text : ℕ → Option Bytes
label_text n = sprintf 50 (codes "Button clicked: " ++ (print_nat n ++ codes " times"))

unfoldable pub on_button_clicked : Counter → Option Counter
unfolding label_text
on_button_clicked c =
    if ltb (c.count + 1) (2 ^ 31)
    then (label_text (c.count + 1) >>= λ buffer.
        some (record { count = c.count + 1; label = buffer }))
    else none

-- What `main` shows first.
abbrev pub start_counter : Counter
start_counter = record { count = 0; label = codes "Button clicked: 0 times" }

-- A number of clicks.
unfoldable pub clicks : ℕ → Counter → Option Counter
unfolding on_button_clicked
clicks zero c = some c
clicks (suc n) c = on_button_clicked c >>= clicks n
