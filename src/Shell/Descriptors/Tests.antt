-- ===== src/Shell/Descriptors/Tests.antt =====
-- The descriptors of a pipeline and of a command with redirections, at small inputs.
use open_source_project.Prelude.{
  ℕ, ◌≡◌, inl, inr, refl, true, Option, none, some, List, [], ◌∷◌, arith, if◌then◌else◌, ltb,
  Option-cases, Bool-cases, codes, str_eq, words_from,
}
use open_source_project.Shell.Line.{Decision, pipeline, builtin_of, handle_line}
use open_source_project.Shell.Line.Meaning.{Item, word, input, output}
use open_source_project.Shell.Session.Typed.{IsPlain}
use open_source_project.Shell.Descriptors.{
  Description, inherited, read_end, write_end, reads, writes, Table, opened, Opening, Calls,
  start_programs,
}
use open_source_project.Shell.Descriptors.Redirected.{put}
use open_source_project.Shell.Descriptors.Lines.{run_lines, GivesFree, run_lines_lem}
use open_source_project.Shell.Descriptors.Typed.{typed_redirection}

-- A shell at a terminal.
abbrev terminal : Table
terminal n = if ltb n 3 then some (inherited n) else none

-- Only the descriptor 3 is given, and the file g cannot be opened for reading.
abbrev three : Option Description → Option ℕ
three none = some 3
three (some d) = none

abbrev answer : Table → Description → Option ℕ
answer t (reads f) = if str_eq f (codes "g") then none else three (t 3)
answer t _ = three (t 3)

three-free : (t : Table) (fd : ℕ) → three (t 3) ≡ some fd → t fd ≡ none
three-free t fd e = elim (Option-cases (t 3)) [
  | inl f ↦ ground (arith, f, e)
  | inr (d, f) ↦ ground (arith, f, e)
]

answer-free : (t : Table) (d : Description) (fd : ℕ) → answer t d ≡ some fd → t fd ≡ none
answer-free t (reads f) fd e = elim (Bool-cases (str_eq f (codes "g"))) [
  | inl g ↦ ground (arith, g, e)
  | inr g ↦ three-free t fd (rw g at e)
]
answer-free t (inherited n) fd e = three-free t fd e
answer-free t read_end fd e = three-free t fd e
answer-free t write_end fd e = three-free t fd e
answer-free t (writes f) fd e = three-free t fd e

abbrev opening : Opening
opening = record { answer = answer; free = answer-free }

abbrev calls : Calls
calls = record { fds = some (3, 4); first = true; second = true }

terminal-GivesFree : (d : Decision) → GivesFree terminal (calls, d)
terminal-GivesFree d rd wr e = record {
  read_free = ground (arith, e);
  write_free = ground (arith, e);
  differ = ground (arith, e);
}

abbrev ls_wc : Decision
ls_wc = pipeline (codes "ls" ∷ []) (codes "wc" ∷ [])

run_lines_lem_example : run_lines opening ((calls, ls_wc) ∷ (calls, ls_wc) ∷ []) terminal ≡ (
  terminal,
  record { args = codes "ls" ∷ []; table = opened 1 write_end terminal }
      ∷ record { args = codes "wc" ∷ []; table = opened 0 read_end terminal }
      ∷ record { args = codes "ls" ∷ []; table = opened 1 write_end terminal }
      ∷ record { args = codes "wc" ∷ []; table = opened 0 read_end terminal }
      ∷ [],
)
run_lines_lem_example =
    run_lines_lem opening ((calls, ls_wc) ∷ (calls, ls_wc) ∷ []) terminal
      (terminal-GivesFree ls_wc, (terminal-GivesFree ls_wc, tt)) (cc) (cc)

abbrev items : List Item
items = input (codes "f") ∷ word (codes "wc") ∷ output (codes "h") ∷ input (codes "e") ∷ []

IsPlain-line : IsPlain (codes "< f wc > h < e")
IsPlain-line = record {
  no_nul = ground arith;
  no_newline = ground arith;
  no_pipe = ground arith;
  no_amp = ground arith;
}

typed_redirection_example :
    (d : Decision) × (handle_line (some (codes "< f wc > h < e")) ≡ some d)
    × (start_programs opening calls d terminal ≡ (
      terminal,
      record {
        args = codes "wc" ∷ [];
        table = put 1 (some (writes (codes "h"))) (put 0 (some (reads (codes "e"))) terminal);
      }
          ∷ [],
    ))
unfolding words_from str_eq builtin_of
typed_redirection_example =
    typed_redirection opening calls terminal (codes "< f wc > h < e") (codes "wc") [] items
      IsPlain-line refl refl (tt, ((refl, refl), (tt, (tt, tt)))) (omega arith) refl refl (cc) (cc)
