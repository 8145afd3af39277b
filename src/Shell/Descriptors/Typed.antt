-- ===== src/Shell/Descriptors/Typed.antt =====
-- project1/myshell.c: from a typed line with redirections to the descriptors of its program.
use open_source_project.Prelude.{
  ◌<◌, ◌≡◌, ◌≢◌, refl, ap, ◌∙◌, false, none, some, List, [], ◌∷◌, ◌==◌, length, words, All, Bytes,
  codes, str_eq,
}
use open_source_project.Shell.Parse.{is_blank}
use open_source_project.Shell.Line.{
  Simple, Decision, external, max_arg_len, builtin_of, dispatch, dispatch_args, run_simple,
  handle_line,
}
use open_source_project.Shell.Line.Meaning.{
  Item, word, input, output, IsItem, flatten, collect, run_simple_lem,
}
use open_source_project.Shell.Session.Typed.{IsPlain, split_pipe-none, strip_amp-no_amp, not_empty}
use open_source_project.Shell.Descriptors.{Table, Opening, Calls, forked, start_programs}
use open_source_project.Shell.Descriptors.Redirected.{with_files, start_external_lem}

abbrev empty : Simple
empty = record { infile = none; outfile = none; args = [] }

some_word :
    (line a : Bytes) (as' : List Bytes) (is' : List Item)
    → words is_blank line ≡ flatten is'
    → (collect is' empty).args ≡ a ∷ as'
    → (length line == 0) ≡ false
some_word line a as' [] e f = absurd (cc)
some_word line a as' (word b ∷ is') e f = not_empty line b (flatten is') e
some_word line a as' (input b ∷ is') e f = not_empty line (codes "<") (b ∷ flatten is') e
some_word line a as' (output b ∷ is') e f = not_empty line (codes ">") (b ∷ flatten is') e

handle_simple :
    (line : Bytes)
    → IsPlain line
    → (length line == 0) ≡ false
    → str_eq line (codes "exit") ≡ false
    → handle_line (some line) ≡ run_simple false line
unfolding handle_line
handle_simple line p long no_exit =
    rw (long, no_exit, strip_amp-no_amp line p.no_amp, split_pipe-none line p.no_pipe)
      (rw (strip_amp-no_amp line p.no_amp) refl)

dispatch_external :
    (r : Simple) (a : Bytes) (as' : List Bytes)
    → r.args ≡ a ∷ as'
    → builtin_of a ≡ none
    → dispatch false r ≡ external false r
unfolding dispatch dispatch_args
dispatch_external r a as' e f = ap (dispatch_args false r) e ∙ rw (f, dispatch_args) refl

-- A typed line other than exit, with no pipe sign and no &, of fewer than 64 words, which are arguments and
-- redirections, the first argument not a built-in command, at a shell whose standard input and output
-- are open: the shell keeps its descriptors, and if it can fork, the program is started with the
-- arguments in order. Of several files for one redirection the last one counts; it becomes the input or
-- the output if it can be opened, and the program is started with the shell's own one if it cannot.
pub typed_redirection :
    (o : Opening) (c : Calls) (t : Table) (line a : Bytes) (as' : List Bytes) (is' : List Item)
    → IsPlain line
    → str_eq line (codes "exit") ≡ false
    → words is_blank line ≡ flatten is'
    → All IsItem is'
    → length (flatten is') < max_arg_len
    → (collect is' empty).args ≡ a ∷ as'
    → builtin_of a ≡ none
    → t 0 ≢ none
    → t 1 ≢ none
    → (d : Decision) × (handle_line (some line) ≡ some d)
      × (start_programs o c d t ≡ (
        t,
        forked c.first (record { args = a ∷ as'; table = with_files o (collect is' empty) t }),
      ))
unfolding start_programs
typed_redirection o c t line a as' is' p no_exit e items short args not_builtin in_use0 in_use1 =
    let r = collect is' empty in
    (
      external false r,
      handle_simple line p (some_word line a as' is' e args) no_exit
          ∙ run_simple_lem false line is' p.no_nul e items short
          ∙ ap some (dispatch_external r a as' args not_builtin),
      ap (λ ps. (t, ps))
          (start_external_lem o c r t in_use0 in_use1
            ∙ ap
                (λ (as'' : List Bytes).
                  forked c.first (record { args = as''; table = with_files o r t }))
                args),
    )
