-- ===== src/Shell/Tests.antt =====
-- Lines at the shell of project1/myshell.c.
use open_source_project.Prelude.{
  ◌≡◌, refl, true, none, some, List, [], ◌∷◌, arith, ltb, if◌then◌else◌, length, words, words_from,
  codes, str_eq, cstr,
}
use open_source_project.Commands.Text.Lines.{unlines}
use open_source_project.Shell.Simple.{shell, shell-unlines}
use open_source_project.Shell.Parse.{is_blank, parse_args}
use open_source_project.Shell.Parse.Words.{parse_args-words}
use open_source_project.Shell.Line.{external, builtin, pipeline, Builtin, handle_line}
use open_source_project.Shell.Line.Meaning.{Item, word, input}

background_line :
    handle_line (some (codes "sleep 5  &"))
    ≡ some (
        external true
          (record { infile = none; outfile = none; args = codes "sleep" ∷ codes "5" ∷ [] }))
unfolding handle_line parse_args str_eq cstr
background_line = refl

-- A built-in command drops its redirection.
builtin_line :
    handle_line (some (codes "cat f > g"))
    ≡ some (builtin Builtin.cat (codes "cat" ∷ codes "f" ∷ []))
unfolding handle_line parse_args str_eq cstr
builtin_line = refl

-- Behind a second pipe sign everything belongs to the second command.
two_pipes : handle_line (some (codes "a|b|c")) ≡ some (pipeline (codes "a" ∷ []) (codes "b|c" ∷ []))
unfolding handle_line parse_args str_eq cstr
two_pipes = refl

parse_args-words_example : parse_args 64 (codes "ls  -l") ≡ (
    if ltb (length (words is_blank (codes "ls  -l"))) 64
    then some (words is_blank (codes "ls  -l"))
    else none)
parse_args-words_example = parse_args-words 64 (codes "ls  -l") (ground arith)

abbrev items : List Item
items = word (codes "wc") ∷ input (codes "f") ∷ []

-- The empty line runs nothing.
shell-unlines_example :
    shell (unlines (codes "ls -l" ∷ [] ∷ [])) ≡ some ((codes "ls" ∷ codes "-l" ∷ []) ∷ [])
unfolding words_from
shell-unlines_example = shell-unlines (codes "ls -l" ∷ [] ∷ []) (
  (ground arith, ground arith, omega arith, omega arith),
  ((tt, tt, omega arith, omega arith), tt),
)
