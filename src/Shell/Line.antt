-- ===== src/Shell/Line.antt =====
-- project1/myshell.c, the loop of `main`: what the shell does with one line from `readline`. The
-- processes that it starts are not modelled: the result is the decision. `none` is an access behind the
-- end of an array; for a pipeline it is one of the two child processes that makes it.
pub mod Meaning
use open_source_project.Prelude.{
  ℕ, zero, suc, ◌+◌, ◌-◌, ◌*◌, ◌/◌, ◌%◌, ◌^◌, ◌≤◌, ◌<◌, ◌≡◌, ◌≢◌, ◌↔◌, ◌⊎◌, inl, inr, refl, sym, ap,
  ◌∙◌, Bool, true, false, ◌&&◌, ◌||◌, not, Option, none, some, List, [], ◌∷◌, ◌++◌, map,
  append_assoc, append-nil, arith, dec_lt, ℕ_discrete, ltb, leb, ◌==◌, ==_iff, if◌then◌else◌,
  Bool-cases, Option-cases, length, get_elem?, get_or, set, take, drop, replicate, length-append,
  length-set, get_or-set_self, get_or-set_ne, get_elem?-set_self, get_elem?-set_ne, keep, words,
  words_from, is_space, IsWord, words-append_blank, words_last, All, All-append, Bytes, codes,
  str_eq, str_eq_iff, str_eq_sound, str_eq_refl, starts_with, cstr, NoNul, cstr-append_nul,
  cstr_of_NoNul,
}
use mathlib.Core.List.{reverse}
use open_source_project.ChatServer.Registry.{◌>>=◌}
use open_source_project.Shell.Parse.{is_blank, parse_args}

abbrev pub max_arg_len : ℕ
max_arg_len = 64

pub data Builtin : Type 0 where
  cd ls pwd mkdir rmdir ln cp rm mv cat grep : Builtin

-- A simple command behind the redirections: `args`, with the last `<` file and the last `>` file.
pub record Simple : Type 0 where
  pub infile : Option Bytes
  pub outfile : Option Bytes
  pub args : List Bytes

pub data Decision : Type 0 where
  nothing : Decision
  quit : Decision
  pipeline : List Bytes → List Bytes → Decision
  builtin : Builtin → List Bytes → Decision
  external : Bool → Simple → Decision

-- The scan for the pipe sign: the text before and behind the first `|`.
unfoldable pub split_pipe : Bytes → Option (Bytes × Bytes)
split_pipe [] = none
split_pipe (c ∷ s) =
    let rest : Option (Bytes × Bytes) = elim (split_pipe s) [
      | none ↦ none
      | some (l, r) ↦ some (c ∷ l, r)
    ] in
    if c == b'|' then some ([], s) else rest

-- The loop that overwrites spaces by NUL, from the last byte backwards; the text is given from its end.
unfoldable pub trim_back : Bytes → Bytes
trim_back [] = []
trim_back (c ∷ s) = if c == 32 then trim_back s else c ∷ s

-- `is_bg` and the text that is left, for a text given from its end.
unfoldable pub strip_back : Bytes → Bool × Bytes
unfolding trim_back
strip_back [] = (false, [])
strip_back (c ∷ s) = if c == b'&' then (true, reverse (trim_back s)) else (false, reverse (c ∷ s))

unfoldable pub strip_amp : Bytes → Bool × Bytes
unfolding strip_back
strip_amp text = strip_back (reverse text)

-- The loop over `temp_args`. Behind `<` or `>` the index steps twice: with no word there it passes the
-- NULL, and the loop reads what lies behind the stored arguments.
unfoldable pub redirect : List Bytes → Simple → Option Simple
redirect [] r = some r
redirect (a ∷ []) r =
    if str_eq a (codes "<") || str_eq a (codes ">")
    then none
    else some (record r { args = r.args ++ (a ∷ []) })
redirect (a ∷ b ∷ rest) r =
    let input = redirect rest (record r { infile = some b }) in
    let output = redirect rest (record r { outfile = some b }) in
    let word = redirect (b ∷ rest) (record r { args = r.args ++ (a ∷ []) }) in
    if str_eq a (codes "<") then input else if str_eq a (codes ">") then output else word

-- The chain of `strcmp` tests on `args[0]`.
unfoldable pub builtin_of : Bytes → Option Builtin
builtin_of a =
    if str_eq a (codes "cd")
    then some cd
    else if str_eq a (codes "ls")
    then some ls
    else if str_eq a (codes "pwd")
    then some pwd
    else if str_eq a (codes "mkdir")
    then some mkdir
    else if str_eq a (codes "rmdir")
    then some rmdir
    else if str_eq a (codes "ln")
    then some ln
    else if str_eq a (codes "cp")
    then some cp
    else if str_eq a (codes "rm")
    then some rm
    else if str_eq a (codes "mv")
    then some mv
    else if str_eq a (codes "cat")
    then some cat
    else if str_eq a (codes "grep")
    then some grep
    else none

-- The command of `r`, by its arguments: a built-in one takes no notice of the redirections.
unfoldable pub dispatch_args : Bool → Simple → List Bytes → Decision
unfolding builtin_of
dispatch_args is_bg r [] = nothing
dispatch_args is_bg r (a ∷ as') = elim (builtin_of a) [
  | some b ↦ builtin b (a ∷ as')
  | none ↦ external is_bg r
]

unfoldable pub dispatch : Bool → Simple → Decision
unfolding dispatch_args
dispatch is_bg r = dispatch_args is_bg r r.args

-- A simple command line.
unfoldable pub run_simple : Bool → Bytes → Option Decision
unfolding dispatch redirect
run_simple is_bg text = parse_args max_arg_len text >>= λ temp.
    redirect temp (record { infile = none; outfile = none; args = [] }) >>= λ r.
    some (dispatch is_bg r)

-- One round of the loop; the argument `none` is the end of the input of `readline`. The children of a
-- pipeline cut their own commands into words: an overflow there counts as one of the round.
unfoldable pub handle_line : Option Bytes → Option Decision
unfolding strip_amp split_pipe run_simple
handle_line none = some quit
handle_line (some input) =
    if length input == 0
    then some nothing
    else if str_eq input (codes "exit")
    then some quit
    else (let (is_bg, text) = strip_amp input in
        elim (split_pipe text) [
          | some (l, r) ↦ parse_args max_arg_len l >>= λ left.
              parse_args max_arg_len r >>= λ right. some (pipeline left right)
          | none ↦ run_simple is_bg text
        ])
