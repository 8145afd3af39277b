-- ===== src/Commands/Text.antt =====
-- project1/commands.c: `cmd_cat` and `cmd_grep`. The files are a parameter: `open f` is the content of
-- the file that `fopen` opens, if it does. A file has fewer than 2^31 lines, so `line_num` is a number.
pub mod Lines
use open_source_project.Prelude.{
  ℕ, zero, suc, ◌+◌, ◌-◌, ◌*◌, ◌/◌, ◌%◌, ◌^◌, ◌≤◌, ◌<◌, ◌≡◌, ◌≢◌, ◌↔◌, ◌⊎◌, inl, inr, refl, sym, ap,
  ◌∙◌, Bool, true, false, ◌&&◌, ◌||◌, not, Option, none, some, List, [], ◌∷◌, ◌++◌, map,
  append_assoc, append-nil, arith, dec_lt, ℕ_discrete, ltb, leb, ◌==◌, ==_iff, if◌then◌else◌,
  Bool-cases, Option-cases, length, get_elem?, get_or, set, take, drop, replicate, length-append,
  length-set, get_or-set_self, get_or-set_ne, get_elem?-set_self, get_elem?-set_ne, keep, words,
  words_from, is_space, IsWord, words-append_blank, words_last, All, All-append, Bytes, codes,
  str_eq, str_eq_iff, str_eq_sound, str_eq_refl, starts_with, cstr, NoNul, cstr-append_nul,
  cstr_of_NoNul,
}
use open_source_project.Prelude.Decimal.{print_nat}
use open_source_project.Prelude.Strings.{strstr, strcasestr, fgets}
use open_source_project.Commands.Args.{One, Grep, scan_one, scan_grep}

pub data Output : Type 0 where
  usage : Output
  open_error : Output
  text : Bytes → Output

-- `char line[1024]`: `fgets` stores 1023 bytes at most.
abbrev pub line_size : ℕ
line_size = 1023

-- `printf("%6d  ", n)`
abbrev pub number : ℕ → Bytes
number n = replicate (6 - length (print_nat n)) 32 ++ (print_nat n ++ codes "  ")

-- The loop of `cmd_cat`, which `printf("%s", line)` ends at a NUL of the line.
unfoldable pub cat_loop : ℕ → Bool → ℕ → Bytes → Bytes
cat_loop zero n_flag line_num s = []
cat_loop (suc f) n_flag line_num [] = []
cat_loop (suc f) n_flag line_num (c ∷ s) =
    let (line, rest) = fgets line_size (c ∷ s) in
    if n_flag
    then number line_num ++ (cstr line ++ cat_loop f n_flag (line_num + 1) rest)
    else cstr line ++ cat_loop f n_flag line_num rest

-- `cmd_cat` behind its loop over the arguments. Each round reads a byte at least, so the length of the
-- file is enough fuel.
unfoldable pub cat_file : (Bytes → Option Bytes) → One → Output
unfolding cat_loop
cat_file open' r = elim r.file [
  | none ↦ usage
  | some f ↦ elim (open' f) [ none ↦ open_error | some s ↦ text (cat_loop (length s) r.flag 1 s) ]
]

unfoldable pub cmd_cat : (Bytes → Option Bytes) → List Bytes → Output
unfolding cat_file
cmd_cat open' args =
    cat_file open' (scan_one (codes "-n") args (record { flag = false; file = none }))

-- The test of `cmd_grep`.
unfoldable pub matches : Bool → Bytes → Bytes → Bool
matches i_flag line pattern' = if i_flag then strcasestr line pattern' else strstr line pattern'

-- The loop of `cmd_grep`, with the number of the line before.
unfoldable pub grep_loop : ℕ → Grep → Bytes → ℕ → Bytes → Bytes
grep_loop zero r p line_num s = []
grep_loop (suc f) r p line_num [] = []
grep_loop (suc f) r p line_num (c ∷ s) =
    let (line, rest) = fgets line_size (c ∷ s) in
    let n = line_num + 1 in
    let printed = (if r.n_flag then print_nat n ++ codes ": " else []) ++ cstr line in
    (if matches r.i_flag (cstr line) p then printed else []) ++ grep_loop f r p n rest

-- `cmd_grep` behind its loop over the arguments.
unfoldable pub grep_file : (Bytes → Option Bytes) → Grep → Output
unfolding grep_loop
grep_file open' r = elim r.pattern' [
  | none ↦ usage
  | some p ↦ elim r.file [
    | none ↦ usage
    | some f ↦ elim (open' f) [ none ↦ open_error | some s ↦ text (grep_loop (length s) r p 0 s) ]
  ]
]

unfoldable pub cmd_grep : (Bytes → Option Bytes) → List Bytes → Output
unfolding grep_file
cmd_grep open' args =
    grep_file open'
      (scan_grep args (record { n_flag = false; i_flag = false; pattern' = none; file = none }))
