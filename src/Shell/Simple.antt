-- ===== src/Shell/Simple.antt =====
-- lab2/ch8/simplesh.c: the loop of `main`, from the input to the commands that are run.
use open_source_project.Prelude.{
  ℕ, zero, suc, ◌≤◌, ◌<◌, ◌≡◌, ◌≢◌, refl, ap, ◌∙◌, Bool, true, false, Option, none, some, List, [],
  ◌∷◌, ◌++◌, map, arith, ltb, ◌==◌, if◌then◌else◌, length, length-append, keep, words, All,
  All-append, Bytes, cstr, NoNul, cstr_of_NoNul,
}
use open_source_project.Prelude.Strings.{fgets, fgets_line}
use open_source_project.ChatServer.Registry.{◌>>=◌}
use open_source_project.Shell.Parse.{is_blank, getargs}
use open_source_project.Shell.Parse.Words.{getargs-parse_args, parse_args-words}
use open_source_project.Commands.Text.Lines.{unlines}

-- The text without the newline at its end; at an empty text the byte before the buffer is read.
unfoldable pub strip_newline : Bytes → Option Bytes
strip_newline [] = none
strip_newline (c ∷ []) = some (if c == 10 then [] else c ∷ [])
strip_newline (c ∷ d ∷ s) = elim (strip_newline (d ∷ s)) [ none ↦ none | some t ↦ some (c ∷ t) ]

-- `if (narg == 0) continue;`
abbrev pub run_args : List Bytes → List (List Bytes) → List (List Bytes)
run_args [] more = more
run_args (a ∷ argv) more = (a ∷ argv) ∷ more

-- The arguments of each `execvp`, for `f` rounds at most.
unfoldable pub shell_loop : ℕ → Bytes → Option (List (List Bytes))
unfolding strip_newline
shell_loop zero stdin = some []
shell_loop (suc f) [] = some []
shell_loop (suc f) (c ∷ stdin) =
    let (line, rest) = fgets 255 (c ∷ stdin) in
    let later = shell_loop f rest in
    strip_newline (cstr line) >>= λ buf.
    getargs 50 buf >>= λ argv. later >>= λ more. some (run_args argv more)

-- Each round reads a byte at least.
unfoldable pub shell : Bytes → Option (List (List Bytes))
unfolding shell_loop
shell stdin = shell_loop (length stdin) stdin

-- A line of the input that `buf` and `argv` hold.
abbrev pub IsCommandLine : Bytes → Type 0
IsCommandLine l =
    All (λ c. c ≢ 10) l × NoNul l × (length l < 255) × (length (words is_blank l) < 50)

abbrev pub has_word : List Bytes → Bool
has_word [] = false
has_word (a ∷ argv) = true

strip_newline-append : (l : Bytes) → strip_newline (l ++ (10 ∷ [])) ≡ some l
unfolding strip_newline
strip_newline-append [] = refl
strip_newline-append (c ∷ []) = refl
strip_newline-append (c ∷ d ∷ l) = rw (strip_newline-append (d ∷ l)) refl

getargs_lem :
    (l : Bytes) → NoNul l → length (words is_blank l) < 50 → getargs 50 l ≡ some (words is_blank l)
getargs_lem l clean few =
    let e : ltb (length (words is_blank l)) 50 ≡ true = ground arith in
    getargs-parse_args 50 l clean ∙ parse_args-words 50 l clean ∙ rw e refl

shell_round :
    (f : ℕ) (s line rest buf : Bytes) (argv : List Bytes)
    → 0 < length s
    → fgets 255 s ≡ (line, rest)
    → strip_newline (cstr line) ≡ some buf
    → getargs 50 buf ≡ some argv
    → shell_loop (suc f) s ≡ (shell_loop f rest >>= λ more. some (run_args argv more))
unfolding shell_loop
shell_round f [] line rest buf argv lt e1 e2 e3 = absurd (omega arith)
shell_round f (c ∷ s) line rest buf argv lt e1 e2 e3 = rw (e1, e2, e3)

run_args-keep :
    (argv : List Bytes) (more : List (List Bytes))
    → run_args argv (keep has_word more) ≡ keep has_word (argv ∷ more)
run_args-keep [] more = refl
run_args-keep (a ∷ argv) more = refl

shell_loop-unlines :
    (f : ℕ) (ls : List Bytes)
    → All IsCommandLine ls
    → length (unlines ls) ≤ f
    → shell_loop f (unlines ls) ≡ some (keep has_word (map (words is_blank) ls))
unfolding shell_loop
shell_loop-unlines zero [] h le = refl
shell_loop-unlines (suc f) [] h le = refl
shell_loop-unlines zero (l ∷ ls) h le = absurd (omega (arith, length-append l (10 ∷ unlines ls)))
shell_loop-unlines (suc f) (l ∷ ls) ((line, clean, short, few), h) le =
    let long = length-append l (10 ∷ unlines ls) in
    let ended : cstr (l ++ (10 ∷ [])) ≡ l ++ (10 ∷ []) =
      cstr_of_NoNul (l ++ (10 ∷ []))
        (All-append (λ c. c ≢ 0) l (10 ∷ []) clean ((λ e. omega arith), tt)) in
    shell_round f (l ++ (10 ∷ unlines ls)) (l ++ (10 ∷ [])) (unlines ls) l (words is_blank l)
      (omega (arith, long)) (fgets_line 255 l (unlines ls) line short)
      (ap strip_newline ended ∙ strip_newline-append l) (getargs_lem l clean few)
    ∙ rw (shell_loop-unlines f ls h (omega (arith, long)))
        (ap some (run_args-keep (words is_blank l) (map (words is_blank) ls)))

-- On an input of lines of less than 255 bytes and 50 words, without NUL, the shell runs the words of
-- each line that has one, in order.
pub shell-unlines :
    (ls : List Bytes)
    → All IsCommandLine ls
    → shell (unlines ls) ≡ some (keep has_word (map (words is_blank) ls))
unfolding shell
shell-unlines ls h = shell_loop-unlines (length (unlines ls)) ls h (omega arith)
