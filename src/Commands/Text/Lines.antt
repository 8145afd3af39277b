-- ===== src/Commands/Text/Lines.antt =====
-- What `cmd_cat` and `cmd_grep` print.
use open_source_project.Prelude.{
  ℕ, zero, suc, ◌+◌, ◌≤◌, ◌<◌, ◌≡◌, ◌≢◌, ◌↔◌, map, refl, ap, ◌∙◌, Bool, true, false, Option, none,
  some, List, [], ◌∷◌, ◌++◌, arith, if◌then◌else◌, length, length-append, All, All-append, Bytes,
  codes, NoNul, cstr_of_NoNul,
}
use open_source_project.Prelude.Decimal.{print_nat}
use open_source_project.Prelude.Strings.{
  strstr, strcasestr, lower, Holds, strstr_iff, fgets, fgets-append, fgets_line, fgets_shorter,
}
use open_source_project.Commands.Args.{Grep, scan_one_lem, has, others, last?}
use open_source_project.Commands.Text.{
  text, line_size, number, cat_loop, cmd_cat, cat_file, matches, grep_loop,
}

NoNul-split : (xs ys : Bytes) → NoNul (xs ++ ys) → NoNul xs × NoNul ys
NoNul-split [] ys h = (tt, h)
NoNul-split (x ∷ xs) ys (p, h) = let (a, b) = NoNul-split xs ys h in ((p, a), b)

cat_loop_plain : (f n : ℕ) (s : Bytes) → NoNul s → length s ≤ f → cat_loop f false n s ≡ s
unfolding cat_loop
cat_loop_plain zero n [] h le = refl
cat_loop_plain zero n (c ∷ s) h le = absurd (omega arith)
cat_loop_plain (suc f) n [] h le = refl
cat_loop_plain (suc f) n (c ∷ s) h le =
    let whole = fgets-append line_size (c ∷ s) in
    let (a, b) = NoNul-split (fgets line_size (c ∷ s)).0 (fgets line_size (c ∷ s)).1 (rw whole h) in
    rw
      (
        cstr_of_NoNul (fgets line_size (c ∷ s)).0 a,
        cat_loop_plain f n (fgets line_size (c ∷ s)).1 b
            (omega (arith, fgets_shorter line_size c s (omega arith))),
      )
      whole

cat_opened :
    (open' : Bytes → Option Bytes) (b : Bool) (f s : Bytes)
    → open' f ≡ some s
    → cat_file open' (record { flag = b; file = some f }) ≡ text (cat_loop (length s) b 1 s)
unfolding cat_file
cat_opened open' b f s e = rw (e, cat_file)

-- Without -n, `cat` prints the file that is named last, whole and unchanged, if the file opens and holds
-- no NUL.
pub cmd_cat_plain :
    (open' : Bytes → Option Bytes) (args : List Bytes) (f s : Bytes)
    → has (codes "-n") args ≡ false
    → last? (others (codes "-n") args) none ≡ some f
    → open' f ≡ some s
    → NoNul s
    → cmd_cat open' args ≡ text s
unfolding cmd_cat
cmd_cat_plain open' args f s plain named opens clean = rw (
  scan_one_lem (codes "-n") args false none,
  named,
  plain,
  cat_opened open' false f s opens,
  cat_loop_plain (length s) 1 s clean (omega arith),
)

-- A line that the buffer of 1024 bytes holds with its newline: no newline and no NUL in it.
abbrev pub IsLine : Bytes → Type 0
IsLine l = All (λ c. c ≢ 10) l × NoNul l × (length l < line_size)

abbrev pub unlines : List Bytes → Bytes
unlines [] = []
unlines (l ∷ ls) = l ++ (10 ∷ unlines ls)

abbrev pub numbered : ℕ → List Bytes → Bytes
numbered n [] = []
numbered n (l ∷ ls) = number n ++ ((l ++ (10 ∷ [])) ++ numbered (n + 1) ls)

line_NoNul : (l : Bytes) → NoNul l → NoNul (l ++ (10 ∷ []))
line_NoNul l h = All-append (λ c. c ≢ 0) l (10 ∷ []) h (omega arith)

cat_round :
    (f n : ℕ) (l rest : Bytes)
    → IsLine l
    → cat_loop (suc f) true n (l ++ (10 ∷ rest))
      ≡ number n ++ ((l ++ (10 ∷ [])) ++ cat_loop f true (n + 1) rest)
unfolding cat_loop
cat_round f n [] rest (a, b, lt) =
    rw (fgets_line line_size [] rest a lt, cstr_of_NoNul (10 ∷ []) (omega arith))
cat_round f n (c ∷ l) rest (a, b, lt) = rw (
  fgets_line line_size (c ∷ l) rest a lt,
  cstr_of_NoNul ((c ∷ l) ++ (10 ∷ [])) (line_NoNul (c ∷ l) b),
)

-- With -n, `cat` prints each line behind its number, if every line has fewer than 1023 bytes, all end in
-- a newline and none holds a NUL.
pub cat_loop-unlines :
    (ls : List Bytes) (f n : ℕ)
    → All IsLine ls
    → length (unlines ls) ≤ f
    → cat_loop f true n (unlines ls) ≡ numbered n ls
cat_loop-unlines [] zero n h le = unfold cat_loop in refl
cat_loop-unlines [] (suc f) n h le = unfold cat_loop in refl
cat_loop-unlines (l ∷ ls) zero n (h, hs) le =
    absurd (omega (arith, length-append {0} l (10 ∷ unlines ls)))
cat_loop-unlines (l ∷ ls) (suc f) n (h, hs) le =
    cat_round f n l (unlines ls) h
    ∙ ap (λ t. number n ++ ((l ++ (10 ∷ [])) ++ t))
        (cat_loop-unlines ls f (n + 1) hs (omega (arith, length-append {0} l (10 ∷ unlines ls))))

-- A line matches where it holds the pattern; with -i, up to the case of the letters.
abbrev pub Matches : Bool → Bytes → Bytes → Type 0
Matches true l p = Holds (map lower l) (map lower p)
Matches false l p = Holds l p

abbrev pub selected : Bool → Bytes → Bytes → Bool
selected true l p = strstr (map lower l) (map lower p)
selected false l p = strstr l p

selected_iff : (i : Bool) (l p : Bytes) → (selected i l p ≡ true) ↔ Matches i l p
selected_iff true l p = strstr_iff (map lower l) (map lower p)
selected_iff false l p = strstr_iff l p

matches_lem : (i : Bool) (l p : Bytes) → matches i l p ≡ selected i l p
unfolding matches strcasestr
matches_lem true l p = refl
matches_lem false l p = refl

-- What `grep` promises to print for the lines behind line `n`.
abbrev pub found : Grep → Bytes → ℕ → List Bytes → Bytes
found r p n [] = []
found r p n (l ∷ ls) =
    (if selected r.i_flag (l ++ (10 ∷ [])) p
      then (if r.n_flag then print_nat (n + 1) ++ codes ": " else []) ++ (l ++ (10 ∷ []))
      else [])
    ++ found r p (n + 1) ls

grep_round :
    (f n : ℕ) (r : Grep) (p l rest : Bytes)
    → IsLine l
    → grep_loop (suc f) r p n (l ++ (10 ∷ rest))
      ≡ (if selected r.i_flag (l ++ (10 ∷ [])) p
          then (if r.n_flag then print_nat (n + 1) ++ codes ": " else []) ++ (l ++ (10 ∷ []))
          else [])
        ++ grep_loop f r p (n + 1) rest
unfolding grep_loop
grep_round f n r p [] rest (a, b, lt) =
    rw
      (
        fgets_line line_size [] rest a lt,
        cstr_of_NoNul (10 ∷ []) (omega arith),
        matches_lem r.i_flag (10 ∷ []) p,
      )
      refl
grep_round f n r p (c ∷ l) rest (a, b, lt) =
    rw
      (
        fgets_line line_size (c ∷ l) rest a lt,
        cstr_of_NoNul ((c ∷ l) ++ (10 ∷ [])) (line_NoNul (c ∷ l) b),
        matches_lem r.i_flag ((c ∷ l) ++ (10 ∷ [])) p,
      )
      refl

grep_loop-found :
    (ls : List Bytes) (f n : ℕ) (r : Grep) (p : Bytes)
    → All IsLine ls
    → length (unlines ls) ≤ f
    → grep_loop f r p n (unlines ls) ≡ found r p n ls
grep_loop-found [] zero n r p h le = unfold grep_loop in refl
grep_loop-found [] (suc f) n r p h le = unfold grep_loop in refl
grep_loop-found (l ∷ ls) zero n r p (h, hs) le =
    absurd (omega (arith, length-append {0} l (10 ∷ unlines ls)))
grep_loop-found (l ∷ ls) (suc f) n r p (h, hs) le =
    grep_round f n r p l (unlines ls) h
    ∙ ap
        (λ t.
          (if selected r.i_flag (l ++ (10 ∷ [])) p
            then (if r.n_flag then print_nat (n + 1) ++ codes ": " else []) ++ (l ++ (10 ∷ []))
            else [])
          ++ t)
        (grep_loop-found ls f (n + 1) r p hs (omega (arith, length-append {0} l (10 ∷ unlines ls))))

-- `grep` prints exactly the lines that match, in order, with -n each behind its number, if every line
-- has fewer than 1024 bytes with its newline, all end in a newline and none holds a NUL. A line matches if
-- it holds the pattern, with -i after both were brought to small letters.
pub grep_loop-unlines :
    (ls : List Bytes) (f n : ℕ) (r : Grep) (p : Bytes)
    → All IsLine ls
    → length (unlines ls) ≤ f
    → (grep_loop f r p n (unlines ls) ≡ found r p n ls)
      × ((l : Bytes) → (selected r.i_flag l p ≡ true) ↔ Matches r.i_flag l p)
grep_loop-unlines ls f n r p h le =
    (grep_loop-found ls f n r p h le, λ l. selected_iff r.i_flag l p)
