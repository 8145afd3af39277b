-- ===== src/TypingTest/Errors.antt =====
-- lab2/typingtest.c: what the loop counts.
use open_source_project.Prelude.{
  ℕ, zero, suc, ◌+◌, ◌≡◌, inl, inr, refl, ap, ◌∙◌, not, [], ◌∷◌, arith, ltb, leb, ◌==◌,
  if◌then◌else◌, Bool-cases, length, Bytes,
}
use open_source_project.Prelude.{
  false, ◌<◌, ◌≢◌, some, ◌++◌, All, All-append, NoNul, cstr, cstr_of_NoNul, length-append,
}
use open_source_project.Prelude.Strings.{fgets, fgets_line}
use open_source_project.ChatServer.Registry.{◌>>=◌}
use open_source_project.TypingTest.{
  is_error, count_errors, errcnt, prompt, before_newline, Duration, result, cpm, typing_test,
}

-- The places where two texts differ, and how much longer one is than the other.
abbrev pub differences : Bytes → Bytes → ℕ
differences [] input = length input
differences (x ∷ text) [] = suc (length text)
differences (x ∷ text) (y ∷ input) = (if x == y then 0 else 1) + differences text input

is_error_next :
    (x y : ℕ) (text input : Bytes) (i : ℕ)
    → is_error (x ∷ text) (y ∷ input) (suc i) ≡ is_error text input i
unfolding is_error
is_error_next x y text input i =
    let a : leb (length (y ∷ input)) (suc i) ≡ leb (length input) i = ground arith in
    let b : leb (length (x ∷ text)) (suc i) ≡ leb (length text) i = ground arith in rw (a, b) refl

-- Without their first bytes the texts have the same errors, one place earlier.
count_errors_next :
    (x y : ℕ) (text input : Bytes) (n i : ℕ)
    → count_errors (x ∷ text) (y ∷ input) n (suc i) ≡ count_errors text input n i
unfolding count_errors
count_errors_next x y text input zero i = refl
count_errors_next x y text input (suc n) i =
    rw (is_error_next x y text input i, count_errors_next x y text input n (suc i)) refl

-- Where one text is empty, every round counts.
count_errors_text : (input : Bytes) (n i : ℕ) → count_errors [] input n i ≡ n
unfolding count_errors is_error
count_errors_text input zero i = refl
count_errors_text input (suc n) i = ground (arith, count_errors_text input n (suc i))

count_errors_input : (text : Bytes) (n i : ℕ) → count_errors text [] n i ≡ n
unfolding count_errors is_error
count_errors_input text zero i = refl
count_errors_input text (suc n) i = ground (arith, count_errors_input text n (suc i))

abbrev longer : Bytes → Bytes → ℕ
longer [] input = length input
longer (x ∷ text) [] = suc (length text)
longer (x ∷ text) (y ∷ input) = suc (longer text input)

longer_lem :
    (text input : Bytes)
    → (if ltb (length input) (length text) then length text else length input) ≡ longer text input
longer_lem [] input = ground arith
longer_lem (x ∷ text) [] = ground arith
longer_lem (x ∷ text) (y ∷ input) = ground (arith, longer_lem text input)

first_error : (x y : ℕ) (text input : Bytes) → is_error (x ∷ text) (y ∷ input) 0 ≡ not (x == y)
unfolding is_error
first_error x y text input = ground arith

count_errors_lem :
    (text input : Bytes) → count_errors text input (longer text input) 0 ≡ differences text input
unfolding count_errors
count_errors_lem [] input = count_errors_text input (length input) 0
count_errors_lem (x ∷ text) [] = count_errors_input (x ∷ text) (suc (length text)) 0
count_errors_lem (x ∷ text) (y ∷ input) =
    let rest =
      count_errors_next x y text input (longer text input) 0 ∙ count_errors_lem text input in
    rw (first_error x y text input) (elim (Bool-cases (x == y)) [
      | inl e ↦ rw e (omega (arith, rest))
      | inr e ↦ rw e (omega (arith, rest))
    ])

-- The loop counts the places where the texts differ and those that only one of them has.
pub errcnt_lem : (text input : Bytes) → errcnt text input ≡ differences text input
unfolding errcnt
errcnt_lem text input =
    ap (λ n. count_errors text input n 0) (longer_lem text input) ∙ count_errors_lem text input

pub before_newline-append : (l t : Bytes) → All (λ c. c ≢ 10) l → before_newline (l ++ (10 ∷ t)) ≡ l
unfolding before_newline
before_newline-append [] t h = refl
before_newline-append (c ∷ l) t (hc, h) =
    let z : (c == 10) ≡ false = ground arith in rw (z, before_newline-append l t h)

typing_test_round :
    (d : Duration) (start_time end_time : ℕ) (s line rest : Bytes)
    → 0 < length s
    → fgets 1023 s ≡ (line, rest)
    → typing_test d start_time end_time s ≡ (
        let input = before_newline (cstr line) in
        let duration = d.difftime end_time start_time in
        cpm d (length input) duration >>= λ speed.
        some (result (d.print_0 duration) (errcnt prompt input) speed))
unfolding typing_test
typing_test_round d start_time end_time [] line rest lt e = absurd (omega arith)
typing_test_round d start_time end_time (c ∷ s) line rest lt e = rw e refl

-- For a typed line of at most 1022 bytes the program prints the number of places where the line and the
-- text differ and of those that only one of them has, and the speed of that line.
pub typing_test_lem :
    (d : Duration) (start_time end_time : ℕ) (line rest : Bytes)
    → All (λ c. c ≢ 10) line
    → NoNul line
    → length line < 1023
    → typing_test d start_time end_time (line ++ (10 ∷ rest)) ≡ (
        let duration = d.difftime end_time start_time in
        cpm d (length line) duration >>= λ speed.
        some (result (d.print_0 duration) (differences prompt line) speed))
typing_test_lem d start_time end_time line rest h clean short =
    let ended : cstr (line ++ (10 ∷ [])) ≡ line ++ (10 ∷ []) =
      cstr_of_NoNul (line ++ (10 ∷ []))
        (All-append (λ c. c ≢ 0) line (10 ∷ []) clean ((λ e. omega arith), tt)) in
    let input : before_newline (cstr (line ++ (10 ∷ []))) ≡ line =
      ap before_newline ended ∙ before_newline-append line [] h in
    typing_test_round d start_time end_time (line ++ (10 ∷ rest)) (line ++ (10 ∷ [])) rest
      (omega (arith, length-append line (10 ∷ rest))) (fgets_line 1023 line rest h short)
    ∙ rw (input, errcnt_lem prompt line) refl
