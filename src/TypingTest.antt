-- ===== src/TypingTest.antt =====
-- lab2/typingtest.c: the number of typing errors and the speed.
pub mod Errors
use open_source_project.Prelude.{
  ℕ, zero, suc, ◌+◌, ◌-◌, ◌*◌, ◌/◌, ◌%◌, ◌^◌, ◌≤◌, ◌<◌, ◌≡◌, ◌≢◌, ◌↔◌, ◌⊎◌, inl, inr, refl, sym, ap,
  ◌∙◌, Bool, true, false, ◌&&◌, ◌||◌, not, Option, none, some, List, [], ◌∷◌, ◌++◌, map,
  append_assoc, append-nil, arith, dec_lt, ℕ_discrete, ltb, leb, ◌==◌, ==_iff, if◌then◌else◌,
  Bool-cases, Option-cases, length, get_elem?, get_or, set, take, drop, replicate, length-append,
  length-set, get_or-set_self, get_or-set_ne, get_elem?-set_self, get_elem?-set_ne, keep, words,
  words_from, is_space, IsWord, words-append_blank, words_last, All, All-append, Bytes, codes,
  str_eq, str_eq_iff, str_eq_sound, str_eq_refl, starts_with, cstr, NoNul, cstr-append_nul,
  cstr_of_NoNul,
}
use open_source_project.Prelude.Strings.{fgets}
use open_source_project.Prelude.Int.{ℤ, pos}
use open_source_project.ChatServer.Registry.{◌>>=◌}

abbrev pub prompt : Bytes
prompt = codes "The magic thing is that you can change it."

-- `input[strcspn(input, "\n")] = '\0'`: the text before the first newline.
unfoldable pub before_newline : Bytes → Bytes
before_newline [] = []
before_newline (c ∷ s) = let rest = before_newline s in if c == 10 then [] else c ∷ rest

-- The body of the loop: `i >= input_len || i >= text_len || text[i] != input[i]`.
unfoldable pub is_error : Bytes → Bytes → ℕ → Bool
is_error text input i =
    leb (length input) i || leb (length text) i || not (get_or text i 0 == get_or input i 0)

-- The rounds from `i`.
unfoldable pub count_errors : Bytes → Bytes → ℕ → ℕ → ℕ
unfolding is_error
count_errors text input zero i = 0
count_errors text input (suc n) i =
    (if is_error text input i then 1 else 0) + count_errors text input n (suc i)

-- `errcnt` behind the loop over `max_len`.
unfoldable pub errcnt : Bytes → Bytes → ℕ
unfolding count_errors
errcnt text input =
    let max_len = if ltb (length input) (length text) then length text else length input in
    count_errors text input max_len 0

-- What `main` counts for the line that is typed; none at the end of the input.
unfoldable pub typing_errors : Bytes → Option ℕ
unfolding before_newline errcnt
typing_errors [] = none
typing_errors (c ∷ stdin) = some (errcnt prompt (before_newline (cstr (fgets 1023 (c ∷ stdin)).0)))

-- `double` and the clock: `difftime`, `duration > 0`, `(int)((input_len / duration) * 60)` where an `int`
-- holds it, and "%.0f".
pub record Duration : Type 1 where
  pub D : Type 0
  pub difftime : ℕ → ℕ → D
  pub positive : D → Bool
  pub per_minute : ℕ → D → Option ℤ
  pub print_0 : D → Bytes

-- `main` returns 1 at the end of the input, or prints the duration, the errors and the speed.
pub data Outcome : Type 0 where
  no_line : Outcome
  result : Bytes → ℕ → ℤ → Outcome

module _ (d : Duration) where
  open d use {D, difftime, positive, per_minute, print_0}

  unfoldable pub cpm : ℕ → D → Option ℤ
  cpm input_len duration = if positive duration then per_minute input_len duration else some (pos 0)

  -- `main`, for the times before and behind `fgets`.
  unfoldable pub typing_test : ℕ → ℕ → Bytes → Option Outcome
  unfolding before_newline errcnt cpm
  typing_test start_time end_time [] = some no_line
  typing_test start_time end_time (c ∷ stdin) =
      let input = before_newline (cstr (fgets 1023 (c ∷ stdin)).0) in
      let duration = difftime end_time start_time in
      cpm (length input) duration >>= λ speed.
      some (result (print_0 duration) (errcnt prompt input) speed)
