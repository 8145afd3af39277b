-- ===== src/Calculator.antt =====
-- lab3/9/my_calc_gtk.c: the calculator. The display is the text of a GTK entry that the user cannot
-- edit; `double` and the scanning and printing of one are a parameter.
mod Tests
pub mod Clicks
use open_source_project.Prelude.{
  ℕ, zero, suc, ◌+◌, ◌-◌, ◌*◌, ◌/◌, ◌%◌, ◌^◌, ◌≤◌, ◌<◌, ◌≡◌, ◌≢◌, ◌↔◌, ◌⊎◌, inl, inr, refl, sym, ap,
  ◌∙◌, Bool, true, false, ◌&&◌, ◌||◌, not, Option, none, some, List, [], ◌∷◌, ◌++◌, map,
  append_assoc, append-nil, arith, dec_lt, ℕ_discrete, ltb, leb, ◌==◌, ==_iff, if◌then◌else◌,
  Bool-cases, Option-cases, length, get_elem?, get_or, set, take, drop, replicate, length-append,
  length-set, get_or-set_self, get_or-set_ne, get_elem?-set_self, get_elem?-set_ne, keep, words,
  words_from, is_space, IsWord, words-append_blank, words_last, All, All-append, Bytes, codes,
  str_eq, str_eq_iff, str_eq_sound, str_eq_refl, starts_with, cstr, NoNul, cstr-append_nul,
  cstr_of_NoNul,
}
use open_source_project.Prelude.Decimal.{print_int}
use open_source_project.Prelude.Int.{ℤ}
use open_source_project.ChatServer.Registry.{◌>>=◌}

-- `double`: its operators, `x != 0`, `(int) x` where it is defined, `x == n`, "%.2f", and the result of
-- `sscanf` with "%lf %c %lf" where it is 3.
pub record Double : Type 1 where
  pub D : Type 0
  pub zero_point : D
  pub plus : D → D → D
  pub minus : D → D → D
  pub times : D → D → D
  pub over : D → D → D
  pub is_nonzero : D → Bool
  pub to_int : D → Option ℤ
  pub equals_int : D → ℤ → Bool
  pub print_2 : D → Bytes
  pub scan : Bytes → Option (D × (ℕ × D))

pub record Calc : Type 0 where
  pub display : Bytes
  pub has_operator : Bool

-- A text that `sprintf` writes into 100 bytes.
abbrev pub fits_100 : Bytes → Option Bytes
fits_100 t = if ltb (length t) 100 then some t else none

unfoldable pub on_number_clicked : Bytes → Calc → Option Calc
on_number_clicked num_str s =
    if str_eq s.display (codes "0")
    then some (record s { display = num_str })
    else fits_100 (s.display ++ num_str) >>= λ new_text. some (record s { display = new_text })

unfoldable pub on_operator_clicked : Bytes → Calc → Option Calc
on_operator_clicked op_str s =
    if s.has_operator
    then some s
    else fits_100 (s.display ++ (32 ∷ (op_str ++ (32 ∷ [])))) >>= λ new_text.
        some (record { display = new_text; has_operator = true })

unfoldable pub on_clear_clicked : Calc → Calc
on_clear_clicked s = record { display = codes "0"; has_operator = false }

-- The table `buttons`.
abbrev pub buttons : List (List Bytes)
buttons =
    (codes "7" ∷ codes "8" ∷ codes "9" ∷ codes "/" ∷ [])
    ∷ (codes "4" ∷ codes "5" ∷ codes "6" ∷ codes "*" ∷ [])
    ∷ (codes "1" ∷ codes "2" ∷ codes "3" ∷ codes "-" ∷ [])
    ∷ (codes "C" ∷ codes "0" ∷ codes "=" ∷ codes "+" ∷ [])
    ∷ []

-- `buttons[i][j][0] >= '0' && buttons[i][j][0] <= '9'`
abbrev pub starts_with_digit : Bytes → Bool
starts_with_digit [] = false
starts_with_digit (c ∷ s) = leb 48 c && leb c 57

module _ (d : Double) where
  open d use {
    D, zero_point, plus, minus, times, over, is_nonzero, to_int, equals_int, print_2, scan,
  }

  -- The switch; `result` starts at 0.0.
  unfoldable pub calculate : ℕ → D → D → D
  calculate op n1 n2 =
      if op == b'+'
      then plus n1 n2
      else if op == b'-'
      then minus n1 n2
      else if op == b'*'
      then times n1 n2
      else if op == b'/'
      then (if is_nonzero n2 then over n1 n2 else zero_point)
      else zero_point

  -- `result == (int) result`, and the text that is printed.
  unfoldable pub result_text : D → Option Bytes
  result_text result = to_int result >>= λ n.
      if equals_int result n then some (print_int n) else fits_100 (print_2 result)

  unfoldable pub on_equals_clicked : Calc → Option Calc
  unfolding calculate result_text
  on_equals_clicked s = elim (scan s.display) [
    | none ↦ some s
    | some r ↦ result_text (calculate r.1.0 r.0 r.1.1) >>= λ t.
        some (record { display = t; has_operator = false })
  ]

  -- The handler that `main` connects to the button of a label.
  unfoldable pub click : Bytes → Calc → Option Calc
  unfolding on_number_clicked on_operator_clicked on_clear_clicked on_equals_clicked
  click label s =
      if str_eq label (codes "C")
      then some (on_clear_clicked s)
      else if str_eq label (codes "=")
      then on_equals_clicked s
      else if starts_with_digit label
      then on_number_clicked label s
      else on_operator_clicked label s

  -- A click on the button in row i and column j.
  unfoldable pub press : ℕ → ℕ → Calc → Option Calc
  unfolding click
  press i j s = get_elem? buttons i >>= λ row. get_elem? row j >>= λ label. click label s

  unfoldable pub press_all : List (ℕ × ℕ) → Calc → Option Calc
  unfolding press
  press_all [] s = some s
  press_all (b ∷ bs) s = press b.0 b.1 s >>= press_all bs

-- What `main` shows first.
abbrev pub start_calc : Calc
start_calc = record { display = codes "0"; has_operator = false }
