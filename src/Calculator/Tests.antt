-- ===== src/Calculator/Tests.antt =====
-- The calculator, with natural numbers in place of `double`.
use open_source_project.Prelude.{
  ℕ, ◌+◌, ◌-◌, ◌*◌, ◌/◌, ◌≡◌, refl, true, false, not, Option, none, some, List, [], ◌∷◌, ◌==◌,
  words, words_from, is_space, Bytes, codes, str_eq,
}
use open_source_project.Prelude.Decimal.{atoi, print_int}
use open_source_project.Prelude.Int.{ℤ, pos}
use open_source_project.Calculator.{Double, Calc, start_calc, press_all}
use open_source_project.Calculator.Clicks.{Operand, print_int-Operand, press_all-Shape}

abbrev value : Option ℤ → ℕ
value (some (pos n)) = n
value _ = 0

abbrev operands : List Bytes → Option (ℕ × (ℕ × ℕ))
operands (a ∷ (op ∷ []) ∷ b ∷ []) = some (value (atoi a), (op, value (atoi b)))
operands _ = none

abbrev naturals : Double
naturals = record {
  D = ℕ;
  zero_point = 0;
  plus = λ a b. a + b;
  minus = λ a b. a - b;
  times = λ a b. a * b;
  over = λ a b. a / b;
  is_nonzero = λ a. not (a == 0);
  to_int = λ a. some (pos a);
  equals_int = λ a n. true;
  print_2 = λ a. print_int (pos a);
  scan = λ t. operands (words is_space t);
}

abbrev fifteen : Calc
fifteen = record { display = codes "15"; has_operator = false }

-- An operator behind an operator is ignored, and = shows the sum.
abbrev clicked : List (ℕ × ℕ)
clicked = (0, 0) ∷ (3, 3) ∷ (2, 3) ∷ (0, 1) ∷ (3, 2) ∷ []

press_all-Shape_example : Operand (codes "15")
unfolding press_all str_eq words_from atoi print_int
press_all-Shape_example =
    press_all-Shape naturals (λ x. print_int-Operand (pos x)) clicked fifteen refl

-- A quotient by 0 is shown as 0.
over_zero : press_all naturals ((0, 0) ∷ (0, 3) ∷ (3, 1) ∷ (3, 2) ∷ []) start_calc ≡ some start_calc
unfolding press_all str_eq words_from atoi print_int
over_zero = refl
