-- ===== src/Fibonacci/Tests.antt =====
-- The numbers of lab2/ch8/pibonacci.c.
use open_source_project.Prelude.{◌≡◌, refl, some, none, [], ◌∷◌}
use open_source_project.Fibonacci.{fibonacci, rounds}
use open_source_project.Fibonacci.Numbers.{fibonacci_lem}

first_six : fibonacci 6 ≡ some (1 ∷ 1 ∷ 2 ∷ 3 ∷ 5 ∷ 8 ∷ [])
unfolding rounds
first_six = refl

fifty_rounds : fibonacci 50 ≡ none
fifty_rounds = fibonacci_lem 50
