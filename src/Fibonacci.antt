-- ===== src/Fibonacci.antt =====
-- lab2/ch8/pibonacci.c: the loop of `main`, which prints Fibonacci numbers. `int` has 32 bits; a sum that
-- it does not hold is undefined behaviour, and the result none.
mod Tests
pub mod Numbers
use open_source_project.Prelude.{
  ℕ, zero, suc, ◌+◌, ◌^◌, Option, none, some, List, [], ◌∷◌, ltb, if◌then◌else◌,
}
use open_source_project.ChatServer.Registry.{◌>>=◌}

-- `cur_i` and `past_i`.
pub record Pair : Type 0 where
  pub cur : ℕ
  pub past : ℕ

-- `tmp_i = cur_i; cur_i += past_i; past_i = tmp_i;`
unfoldable pub advance : Pair → Option Pair
advance p =
    if ltb (p.cur + p.past) (2 ^ 31)
    then some (record { cur = p.cur + p.past; past = p.cur })
    else none

-- What is printed in `n` rounds.
unfoldable pub rounds : ℕ → Pair → Option (List ℕ)
unfolding advance
rounds zero p = some []
rounds (suc n) p = advance p >>= λ q. rounds n q >>= λ more. some (p.cur ∷ more)

-- `main`
abbrev pub fibonacci : ℕ → Option (List ℕ)
fibonacci n = rounds n (record { cur = 1; past = 0 })
