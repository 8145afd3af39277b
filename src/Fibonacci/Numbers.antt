-- ===== src/Fibonacci/Numbers.antt =====
-- lab2/ch8/pibonacci.c: which numbers are printed, and when the addition overflows.
use mathlib.Core.Path.{subst}
use open_source_project.Prelude.{
  Bool-cases, inl, inr, leb, ℕ, zero, suc, ◌+◌, ◌-◌, ◌^◌, ◌≤◌, ◌<◌, ◌≡◌, refl, true, false, none,
  some, List, [], ◌∷◌, arith, ltb, if◌then◌else◌,
}
use open_source_project.Fibonacci.{advance, rounds, fibonacci}

-- The Fibonacci numbers.
abbrev pub fib : ℕ → ℕ
fib zero = 0
fib (suc zero) = 1
fib (suc (suc n)) = fib (suc n) + fib n

-- `n` of them from the `i`-th on.
abbrev pub fibs : ℕ → ℕ → List ℕ
fibs i zero = []
fibs i (suc n) = fib i ∷ fibs (suc i) n

fib_rises : (n : ℕ) → fib n ≤ fib (suc n)
fib_rises zero = omega arith
fib_rises (suc n) = omega arith

-- The numbers in turn, for their values.
abbrev walk : ℕ → ℕ → ℕ → ℕ
walk zero cur past = past
walk (suc n) cur past = walk n (cur + past) cur

-- The number that is `n` places behind the `i`-th one.
abbrev behind : ℕ → ℕ → ℕ
behind zero i = i
behind (suc n) i = behind n (suc i)

walk-fib : (n i : ℕ) → walk n (fib (suc i)) (fib i) ≡ fib (behind n i)
walk-fib zero i = refl
walk-fib (suc n) i = walk-fib n (suc i)

-- 2^31 lies between the 46th and the 47th number.
fib_46 : fib 46 < 2 ^ 31
fib_46 = let e : 1836311903 ≡ fib 46 = walk-fib 46 0 in omega arith

fib_47 : 2 ^ 31 ≤ fib 47
fib_47 = let e : 2971215073 ≡ fib 47 = walk-fib 47 0 in omega arith

small : (d i : ℕ) → i + d ≡ 44 → fib (suc (suc i)) < 2 ^ 31
small zero i e =
    subst (λ j. fib (suc (suc j)) < 2 ^ 31) (let e' : 44 ≡ i = omega arith in e') fib_46
small (suc d) i e = omega (arith, small d (suc i) (omega arith), fib_rises (suc (suc i)))

large : (i : ℕ) → 45 ≤ i → 2 ^ 31 ≤ fib (suc (suc i))
large zero le = absurd (omega arith)
large (suc i) le = elim (Bool-cases (leb 45 i)) [
  | inl y ↦ omega (arith, large i (ground arith), fib_rises (suc (suc i)))
  | inr n ↦ subst (λ j. 2 ^ 31 ≤ fib (suc (suc j))) (let e : 45 ≡ suc i = ground arith in e) fib_47
]

advance_fits :
    (i : ℕ)
    → i < 45
    → advance (record { cur = fib (suc i); past = fib i })
      ≡ some (record { cur = fib (suc (suc i)); past = fib (suc i) })
unfolding advance
advance_fits i lt =
    let z : ltb (fib (suc (suc i))) (2 ^ 31) ≡ true =
      ground (arith, small (44 - i) i (omega arith)) in
    rw z refl

advance_overflows : (i : ℕ) → 45 ≤ i → advance (record { cur = fib (suc i); past = fib i }) ≡ none
unfolding advance
advance_overflows i le =
    let z : ltb (fib (suc (suc i))) (2 ^ 31) ≡ false = ground (arith, large i le) in rw z refl

rounds_fit :
    (n i : ℕ)
    → i + n ≤ 45
    → rounds n (record { cur = fib (suc i); past = fib i }) ≡ some (fibs (suc i) n)
unfolding rounds
rounds_fit zero i le = refl
rounds_fit (suc n) i le = rw (advance_fits i (omega arith), rounds_fit n (suc i) (omega arith)) refl

rounds_overflow :
    (n i : ℕ) → i ≤ 45 → 46 ≤ i + n → rounds n (record { cur = fib (suc i); past = fib i }) ≡ none
unfolding rounds
rounds_overflow zero i le lt = absurd (omega arith)
rounds_overflow (suc n) i le lt = elim (Bool-cases (ltb i 45)) [
  | inl y ↦
      rw (advance_fits i (ground arith), rounds_overflow n (suc i) (ground arith) (omega arith))
        refl
  | inr y ↦ rw (advance_overflows i (ground arith)) refl
]

-- In its first 45 rounds the program prints the first 45 Fibonacci numbers; in the 46th round, a second
-- later, the addition behind the printing overflows.
pub fibonacci_lem : (n : ℕ) → fibonacci n ≡ (if leb n 45 then some (fibs 1 n) else none)
fibonacci_lem n = elim (Bool-cases (leb n 45)) [
  | inl y ↦ rw y (rounds_fit n 0 (ground arith))
  | inr y ↦ rw y (rounds_overflow n 0 (omega arith) (ground arith))
]
