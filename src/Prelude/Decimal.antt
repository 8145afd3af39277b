-- ===== src/Prelude/Decimal.antt =====
-- Decimal numbers of C: what printf's %d prints and what `atoi` reads.
use Prim.Native.Nat.{ℕ, zero, suc, ◌+◌, ◌-◌, ◌*◌, ◌/◌, ◌%◌, ◌^◌, ◌≤◌, ◌<◌}
use mathlib.Core.Path.{◌≡◌, refl, ◌∙◌, ap}
use mathlib.Core.Logic.{inl, inr}
use mathlib.Core.Bool.{true, false, ◌&&◌}
use mathlib.Core.List.{[], ◌∷◌, ◌++◌}
use mathlib.Core.Option.{Option, none, some}
use native.Mathlib.Omega.{arith}
use open_source_project.Prelude.Tests.{◌==◌, leb, ltb, if◌then◌else◌, Bool-cases}
use native.Mathlib.Nat.{pow-suc}
use open_source_project.Prelude.Lists.{length, All}
use open_source_project.Prelude.Text.{Bytes, codes}
use open_source_project.Prelude.Int.{ℤ, pos, negsuc}
use open_source_project.Prelude.Words.{is_space}

-- The digits of `n` in front of `out`; `n` rounds are enough for `n`.
digits : ℕ → ℕ → Bytes → Bytes
digits zero n out = out
digits (suc f) n out = elim (n == 0) [
  | true ↦ out
  | false ↦ digits f (n / 10) ((48 + n % 10) ∷ out)
]

unfoldable pub print_nat : ℕ → Bytes
unfolding digits
print_nat n = if n == 0 then codes "0" else digits n n []

-- `%d`
unfoldable pub print_int : ℤ → Bytes
unfolding print_nat
print_int (pos n) = print_nat n
print_int (negsuc n) = b'-' ∷ print_nat (n + 1)

-- The digits at the front of a text, read behind `acc`.
scan : Bytes → ℕ → ℕ
scan [] acc = acc
scan (c ∷ s) acc =
    let rest = scan s (acc * 10 + (c - 48)) in if leb 48 c && leb c 57 then rest else acc

skip_spaces : Bytes → Bytes
skip_spaces [] = []
skip_spaces (c ∷ s) = if is_space c then skip_spaces s else c ∷ s

in_int_pos : ℕ → Option ℤ
in_int_pos v = if ltb v (2 ^ 31) then some (pos v) else none

in_int_neg : ℕ → Option ℤ
in_int_neg v =
    if v == 0 then some (pos 0) else if leb v (2 ^ 31) then some (negsuc (v - 1)) else none

signed : Bytes → Option ℤ
unfolding scan in_int_pos in_int_neg
signed [] = some (pos 0)
signed (c ∷ s) =
    if c == b'-'
    then in_int_neg (scan s 0)
    else if c == b'+'
    then in_int_pos (scan s 0)
    else in_int_pos (scan (c ∷ s) 0)

-- `atoi`; a value that no `int` holds is undefined behaviour.
unfoldable pub atoi : Bytes → Option ℤ
unfolding skip_spaces signed
atoi s = signed (skip_spaces s)

-- The text does not go on with a digit.
abbrev pub StopsDigits : Bytes → Type 0
StopsDigits [] = Unit
StopsDigits (c ∷ s) = leb 48 c && leb c 57 ≡ false

-- An `int`.
abbrev pub IsInt : ℤ → Type 0
IsInt (pos n) = n < 2 ^ 31
IsInt (negsuc n) = n < 2 ^ 31

scan_stop : (rest : Bytes) (n : ℕ) → StopsDigits rest → scan rest n ≡ n
unfolding scan
scan_stop [] n h = refl
scan_stop (c ∷ s) n h = rw h

digits_end : (f n : ℕ) (out : Bytes) → (n == 0) ≡ true → digits (suc f) n out ≡ out
unfolding digits
digits_end f n out e = rw (e, digits)

digits_round :
    (f n : ℕ) (out : Bytes)
    → (n == 0) ≡ false
    → digits (suc f) n out ≡ digits f (n / 10) ((48 + n % 10) ∷ out)
unfolding digits
digits_round f n out e = rw (e, digits)

digits-append : (f n : ℕ) (out rest : Bytes) → digits f n out ++ rest ≡ digits f n (out ++ rest)
unfolding digits
digits-append zero n out rest = refl
digits-append (suc f) n out rest = elim (Bool-cases (n == 0)) [
  | inl e ↦ rw (digits_end f n out e, digits_end f n (out ++ rest) e)
  | inr e ↦
      rw (digits_round f n out e, digits_round f n (out ++ rest) e)
        (digits-append f (n / 10) ((48 + n % 10) ∷ out) rest)
]

scan_digit : (n : ℕ) (out : Bytes) → scan ((48 + n % 10) ∷ out) (n / 10) ≡ scan out n
unfolding scan
scan_digit n out = let e : n / 10 * 10 + (48 + n % 10 - 48) ≡ n = omega arith in rw e (ground arith)

scan-digits : (f n : ℕ) (out : Bytes) → n ≤ f → scan (digits f n out) 0 ≡ scan out n
unfolding digits
scan-digits zero n out h = let e : n ≡ 0 = omega arith in rw e
scan-digits (suc f) n out h = elim (Bool-cases (n == 0)) [
  | inl e ↦ let z : n ≡ 0 = ground arith in rw (digits_end f n out e, z)
  | inr e ↦
      rw (digits_round f n out e)
        (scan-digits f (n / 10) ((48 + n % 10) ∷ out) (ground arith) ∙ scan_digit n out)
]

scan-print_nat : (n : ℕ) (rest : Bytes) → StopsDigits rest → scan (print_nat n ++ rest) 0 ≡ n
unfolding print_nat
scan-print_nat n rest h = elim (Bool-cases (n == 0)) [
  | inl e ↦ rw e (unfold scan in (scan_stop rest 0 h ∙ (ground arith)))
  | inr e ↦ rw e (
      ap (λ t. scan t 0) (digits-append n n [] rest)
      ∙ scan-digits n n rest (omega arith)
      ∙ scan_stop rest n h)
]

-- A printed number starts with a digit.
abbrev Digit : Bytes → Type 0
Digit [] = ⊥
Digit (c ∷ s) = (48 ≤ c) × (c ≤ 57)

digits_head : (f n : ℕ) (out : Bytes) → n ≤ f → (n ≡ 0 → Digit out) → Digit (digits f n out)
unfolding digits
digits_head zero n out h d = d (omega arith)
digits_head (suc f) n out h d = elim (Bool-cases (n == 0)) [
  | inl e ↦ rw (digits_end f n out e) (d (ground arith))
  | inr e ↦
      rw (digits_round f n out e)
        (digits_head f (n / 10) ((48 + n % 10) ∷ out) (ground arith) (λ z. omega arith))
]

print_nat_head : (n : ℕ) → Digit (print_nat n)
unfolding print_nat
print_nat_head n = elim (Bool-cases (n == 0)) [
  | inl e ↦ rw e (omega arith)
  | inr e ↦ rw e (digits_head n n [] (omega arith) (λ z. ground arith))
]

-- Reading a text that starts with a digit skips nothing and takes no sign.
signed-Digit : (t : Bytes) → Digit t → signed (skip_spaces t) ≡ in_int_pos (scan t 0)
unfolding signed skip_spaces
signed-Digit [] d = absurd d
signed-Digit (c ∷ s) d = ground arith

Digit-append : (t rest : Bytes) → Digit t → Digit (t ++ rest)
Digit-append [] rest d = absurd d
Digit-append (c ∷ s) rest d = d

-- `atoi` reads back every `int` that %d printed, up to the byte that ends the digits.
pub atoi-print_int :
    (z : ℤ) (rest : Bytes) → IsInt z → StopsDigits rest → atoi (print_int z ++ rest) ≡ some z
unfolding atoi print_int in_int_pos in_int_neg
atoi-print_int (pos n) rest h stop =
    rw
      (
        signed-Digit (print_nat n ++ rest) (Digit-append (print_nat n) rest (print_nat_head n)),
        scan-print_nat n rest stop,
      )
      (ground arith)
atoi-print_int (negsuc n) rest h stop = rw (scan-print_nat (n + 1) rest stop) (ground arith)

length-digits : (k f n : ℕ) (out : Bytes) → n < 10 ^ k → length (digits f n out) ≤ k + length out
unfolding digits
length-digits zero zero n out h = omega arith
length-digits zero (suc f) n out h =
    let e : (n == 0) ≡ true = ground arith in rw (digits_end f n out e) (omega arith)
length-digits (suc k) zero n out h = omega arith
length-digits (suc k) (suc f) n out h = elim (Bool-cases (n == 0)) [
  | inl e ↦ rw (digits_end f n out e) (omega arith)
  | inr e ↦
      rw (digits_round f n out e)
        (omega (arith, length-digits k f (n / 10) ((48 + n % 10) ∷ out) (smaller e)))
]
  where
    smaller : (n == 0) ≡ false → n / 10 < 10 ^ k
    smaller e = let p : 10 ^ suc k ≡ 10 ^ k * 10 = pow-suc 10 k in omega (arith, p)

length-print_nat : (n : ℕ) → n < 10 ^ 10 → length (print_nat n) ≤ 10
unfolding print_nat
length-print_nat n h = elim (Bool-cases (n == 0)) [
  | inl e ↦ rw e (omega arith)
  | inr e ↦ rw e (omega (arith, length-digits 10 n n [] h))
]

pub length-print_int : (z : ℤ) → IsInt z → length (print_int z) ≤ 11
unfolding print_int
length-print_int (pos n) h = omega (arith, length-print_nat n (omega arith))
length-print_int (negsuc n) h = omega (arith, length-print_nat (n + 1) (omega arith))

-- What holds of the digits and of the sign holds of every byte of a printed number.
module _ (P : ℕ → Type 0) (digit : (d : ℕ) → d < 10 → P (48 + d)) where
  digits-All : (f n : ℕ) (out : Bytes) → All P out → All P (digits f n out)
  unfolding digits
  digits-All zero n out h = h
  digits-All (suc f) n out h = elim (Bool-cases (n == 0)) [
    | inl e ↦ rw (digits_end f n out e) h
    | inr e ↦
        rw (digits_round f n out e)
          (digits-All f (n / 10) ((48 + n % 10) ∷ out) (digit (n % 10) (omega arith), h))
  ]

  pub print_nat-All : (n : ℕ) → All P (print_nat n)
  unfolding print_nat
  print_nat-All n = elim (Bool-cases (n == 0)) [
    | inl e ↦ rw e (digit 0 (omega arith), tt)
    | inr e ↦ rw e (digits-All n n [] tt)
  ]

  pub print_int-All : (z : ℤ) → P b'-' → All P (print_int z)
  unfolding print_int
  print_int-All (pos n) h = print_nat-All n
  print_int-All (negsuc n) h = (h, print_nat-All (n + 1))

pub print_int-NoBlank : (z : ℤ) → All (λ c. is_space c ≡ false) (print_int z)
print_int-NoBlank z = print_int-All (λ c. is_space c ≡ false) (λ d h. ground arith) z refl
