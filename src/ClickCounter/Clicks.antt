-- ===== src/ClickCounter/Clicks.antt =====
-- lab3/8/my_gtk.c: what the label shows.
use open_source_project.Prelude.{
  ℕ, zero, suc, ◌+◌, ◌^◌, ◌≤◌, ◌<◌, ◌≡◌, refl, ap, true, some, ◌++◌, arith, ltb, length,
  length-append, codes,
}
use open_source_project.Prelude.Int.{pos}
use open_source_project.Prelude.Decimal.{print_nat, print_int, length-print_int}
use open_source_project.ClickCounter.{Counter, label_text, on_button_clicked, start_counter, clicks}

-- The label for a number of clicks.
abbrev pub counted : ℕ → Counter
counted n = record {
  count = n;
  label = codes "Button clicked: " ++ (print_nat n ++ codes " times");
}

-- Every number of clicks that an `int` holds fits into the buffer.
on_button_clicked-counted :
    (n : ℕ) → n + 1 < 2 ^ 31 → on_button_clicked (counted n) ≡ some (counted (n + 1))
unfolding on_button_clicked label_text print_nat print_int
on_button_clicked-counted n lt =
    let z : ltb (n + 1) (2 ^ 31) ≡ true = ground arith in
    let short : length (print_nat (n + 1)) ≤ 11 = length-print_int (pos (n + 1)) lt in
    let fits : ltb (length (codes "Button clicked: " ++ (print_nat (n + 1) ++ codes " times"))) 50
        ≡ true =
      ground (arith, length-append {0} (print_nat (n + 1)) (codes " times")) in
    rw (z, fits) refl

clicks-counted : (n m k : ℕ) → m + n ≡ k → k < 2 ^ 31 → clicks n (counted m) ≡ some (counted k)
unfolding clicks
clicks-counted zero m k e lt = ap (λ j. some (counted j)) (let e' : m ≡ k = omega arith in e')
clicks-counted (suc n) m k e lt =
    rw (on_button_clicked-counted m (omega arith)) (clicks-counted n (m + 1) k (omega arith) lt)

-- After each number of clicks that an `int` holds the label shows this number, and no text overflows the
-- buffer.
pub clicks_lem : (n : ℕ) → n < 2 ^ 31 → clicks n start_counter ≡ some (counted n)
unfolding print_nat
clicks_lem n lt = clicks-counted n 0 n (omega arith) lt
