-- ===== src/Calculator/Clicks.antt =====
-- lab3/9/my_calc_gtk.c: what the display holds after any clicks.
use mathlib.Core.Path.{subst}
use open_source_project.Prelude.{
  ℕ, zero, suc, ◌+◌, ◌⊎◌, ◌≡◌, inl, inr, refl, sym, ap, ◌∙◌, Bool, true, false, ◌&&◌, ◌||◌, Option,
  none, some, List, [], ◌∷◌, ◌++◌, append_assoc, arith, ltb, leb, ◌==◌, Bool-cases, Option-cases,
  length, get_elem?, is_space, All, All-append, Bytes, codes, str_eq, str_eq_sound,
}
use open_source_project.Prelude.Decimal.{print_int, print_nat, print_nat-All}
use open_source_project.Prelude.Int.{ℤ, pos, negsuc}
use open_source_project.ChatServer.Registry.{◌>>=◌}
use open_source_project.Calculator.{
  Double, Calc, fits_100, on_number_clicked, on_operator_clicked, on_clear_clicked,
  on_equals_clicked, calculate, result_text, buttons, click, press, press_all, start_calc,
}

abbrev pub is_operator : ℕ → Bool
is_operator c = c == b'+' || c == b'-' || c == b'*' || c == b'/'

-- A character that is neither a blank nor an operator.
abbrev pub IsPlain : ℕ → Type 0
IsPlain c = (is_space c ≡ false) × (is_operator c ≡ false)

-- An operand: no blank and no operator in it, but for a minus sign in front.
abbrev pub Operand : Bytes → Type 0
Operand [] = Unit
Operand (c ∷ s) = ((c ≡ b'-') ⊎ IsPlain c) × All IsPlain s

-- Without an operator, an operand; with one, an operand, the operator between blanks, and what was
-- entered behind it.
abbrev pub Shape : Bool → Bytes → Type 0
Shape false t = Operand t
Shape true t =
    (left : Bytes) × (op : ℕ) × (right : Bytes) × (t ≡ left ++ (32 ∷ op ∷ 32 ∷ right))
    × Operand left
    × All IsPlain right
    × (is_operator op ≡ true)

Operand-append : (t : Bytes) (c : ℕ) → IsPlain c → Operand t → Operand (t ++ (c ∷ []))
Operand-append [] c h o = (inr h, tt)
Operand-append (b ∷ t) c h (first, others) = (first, All-append IsPlain t (c ∷ []) others (h, tt))

pub print_int-Operand : (z : ℤ) → Operand (print_int z)
unfolding print_int
print_int-Operand (pos n) = plain (print_nat n) (print_nat-All IsPlain (λ d h. ground arith) n)
  where
    plain : (t : Bytes) → All IsPlain t → Operand t
    plain [] h = tt
    plain (c ∷ t) (h, hs) = (inr h, hs)
print_int-Operand (negsuc n) = (inl refl, print_nat-All IsPlain (λ d h. ground arith) (n + 1))

-- The shape of the calculator that is there, if any is.
abbrev Shaped : Option Calc → Type 0
Shaped none = Unit
Shaped (some s) = Shape s.has_operator s.display

Shaped-bind :
    (o : Option Calc) (g : Calc → Option Calc)
    → Shaped o
    → ((s : Calc) → Shape s.has_operator s.display → Shaped (g s))
    → Shaped (o >>= g)
Shaped-bind none g h k = tt
Shaped-bind (some s) g h k = k s h

-- A text that was written is the text that was given.
Shaped-fits_100 :
    (b : Bool) (t : Bytes)
    → Shape b t
    → Shaped (fits_100 t >>= λ u. some (record { display = u; has_operator = b }))
Shaped-fits_100 b t h = elim (Bool-cases (ltb (length t) 100)) [ inl e ↦ rw e h | inr e ↦ rw e tt ]

Shape-number : (b : Bool) (t : Bytes) (c : ℕ) → IsPlain c → Shape b t → Shape b (t ++ (c ∷ []))
Shape-number false t c h sh = Operand-append t c h sh
Shape-number true t c h (left, op, right, e, a, r, o) = (
  left,
  op,
  right ++ (c ∷ []),
  ap (λ x. x ++ (c ∷ [])) e ∙ append_assoc left (32 ∷ op ∷ 32 ∷ right) (c ∷ []),
  a,
  All-append IsPlain right (c ∷ []) r (h, tt),
  o,
)

-- A display with an operator is not "0".
Shape-zero :
    (b : Bool) (t : Bytes) (c : ℕ)
    → IsPlain c
    → str_eq t (codes "0") ≡ true
    → Shape b t
    → Shape b (c ∷ [])
Shape-zero false t c h e sh = (inr h, tt)
Shape-zero true t c h e (left, op, right, s, _, _, _) =
    absurd (two left (sym s ∙ str_eq_sound t (codes "0") e))
  where
    two : (l : Bytes) → (l ++ (32 ∷ op ∷ 32 ∷ right) ≡ codes "0") → ⊥
    two [] q = ground arith
    two (x ∷ []) q = ground arith
    two (x ∷ y ∷ l) q = ground arith

Shaped-number :
    (c : ℕ) (s : Calc)
    → IsPlain c
    → Shape s.has_operator s.display
    → Shaped (on_number_clicked (c ∷ []) s)
unfolding on_number_clicked
Shaped-number c s h sh = elim (Bool-cases (str_eq s.display (codes "0"))) [
  | inl e ↦ rw e (Shape-zero s.has_operator s.display c h e sh)
  | inr e ↦ rw e (
      Shaped-fits_100 s.has_operator (s.display ++ (c ∷ []))
        (Shape-number s.has_operator s.display c h sh))
]

Shaped-operator_at :
    (c : ℕ) (b : Bool) (t : Bytes)
    → is_operator c ≡ true
    → Shape b t
    → Shaped (on_operator_clicked (c ∷ []) (record { display = t; has_operator = b }))
unfolding on_operator_clicked
Shaped-operator_at c true t h sh = sh
Shaped-operator_at c false t h sh =
    Shaped-fits_100 true (t ++ (32 ∷ c ∷ 32 ∷ [])) (t, c, [], refl, sh, tt, h)

module _ (d : Double) where
  open d use {D, print_2, scan, to_int, equals_int}

  module _ (plain : (x : D) → Operand (print_2 x)) where
    Shaped-result :
        (r : D)
        → Shaped (result_text d r >>= λ t. some (record { display = t; has_operator = false }))
    unfolding result_text
    Shaped-result r = elim (Option-cases (to_int r)) [
      | inl e ↦ rw e tt
      | inr (n, e) ↦ elim (Bool-cases (equals_int r n)) [
        | inl q ↦ rw (e, q) (print_int-Operand n)
        | inr q ↦ rw (e, q) (Shaped-fits_100 false (print_2 r) (plain r))
      ]
    ]

    Shaped-equals : (s : Calc) → Shape s.has_operator s.display → Shaped (on_equals_clicked d s)
    unfolding on_equals_clicked
    Shaped-equals s sh = elim (Option-cases (scan s.display)) [
      | inl e ↦ rw (e, on_equals_clicked) sh
      | inr (r, e) ↦ rw (e, on_equals_clicked) (Shaped-result (calculate d r.1.0 r.0 r.1.1))
    ]

    -- A label whose button keeps the shape.
    abbrev Good : Bytes → Type 0
    Good l = (s : Calc) → Shape s.has_operator s.display → Shaped (click d l s)

    number : (c : ℕ) → leb 48 c && leb c 57 ≡ true → Good (c ∷ [])
    unfolding click str_eq
    number c h s sh =
        let e1 : (c == b'C') ≡ false = ground arith in
        let e2 : (c == b'=') ≡ false = ground arith in
        rw (e1, e2, h) (Shaped-number c s (ground arith) sh)

    operator : (c : ℕ) → is_operator c ≡ true → Good (c ∷ [])
    unfolding click str_eq
    operator c h s sh =
        let e1 : (c == b'C') ≡ false = ground arith in
        let e2 : (c == b'=') ≡ false = ground arith in
        let e3 : leb 48 c && leb c 57 ≡ false = ground arith in
        rw (e1, e2, e3) (Shaped-operator_at c s.has_operator s.display h sh)

    clear : Good (codes "C")
    unfolding click on_clear_clicked str_eq
    clear s sh = (inr (refl, refl), tt)

    equals : Good (codes "=")
    unfolding click str_eq
    equals s sh = Shaped-equals s sh

    buttons_lem : All (All Good) buttons
    buttons_lem = (
      (number b'7' refl, (number b'8' refl, (number b'9' refl, (operator b'/' refl, tt)))),
      (
        (number b'4' refl, (number b'5' refl, (number b'6' refl, (operator b'*' refl, tt)))),
        (
          (number b'1' refl, (number b'2' refl, (number b'3' refl, (operator b'-' refl, tt)))),
          ((clear, (number b'0' refl, (equals, (operator b'+' refl, tt)))), tt),
        ),
      ),
    )

    row_Good :
        (row : List Bytes) (j : ℕ) (s : Calc)
        → All Good row
        → Shape s.has_operator s.display
        → Shaped (get_elem? row j >>= λ label. click d label s)
    row_Good [] j s h sh = tt
    row_Good (l ∷ row) zero s h sh = h.0 s sh
    row_Good (l ∷ row) (suc j) s h sh = row_Good row j s h.1 sh

    rows_Good :
        (rows : List (List Bytes)) (i j : ℕ) (s : Calc)
        → All (All Good) rows
        → Shape s.has_operator s.display
        → Shaped (get_elem? rows i >>= λ row. get_elem? row j >>= λ label. click d label s)
    rows_Good [] i j s h sh = tt
    rows_Good (row ∷ rows) zero j s h sh = row_Good row j s h.0 sh
    rows_Good (row ∷ rows) (suc i) j s h sh = rows_Good rows i j s h.1 sh

    Shaped-press_all :
        (bs : List (ℕ × ℕ)) (s : Calc) → Shape s.has_operator s.display → Shaped (press_all d bs s)
    unfolding press_all press
    Shaped-press_all [] s sh = sh
    Shaped-press_all (b ∷ bs) s sh =
        Shaped-bind (press d b.0 b.1 s) (press_all d bs)
          (rows_Good buttons b.0 b.1 s buttons_lem sh) (Shaped-press_all bs)

    -- After any clicks that overflow nothing, the display is one operand if has_operator is 0, and an
    -- operand, one of + - * / between blanks, and what was entered behind it, without blanks and operators, if it is 1. An
    -- operand has no blank and none of + - * / in it, but for a minus sign in front. This takes it that
    -- "%.2f" prints an operand.
    pub press_all-Shape :
        (bs : List (ℕ × ℕ)) (s : Calc)
        → press_all d bs start_calc ≡ some s
        → Shape s.has_operator s.display
    press_all-Shape bs s e = subst Shaped e (Shaped-press_all bs start_calc (inr (refl, refl), tt))
