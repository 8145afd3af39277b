-- ===== src/ReadLoops/Totals.antt =====
-- lab2/ch7/file_copy.c and textCount.c: what the printed totals say about the files.
use mathlib.Core.Path.{subst}
use open_source_project.Prelude.{
  ℕ, zero, suc, ◌+◌, ◌-◌, ◌^◌, ◌<◌, codes, ◌≤◌, ◌≡◌, ◌↔◌, refl, sym, ap, ◌∙◌, true, false, Option,
  none, some, List, [], ◌∷◌, ◌++◌, map, append_assoc, append-nil, arith, length, length-append,
  take, All, Bytes,
}
use open_source_project.Prelude.Int.{ℤ, pos, negsuc}
use open_source_project.Prelude.Decimal.{print_int}
use open_source_project.WebServer.{◌+ℤ◌}
use open_source_project.ReadLoops.{
  text_total, low_half, prints, text_count, file_copy, outcome_of, Round, written, count_of,
  copy_rounds, count_loop,
}

-- `z` is `a` - `b`.
abbrev IsDiff : ℤ → ℕ → ℕ → Type 0
IsDiff (pos n) a b = n + b ≡ a
IsDiff (negsuc n) a b = a + n + 1 ≡ b

IsDiff-add : (z : ℤ) (a b n : ℕ) → IsDiff z a b → IsDiff (z +ℤ pos n) (a + n) b
IsDiff-add (pos m) a b n e = omega arith
IsDiff-add (negsuc m) a b n e = ground arith

IsDiff-less : (z : ℤ) (a b : ℕ) → IsDiff z a b → IsDiff (z +ℤ negsuc 0) a (b + 1)
IsDiff-less (pos m) a b e = ground arith
IsDiff-less (negsuc m) a b e = omega arith

IsDiff-pos : (z : ℤ) (n : ℕ) → IsDiff z n 0 → z ≡ pos n
IsDiff-pos (pos m) n e = ap pos (omega arith)
IsDiff-pos (negsuc m) n e = absurd (omega arith)

-- The parts of a file, and what `write` took of each of them.
pub record Part : Type 0 where
  pub first : ℕ
  pub others : Bytes
  pub took : Option ℕ

abbrev pub part_of : Part → Bytes
part_of p = p.first ∷ p.others

abbrev pub round_of : Part → Round
round_of p = record { got = some (part_of p); took = p.took }

-- The file that has the parts.
abbrev pub file_of : List Part → Bytes
file_of [] = []
file_of (p ∷ ps) = part_of p ++ file_of ps

-- `write` takes as many bytes as it is given at most.
abbrev pub TakesOf : Bytes → Option ℕ → Type 0
TakesOf s none = Unit
TakesOf s (some n) = n ≤ length s

abbrev pub Takes : Part → Type 0
Takes p = TakesOf (part_of p) p.took

-- What the target gets, and how many writes failed.
abbrev kept : List Part → Bytes
kept [] = []
kept (p ∷ ps) = written (part_of p) p.took ++ kept ps

abbrev failed_once : Option ℕ → ℕ
failed_once none = 1
failed_once (some n) = 0

abbrev fails : List Part → ℕ
fails [] = 0
fails (p ∷ ps) = failed_once p.took + fails ps

length-take_le : (n : ℕ) (s : Bytes) → n ≤ length s → length (take n s) ≡ n
length-take_le zero s h = ground arith
length-take_le (suc n) [] h = absurd (omega arith)
length-take_le (suc n) (c ∷ s) h = ground (arith, length-take_le n s)

take-length : (s : Bytes) → take (length s) s ≡ s
take-length [] = refl
take-length (c ∷ s) = ap (λ t. c ∷ t) (take-length s)

IsDiff-count :
    (z : ℤ) (a b : ℕ) (s : Bytes) (o : Option ℕ)
    → TakesOf s o
    → IsDiff z a b
    → IsDiff (z +ℤ count_of o) (a + length (written s o)) (b + failed_once o)
IsDiff-count z a b s none h d = let e : a + 0 ≡ a = omega arith in rw e (IsDiff-less z a b d)
IsDiff-count z a b s (some n) h d =
    let e : b + 0 ≡ b = omega arith in rw (length-take_le n s h, e) (IsDiff-add z a b n d)

-- What the loop leaves: the bytes that were taken, and their number less one for each failure.
copy_rounds-kept :
    (ps : List Part) (target : Bytes) (z : ℤ) (a b : ℕ)
    → All Takes ps
    → IsDiff z a b
    → (z' : ℤ) × (copy_rounds (map round_of ps) target z
        ≡ record { target = target ++ kept ps; total = z'; broken = false })
      × IsDiff z' (a + length (kept ps)) (b + fails ps)
unfolding copy_rounds
copy_rounds-kept [] target z a b h d =
    let e1 : a + 0 ≡ a = omega arith in
    let e2 : b + 0 ≡ b = omega arith in
    (
      z,
      ap (λ t. record { target = t; total = z; broken = false }) (sym (append-nil target)),
      rw (e1, e2) d,
    )
copy_rounds-kept (p ∷ ps) target z a b (hp, h) d =
    let w = written (part_of p) p.took in
    let (z', e, d') =
      copy_rounds-kept ps (target ++ w) (z +ℤ count_of p.took) (a + length w)
        (b + failed_once p.took) h (IsDiff-count z a b (part_of p) p.took hp d) in
    let e1 : a + length (w ++ kept ps) ≡ a + length w + length (kept ps) =
      omega (arith, length-append w (kept ps)) in
    let e2 : b + (failed_once p.took + fails ps) ≡ b + failed_once p.took + fails ps =
      omega arith in
    (
      z',
      e
          ∙ ap (λ t. record { target = t; total = z'; broken = false })
              (append_assoc target w (kept ps)),
      rw (e1, e2) d',
    )

-- One `write` of a part that is not empty.
kept_once :
    (c : ℕ) (b : Bytes) (o : Option ℕ)
    → TakesOf (c ∷ b) o
    → (lost : ℕ) × (length (written (c ∷ b) o) + lost ≡ length (c ∷ b))
      × (failed_once o ≤ lost)
      × (lost ≡ 0 → written (c ∷ b) o ≡ c ∷ b)
kept_once c b none h = (length (c ∷ b), omega arith, omega arith, λ e. absurd (omega arith))
kept_once c b (some n) h = (
  length (c ∷ b) - n,
  omega (arith, length-take_le n (c ∷ b) h),
  omega arith,
  λ e. let z : n ≡ length (c ∷ b) = omega arith in rw z (take-length (c ∷ b)),
)

-- Nothing is lost exactly if all was taken.
nothing_lost :
    (ps : List Part)
    → All Takes ps
    → (lost : ℕ) × (length (kept ps) + lost ≡ length (file_of ps))
      × (fails ps ≤ lost)
      × (lost ≡ 0 → kept ps ≡ file_of ps)
nothing_lost [] h = (0, omega arith, omega arith, λ e. refl)
nothing_lost (p ∷ ps) (hp, h) =
    let w = written (part_of p) p.took in
    let (lost, e, le, all) = nothing_lost ps h in
    let (here, e', le', all') = kept_once p.first p.others p.took hp in
    (
      here + lost,
      omega (arith, length-append w (kept ps), length-append (part_of p) (file_of ps)),
      omega arith,
      λ q. rw (all' (omega arith), all (omega arith)) refl,
    )

count_loop-parts :
    (ps : List Part) (n : ℕ)
    → count_loop (map (λ p. some (part_of p)) ps) (pos n) ≡ pos (n + length (file_of ps))
unfolding count_loop
count_loop-parts [] n = ap pos (omega arith)
count_loop-parts (p ∷ ps) n =
    count_loop-parts ps (n + length (part_of p))
    ∙ ap pos (omega (arith, length-append (part_of p) (file_of ps)))

-- The total is the length of the file exactly if the target is the file.
total_iff :
    (ps : List Part) (z : ℤ)
    → All Takes ps
    → IsDiff z (0 + length (kept ps)) (0 + fails ps)
    → (z ≡ pos (length (file_of ps))) ↔ ([] ++ kept ps ≡ file_of ps)
total_iff ps z h d =
    let (lost, l, le, all) = nothing_lost ps h in
    (
      λ e.
          let d' = subst (λ t. IsDiff t (0 + length (kept ps)) (0 + fails ps)) e d in
          all (omega arith),
      λ e.
          let n = ap length e in
          let none_failed : 0 + fails ps ≡ 0 = omega arith in
          let same : 0 + length (kept ps) ≡ length (file_of ps) = omega arith in
          IsDiff-pos z (length (file_of ps)) (rw (same, none_failed) at d),
    )

-- A total between minus the length and the length keeps its value in 32 bits.
low_half_lem : (z : ℤ) (a b : ℕ) → IsDiff z a b → a < 2 ^ 31 → b < 2 ^ 31 → low_half z ≡ z
low_half_lem (pos n) a b d la lb = ground arith
low_half_lem (negsuc n) a b d la lb = ground arith

printed_total :
    (ps : List Part) (z : ℤ)
    → All Takes ps
    → length (file_of ps) < 2 ^ 31
    → IsDiff z (0 + length (kept ps)) (0 + fails ps)
    → low_half z ≡ z
printed_total ps z h small d =
    let (lost, l, le, all) = nothing_lost ps h in
    low_half_lem z (0 + length (kept ps)) (0 + fails ps) d (omega arith) (omega arith)

abbrev pub total_line : ℤ → Bytes
total_line n = codes "total write count = " ++ (print_int n ++ codes "\n")

-- For a file of fewer than 2^31 bytes: however `read` cuts it into parts, textCount prints its length; and
-- whatever each `write` of file_copy takes of its part, failed and short writes included, the total that
-- it prints is that length exactly if the target is a copy of the file.
pub file_copy_lem :
    (src dst : Bytes) (ps : List Part)
    → All Takes ps
    → length (file_of ps) < 2 ^ 31
    → (text_count true (map (λ p. some (part_of p)) ps)
        ≡ prints (text_total (pos (length (file_of ps)))))
      × ((target : Bytes) × (total : ℤ) × (file_copy (src ∷ dst ∷ []) true true (map round_of ps)
            ≡ (some target, prints (total_line total)))
          × ((total ≡ pos (length (file_of ps))) ↔ (target ≡ file_of ps)))
unfolding text_count file_copy
file_copy_lem src dst ps h small =
    let (z, e, d) = copy_rounds-kept ps [] (pos 0) 0 0 h refl in
    (
      ap (λ n. prints (text_total n)) (count_loop-parts ps 0 ∙ ap pos (omega arith)),
      (
        [] ++ kept ps,
        z,
        ap (λ r. (some r.target, outcome_of r)) e
            ∙ ap (λ n. (some ([] ++ kept ps), prints (total_line n)))
                (printed_total ps z h small d),
        total_iff ps z h d,
      ),
    )
