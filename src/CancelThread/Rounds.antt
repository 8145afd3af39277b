-- ===== src/CancelThread/Rounds.antt =====
-- lab3/2/cancelthread.c: when the thread ends.
use mathlib.Core.Path.{subst}
use open_source_project.Prelude.{
  ℕ, zero, suc, ◌+◌, ◌-◌, ◌*◌, ◌%◌, ◌≤◌, ◌≡◌, inl, inr, refl, Bool, true, false, arith, ◌==◌,
  Bool-cases,
}
use open_source_project.CancelThread.{
  Pc, disabling, printing, sleeping, restoring, testing, cancelled, Thread, point, line, run,
  start_thread, run_lines,
}

-- What holds in front of each line.
abbrev pub At : Pc → Thread → Type 0
At disabling t = (t.enabled ≡ true) × (t.printed ≡ t.i)
At printing t = (t.enabled ≡ false) × (t.saved ≡ true) × (t.printed ≡ t.i)
At sleeping t = (t.enabled ≡ false) × (t.saved ≡ true) × (t.printed ≡ t.i + 1)
At restoring t = (t.enabled ≡ false) × (t.saved ≡ true) × (t.printed ≡ t.i + 1)
At testing t = (t.enabled ≡ true) × (t.printed ≡ t.i + 1)
At cancelled t = (t.printed ≡ t.i + 1) × (t.i % 5 ≡ 0)

-- How many lines are left before the one that ends a thread with a request.
abbrev pub lines_left : Pc → ℕ → ℕ
lines_left disabling i = 5 * ((5 - i % 5) % 5) + 5
lines_left printing i = 5 * ((5 - i % 5) % 5) + 4
lines_left sleeping i = 5 * ((5 - i % 5) % 5) + 3
lines_left restoring i = 5 * ((5 - i % 5) % 5) + 2
lines_left testing i = 5 * ((5 - i % 5) % 5) + 1
lines_left cancelled i = 0

abbrev pub Holds : Thread → Type 0
Holds t = At t.pc t

abbrev at : Pc → ℕ → Bool → Bool → ℕ → Thread
at p i en sv n = record { pc = p; i = i; enabled = en; saved = sv; printed = n }

-- A line keeps what holds, and with a request it comes nearer to the end.
abbrev pub IsNearer : Bool → Thread → Type 0
IsNearer r t =
    Holds (run r t) × (r ≡ true → lines_left (run r t).pc (run r t).i ≡ lines_left t.pc t.i - 1)

test-IsNearer :
    (r : Bool) (i : ℕ) (sv : Bool) (n : ℕ) → n ≡ i + 1 → IsNearer r (at testing i true sv n)
unfolding line point
test-IsNearer true i sv n h = elim (Bool-cases (i % 5 == 0)) [
  | inr z ↦ rw z ((refl, omega arith), λ x. ground arith)
  | inl z ↦ (let fifth : i % 5 ≡ 0 = ground arith in rw z ((h, fifth), λ x. omega arith))
]
test-IsNearer false i sv n h = elim (Bool-cases (i % 5 == 0)) [
  | inr z ↦ rw z ((refl, omega arith), λ x. absurd (cc))
  | inl z ↦ rw z ((refl, omega arith), λ x. absurd (cc))
]

run-IsNearer :
    (r : Bool) (p : Pc) (i : ℕ) (en sv : Bool) (n : ℕ)
    → Holds (at p i en sv n)
    → IsNearer r (at p i en sv n)
unfolding line point
run-IsNearer r disabling i true sv n (e, h) = ((refl, refl, h), λ x. omega arith)
run-IsNearer r disabling i false sv n (e, h) = absurd (cc)
run-IsNearer r printing i false sv n (e, s, h) = ((e, s, omega arith), λ x. omega arith)
run-IsNearer r printing i true sv n (e, s, h) = absurd (cc)
run-IsNearer r sleeping i false sv n (e, s, h) = ((e, s, h), λ x. omega arith)
run-IsNearer r sleeping i true sv n (e, s, h) = absurd (cc)
run-IsNearer r restoring i en sv n (e, s, h) = ((s, h), λ x. omega arith)
run-IsNearer r testing i true sv n (e, h) = test-IsNearer r i sv n h
run-IsNearer r testing i false sv n (e, h) = absurd (cc)
run-IsNearer r cancelled i en sv n h = (h, λ x. refl)

Holds-run : (r : Bool) (t : Thread) → Holds t → IsNearer r t
Holds-run r t h = run-IsNearer r t.pc t.i t.enabled t.saved t.printed h

Holds-run_lines : (n : ℕ) (r : Bool) (t : Thread) → Holds t → Holds (run_lines n r t)
unfolding run_lines
Holds-run_lines zero r t h = h
Holds-run_lines (suc n) r t h = Holds-run_lines n r (run r t) (Holds-run r t h).0

none_left : (p : Pc) (i : ℕ) → lines_left p i ≡ 0 → p ≡ cancelled
none_left disabling i e = absurd (omega arith)
none_left printing i e = absurd (omega arith)
none_left sleeping i e = absurd (omega arith)
none_left restoring i e = absurd (omega arith)
none_left testing i e = absurd (omega arith)
none_left cancelled i e = refl

left_bound : (p : Pc) (i : ℕ) → lines_left p i ≤ 25
left_bound disabling i = omega arith
left_bound printing i = omega arith
left_bound sleeping i = omega arith
left_bound restoring i = omega arith
left_bound testing i = omega arith
left_bound cancelled i = omega arith

lines_left-run_lines :
    (n : ℕ) (t : Thread)
    → Holds t
    → (let u = run_lines n true t in lines_left u.pc u.i ≡ lines_left t.pc t.i - n)
unfolding run_lines
lines_left-run_lines zero t h = omega arith
lines_left-run_lines (suc n) t h =
    let (h', e) = Holds-run true t h in
    omega (arith, lines_left-run_lines n (run true t) h', e refl)

-- However many lines the thread has run before the request, it is cancelled within 25 further lines, and
-- the number of lines that it has printed then is 1 more than a multiple of 5: it never ends inside a
-- round.
pub ends_in_a_fifth_round :
    (before later : ℕ)
    → 25 ≤ later
    → (let t = run_lines later true (run_lines before false start_thread) in
        (t.pc ≡ cancelled) × (t.printed % 5 ≡ 1))
ends_in_a_fifth_round before later le =
    let h : Holds (run_lines before false start_thread) =
      Holds-run_lines before false start_thread (refl, refl) in
    let u : Thread = run_lines before false start_thread in
    let gone =
      none_left (run_lines later true u).pc (run_lines later true u).i
        (omega (arith, lines_left-run_lines later u h, left_bound u.pc u.i)) in
    let v : Thread = run_lines later true u in
    let (whole, fifth) = subst (λ p. At p v) gone (Holds-run_lines later true u h) in
    (gone, omega arith)
