-- ===== src/TurnTaking/Progress.antt =====
-- lab3/4/hellothread.c: the threads never block each other, and go on greeting.
use open_source_project.Prelude.{
  ℕ, ◌+◌, ◌≤◌, ◌<◌, ◌≡◌, ◌⊎◌, inl, inr, refl, Bool, true, false, Option, none, some, arith, length,
}
use open_source_project.TurnTaking.{
  Who, child, parent, other, Pc, lock, test, wait, woken, print, pass, signal, unlock, Shared, Move,
  locks, goes_on, waits, relocks, prints, passes, signals, unlocks, State, Step, child_moves,
  parent_moves, Reach,
}
use open_source_project.Prelude.Runs.{Run, run_for, Progress, Run-keeps, Run-counts}
use open_source_project.TurnTaking.Order.{Inv, Inv-other, critical, StateInv, Step-Inv, Reach-Inv}

-- How far a thread is from what it waits for: its greeting, if it has the turn, and else its wait.
abbrev distance : Pc → Bool → ℕ
distance lock b = 3
distance test b = 2
distance wait true = 4
distance wait false = 0
distance woken b = 3
distance print b = 1
distance pass b = 14
distance signal b = 6
distance unlock b = 5

abbrev is_who : Who → Who → Bool
is_who child child = true
is_who parent parent = true
is_who _ _ = false

abbrev pub measure : Who → Shared → Pc → Pc → ℕ
measure t m p q = distance p (is_who m.turn t) + distance q (is_who m.turn (other t))

-- A step that is no greeting comes nearer to the next one; a greeting adds itself.
Move-measure :
    {t : Who} {m m' : Shared} {p q p' q' : Pc}
    → Move t m p q m' p' q'
    → Inv t m p q
    → (measure t m' p' q' + 1 ≤ measure t m p q) × (length m'.greeted ≡ length m.greeted)
      ⊎ (length m'.greeted ≡ length m.greeted + 1)
Move-measure {t} {m} (locks {q} e) i = ground (arith, i.fresh)
Move-measure {t} {m} (goes_on {q} e) i = ground (arith, i.fresh)
Move-measure {t} {m} (waits {q} e) i = ground (arith, i.fresh)
Move-measure {t} {m} (relocks {q} e) i = ground (arith, i.fresh)
Move-measure {t} {m} (prints {q}) i = inr (omega arith)
Move-measure {t} {m} (passes {q}) i = ground (arith, i.fresh)
Move-measure {t} {m} (signals {q}) i = ground (arith, i.fresh)
Move-measure {t} {m} (unlocks {q}) i = ground (arith, i.fresh)

-- A thread that holds the mutex can go on.
critical_moves :
    (t : Who) (m : Shared) (p q : Pc)
    → critical p ≡ true
    → (m' : Shared) × (p' : Pc) × (q' : Pc) × Move t m p q m' p' q'
critical_moves t m test q h = elim (turn_cases m.turn t) [
  | inl e ↦ (_, _, _, goes_on e)
  | inr e ↦ (_, _, _, waits e)
]
  where
    turn_cases : (u t : Who) → (u ≡ t) ⊎ (u ≡ other t)
    turn_cases child child = inl refl
    turn_cases child parent = inr refl
    turn_cases parent child = inr refl
    turn_cases parent parent = inl refl
critical_moves t m print q h = (_, _, _, prints)
critical_moves t m pass q h = (_, _, _, passes)
critical_moves t m signal q h = (_, _, _, signals)
critical_moves t m unlock q h = (_, _, _, unlocks)
critical_moves t m lock q h = absurd cc
critical_moves t m wait q h = absurd cc
critical_moves t m woken q h = absurd cc

-- While the mutex is free, a thread that does not wait takes it, and not both of them wait.
free_moves :
    (m : Shared) (p q : Pc)
    → m.owner ≡ none
    → Inv child m p q
    → ((m' : Shared) × (p' : Pc) × (q' : Pc) × Move child m p q m' p' q')
      ⊎ ((m' : Shared) × (p' : Pc) × (q' : Pc) × Move parent m q p m' q' p')
free_moves m lock q e i = inl (_, _, _, locks e)
free_moves m woken q e i = inl (_, _, _, relocks e)
free_moves m p lock e i = inr (_, _, _, locks e)
free_moves m p woken e i = inr (_, _, _, relocks e)
free_moves m wait wait e i = absurd (both m.turn i.mine i.theirs)
  where
    both : (u : Who) → (u ≡ child → wait ≡ signal) → (u ≡ parent → wait ≡ signal) → ⊥
    both child f g = cc (f refl)
    both parent f g = cc (g refl)
free_moves m test q e i = absurd (cc (i.mine))
free_moves m print q e i = absurd (cc)
free_moves m pass q e i = absurd (cc)
free_moves m signal q e i = absurd (cc)
free_moves m unlock q e i = absurd (cc (i.mine))
free_moves m wait test e i = absurd (cc (i.theirs))
free_moves m wait print e i = absurd (cc (i.theirs.0))
free_moves m wait pass e i = absurd (cc (i.theirs.0))
free_moves m wait signal e i = absurd (cc (i.theirs.0))
free_moves m wait unlock e i = absurd (cc (i.theirs))

-- Some thread can go on without a wake-up from outside.
step_from : (s : State) → StateInv s → (t : State) × Step s t
step_from s i = elim (owner_cases s.mem.owner) [
  | inl e ↦ (elim (free_moves s.mem s.child_pc s.parent_pc e i) [
    | inl (_, _, _, mv) ↦ (_, child_moves mv)
    | inr (_, _, _, mv) ↦ (_, parent_moves mv)
  ])
  | inr (inl e) ↦
      (let (_, _, _, mv) = critical_moves child s.mem s.child_pc s.parent_pc (i.owned e) in
        (_, child_moves mv))
  | inr (inr e) ↦
      (let (_, _, _, mv) = critical_moves parent s.mem s.parent_pc s.child_pc (i.owned_other e) in
        (_, parent_moves mv))
]
  where
    owner_cases : (o : Option Who) → (o ≡ none) ⊎ (o ≡ some child) ⊎ (o ≡ some parent)
    owner_cases none = inl refl
    owner_cases (some child) = inr (inl refl)
    owner_cases (some parent) = inr (inr refl)

abbrev pub greetings : State → ℕ
greetings s = length s.mem.greeted

abbrev left : State → ℕ
left s = measure child s.mem s.child_pc s.parent_pc

Step-left :
    {s t : State}
    → Step s t
    → StateInv s
    → (left t + 1 ≤ left s) × (greetings t ≡ greetings s) ⊎ (greetings t ≡ greetings s + 1)
Step-left (child_moves mv) i = Move-measure mv i
Step-left {s} (parent_moves mv) i =
    let r = Move-measure mv (Inv-other child s.mem s.child_pc s.parent_pc i) in
    elim r [ inl h ↦ inl (omega (arith, h)) | inr h ↦ inr h ]

progress : Progress Step
progress = record {
  Inv = StateInv;
  keeps = λ s t st i. Step-Inv st i;
  distance = left;
  counted = greetings;
  nearer = λ s t st i. Step-left st i;
  goes_on = step_from;
}

left_le : (s : State) → left s ≤ 28
left_le s = ground arith

-- There are runs of every length.
pub run_from : (n : ℕ) (s : State) → Reach s → (t : State) × Run Step s n t
unfolding progress
run_from n s r = run_for progress n s (Reach-Inv r)

-- A run from a reachable state of more than 28 steps without spurious wake-ups contains a greeting, and
-- can be continued: the threads never block each other for good, whatever the scheduler does.
pub greets_again :
    {s t : State} (n : ℕ)
    → Reach s
    → Run Step s n t
    → 28 < n
    → (greetings s < greetings t) × ((u : State) × Step t u)
unfolding progress
greets_again {s} {t} n r run long =
    let i = Reach-Inv r in
    (Run-counts progress run i (omega (arith, left_le s)), step_from t (Run-keeps progress run i))
