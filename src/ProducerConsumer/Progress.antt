-- ===== src/ProducerConsumer/Progress.antt =====
-- lab3/2/boundedbuffer.c: the producer and the consumer never block each other for good.
use open_source_project.Prelude.{
  ℕ, ◌+◌, ◌≤◌, ◌<◌, ◌≡◌, ◌⊎◌, inl, inr, refl, Bool, true, false, Option, none, some, [], ◌∷◌, ◌++◌,
  arith, Bool-cases, length, length-append,
}
use open_source_project.BoundedBuffer.{buffer_size, is_full, is_empty, take_out}
use open_source_project.BoundedBuffer.Queue.{contents}
use open_source_project.ProducerConsumer.{
  Side, producer, consumer, Shared, Producer, p_make, p_lock, p_test, p_wait, p_woken, p_store,
  p_signal, p_unlock, Consumer, c_lock, c_test, c_wait, c_woken, c_load, c_signal, c_unlock, c_use,
  State, Move, makes, p_locks, p_waits, p_relocks, p_goes_on, stores, p_signals, p_unlocks, c_locks,
  c_waits, c_relocks, c_goes_on, loads, c_signals, c_unlocks, uses, Step, moves, Reach,
}
use open_source_project.Prelude.Runs.{Run, run_for, Progress, Run-keeps, Run-counts}
use open_source_project.ProducerConsumer.Invariant.{
  Inv, StateInv, Step-Inv, Reach-Inv, p_critical, c_critical,
}

-- How far the producer is from its next store, or from a wait while the ring is full.
abbrev p_distance : Producer → Bool → ℕ
p_distance p_signal b = 7
p_distance p_unlock b = 6
p_distance p_make b = 5
p_distance (p_lock x) b = 3
p_distance (p_woken x) b = 3
p_distance (p_test x) b = 2
p_distance (p_store x) b = 1
p_distance (p_wait x) true = 0
p_distance (p_wait x) false = 4

-- How far the consumer is from its next load, or from a wait while the ring is empty.
abbrev c_distance : Consumer → Bool → ℕ
c_distance (c_signal x) b = 7
c_distance (c_unlock x) b = 6
c_distance (c_use x) b = 5
c_distance c_lock b = 3
c_distance c_woken b = 3
c_distance c_test b = 2
c_distance c_load b = 1
c_distance c_wait true = 0
c_distance c_wait false = 4

abbrev distance : Shared → Producer → Consumer → ℕ
distance m p c = p_distance p (is_full m.buf) + c_distance c (is_empty m.buf)

-- How many items were moved.
abbrev pub moved : Shared → ℕ
moved m = length m.inserted + length m.removed

Move-distance :
    {m m' : Shared} {p p' : Producer} {c c' : Consumer}
    → Move m p c m' p' c'
    → Inv m p c
    → (distance m' p' c' + 1 ≤ distance m p c) × (moved m' ≡ moved m) ⊎ (moved m' ≡ moved m + 1)
Move-distance {m} (makes {c} x) i = inl (ground arith)
Move-distance {m} (p_locks {c} {x} e) i = inl (ground arith)
Move-distance {m} (p_waits {c} {x} e) i = inl (ground arith)
Move-distance {m} (p_relocks {c} {x} e) i = inl (ground arith)
Move-distance {m} (p_goes_on {c} {x} e) i = inl (ground arith)
Move-distance {m} (stores {c} {x}) i = inr (omega (arith, length-append {0} m.inserted (x ∷ [])))
Move-distance {m} (p_signals {c}) i = inl (ground arith)
Move-distance {m} (p_unlocks {c}) i = inl (ground arith)
Move-distance {m} (c_locks {p} e) i = inl (ground arith)
Move-distance {m} (c_waits {p} e) i = inl (ground arith)
Move-distance {m} (c_relocks {p} e) i = inl (ground arith)
Move-distance {m} (c_goes_on {p} e) i = inl (ground arith)
Move-distance {m} (loads {p}) i =
    inr (omega (arith, length-append {0} m.removed ((take_out m.buf).0 ∷ [])))
Move-distance {m} (c_signals {p} {x}) i = inl (ground arith)
Move-distance {m} (c_unlocks {p} {x}) i = inl (ground arith)
Move-distance {m} (uses {p} {x}) i = inl (ground arith)

abbrev CanMove : Shared → Producer → Consumer → Type 0
CanMove m p c = (m' : Shared) × (p' : Producer) × (c' : Consumer) × Move m p c m' p' c'

-- The holder of the mutex can go on.
producer_moves : (m : Shared) (p : Producer) (c : Consumer) → p_critical p ≡ true → CanMove m p c
producer_moves m (p_test x) c h = elim (Bool-cases (is_full m.buf)) [
  | inl e ↦ (_, _, _, p_waits e)
  | inr e ↦ (_, _, _, p_goes_on e)
]
producer_moves m (p_store x) c h = (_, _, _, stores)
producer_moves m p_signal c h = (_, _, _, p_signals)
producer_moves m p_unlock c h = (_, _, _, p_unlocks)
producer_moves m p_make c h = absurd (cc)
producer_moves m (p_lock x) c h = absurd (cc)
producer_moves m (p_wait x) c h = absurd (cc)
producer_moves m (p_woken x) c h = absurd (cc)

consumer_moves : (m : Shared) (p : Producer) (c : Consumer) → c_critical c ≡ true → CanMove m p c
consumer_moves m p c_test h = elim (Bool-cases (is_empty m.buf)) [
  | inl e ↦ (_, _, _, c_waits e)
  | inr e ↦ (_, _, _, c_goes_on e)
]
consumer_moves m p c_load h = (_, _, _, loads)
consumer_moves m p (c_signal x) h = (_, _, _, c_signals)
consumer_moves m p (c_unlock x) h = (_, _, _, c_unlocks)
consumer_moves m p c_lock h = absurd (cc)
consumer_moves m p c_wait h = absurd (cc)
consumer_moves m p c_woken h = absurd (cc)
consumer_moves m p (c_use x) h = absurd (cc)

-- While the mutex is free, not both threads wait: the ring is not both full and empty.
free_moves : (m : Shared) (p : Producer) (c : Consumer) → m.owner ≡ none → Inv m p c → CanMove m p c
free_moves m p_make c e i = (_, _, _, makes 0)
free_moves m (p_lock x) c e i = (_, _, _, p_locks e)
free_moves m (p_woken x) c e i = (_, _, _, p_relocks e)
free_moves m p c_lock e i = (_, _, _, c_locks e)
free_moves m p c_woken e i = (_, _, _, c_relocks e)
free_moves m p (c_use x) e i = (_, _, _, uses)
free_moves m p c e i = absurd (ground arith)

owner_cases : (o : Option Side) → (o ≡ none) ⊎ ((o ≡ some producer) ⊎ (o ≡ some consumer))
owner_cases none = inl refl
owner_cases (some producer) = inr (inl refl)
owner_cases (some consumer) = inr (inr refl)

-- Some thread can go on without a wake-up from outside.
step_from : (s : State) → StateInv s → (t : State) × Step s t
step_from s i = elim (owner_cases s.mem.owner) [
  | inl e ↦ (let (_, _, _, mv) = free_moves s.mem s.p s.c e i in (_, moves mv))
  | inr (inl e) ↦ (let (_, _, _, mv) = producer_moves s.mem s.p s.c (i.p_owns e) in (_, moves mv))
  | inr (inr e) ↦ (let (_, _, _, mv) = consumer_moves s.mem s.p s.c (i.c_owns e) in (_, moves mv))
]

abbrev state_distance : State → ℕ
state_distance s = distance s.mem s.p s.c

abbrev state_moved : State → ℕ
state_moved s = moved s.mem

Step-distance :
    (s t : State)
    → Step s t
    → StateInv s
    → (state_distance t + 1 ≤ state_distance s) × (state_moved t ≡ state_moved s)
      ⊎ (state_moved t ≡ state_moved s + 1)
Step-distance s t (moves mv) i = Move-distance mv i

progress : Progress Step
progress = record {
  Inv = StateInv;
  keeps = λ s t st i. Step-Inv st i;
  distance = state_distance;
  counted = state_moved;
  nearer = Step-distance;
  goes_on = step_from;
}

state_distance_le : (s : State) → state_distance s ≤ 14
state_distance_le s = ground arith

-- There are runs of every length.
pub run_from : (n : ℕ) (s : State) → Reach s → (t : State) × Run Step s n t
unfolding progress
run_from n s r = run_for progress n s (Reach-Inv r).0

-- A run from a reachable state of more than 14 steps without spurious wake-ups puts an item in or takes one
-- out, and can be continued: the two threads never block each other for good, whatever the scheduler does.
pub moves_again :
    {s t : State} (n : ℕ)
    → Reach s
    → Run Step s n t
    → 14 < n
    → (moved s.mem < moved t.mem) × ((u : State) × Step t u)
unfolding progress
moves_again {s} {t} n r run long =
    let (i, _) = Reach-Inv r in
    (
      Run-counts progress run i (omega (arith, state_distance_le s)),
      step_from t (Run-keeps progress run i),
    )

-- In every interleaving the items that were taken out are the first ones that were put in, the rest are in
-- the ring in order, and the ring holds 20 at most.
pub items_in_order :
    {s : State}
    → Reach s
    → (s.mem.inserted ≡ s.mem.removed ++ contents s.mem.buf) × (s.mem.buf.totalitems ≤ buffer_size)
items_in_order r = let (i, h) = Reach-Inv r in (h.in_order, i.few)
