-- ===== src/TurnTaking.antt =====
-- lab3/4/hellothread.c: two threads that greet in turn, one statement at a time. The mutex and the
-- condition variable are those of POSIX with the default attributes, whose calls do not fail here; a
-- wait may end without a signal.
mod Tests
pub mod Order
pub mod Progress
use open_source_project.Prelude.{
  ℕ, zero, suc, ◌+◌, ◌-◌, ◌*◌, ◌/◌, ◌%◌, ◌^◌, ◌≤◌, ◌<◌, ◌≡◌, ◌≢◌, ◌↔◌, ◌⊎◌, inl, inr, refl, sym, ap,
  ◌∙◌, Bool, true, false, ◌&&◌, ◌||◌, not, Option, none, some, List, [], ◌∷◌, ◌++◌, map,
  append_assoc, append-nil, arith, dec_lt, ℕ_discrete, ltb, leb, ◌==◌, ==_iff, if◌then◌else◌,
  Bool-cases, Option-cases, length, get_elem?, get_or, set, take, drop, replicate, length-append,
  length-set, get_or-set_self, get_or-set_ne, get_elem?-set_self, get_elem?-set_ne, keep, words,
  words_from, is_space, IsWord, words-append_blank, words_last, All, All-append, Bytes, codes,
  str_eq, str_eq_iff, str_eq_sound, str_eq_refl, starts_with, cstr, NoNul, cstr-append_nul,
  cstr_of_NoNul,
}

-- The values of `turn`: 1 and 0.
pub data Who : Type 0 where
  child : Who
  parent : Who

abbrev pub other : Who → Who
other child = parent
other parent = child

-- A thread is about to run this statement of its loop. In `woken` a wait has ended, and the thread
-- takes the mutex again.
pub data Pc : Type 0 where
  lock : Pc
  test : Pc
  wait : Pc
  woken : Pc
  print : Pc
  pass : Pc
  signal : Pc
  unlock : Pc

-- The mutex, `turn`, and the greetings, newest first, which the program does not keep.
pub record Shared : Type 0 where
  pub owner : Option Who
  pub turn : Who
  pub greeted : List Who

-- `pthread_cond_signal`: the other thread is woken if it waits.
abbrev pub wake : Pc → Pc
wake wait = woken
wake q = q

-- A step of thread `t` at `p`, with the other one at `q`.
pub data Move (t : Who) (m : Shared) : Pc → Pc → Shared → Pc → Pc → Type 0 where
  locks : {q : Pc} → m.owner ≡ none → Move t m lock q (record m { owner = some t }) test q
  goes_on : {q : Pc} → m.turn ≡ t → Move t m test q m print q
  waits : {q : Pc} → m.turn ≡ other t → Move t m test q (record m { owner = none }) wait q
  relocks : {q : Pc} → m.owner ≡ none → Move t m woken q (record m { owner = some t }) test q
  prints : {q : Pc} → Move t m print q (record m { greeted = t ∷ m.greeted }) pass q
  passes : {q : Pc} → Move t m pass q (record m { turn = other t }) signal q
  signals : {q : Pc} → Move t m signal q m unlock (wake q)
  unlocks : {q : Pc} → Move t m unlock q (record m { owner = none }) lock q

pub record State : Type 0 where
  pub mem : Shared
  pub child_pc : Pc
  pub parent_pc : Pc

abbrev pub start_state : State
start_state = record {
  mem = record { owner = none; turn = child; greeted = [] };
  child_pc = lock;
  parent_pc = lock;
}

-- A step of either thread.
pub data Step (s : State) : State → Type 0 where
  child_moves :
      {m : Shared} {p q : Pc}
      → Move child s.mem s.child_pc s.parent_pc m p q
      → Step s (record { mem = m; child_pc = p; parent_pc = q })
  parent_moves :
      {m : Shared} {p q : Pc}
      → Move parent s.mem s.parent_pc s.child_pc m p q
      → Step s (record { mem = m; child_pc = q; parent_pc = p })

-- A wait that ends without a signal.
pub data Spurious (s : State) : State → Type 0 where
  wakes_child : s.child_pc ≡ wait → Spurious s (record s { child_pc = woken })
  wakes_parent : s.parent_pc ≡ wait → Spurious s (record s { parent_pc = woken })

pub data Reach : State → Type 0 where
  start : Reach start_state
  later : {s t : State} → Reach s → Step s t → Reach t
  spurious : {s t : State} → Reach s → Spurious s t → Reach t
