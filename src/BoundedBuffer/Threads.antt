-- ===== src/BoundedBuffer/Threads.antt =====
-- lab3/3/boundedbuffer.c: producers and consumers, one access or pthread call at a time, in any order.
pub mod Safety
use open_source_project.Prelude.{
  ℕ, zero, suc, ◌+◌, ◌-◌, ◌*◌, ◌/◌, ◌%◌, ◌^◌, ◌≤◌, ◌<◌, ◌≡◌, ◌≢◌, ◌↔◌, ◌⊎◌, inl, inr, refl, sym, ap,
  ◌∙◌, Bool, true, false, ◌&&◌, ◌||◌, not, Option, none, some, List, [], ◌∷◌, ◌++◌, map,
  append_assoc, append-nil, arith, dec_lt, ℕ_discrete, ltb, leb, ◌==◌, ==_iff, if◌then◌else◌,
  Bool-cases, Option-cases, length, get_elem?, get_or, set, take, drop, replicate, length-append,
  length-set, get_or-set_self, get_or-set_ne, get_elem?-set_self, get_elem?-set_ne, keep, words,
  words_from, is_space, IsWord, words-append_blank, words_last, All, All-append, Bytes, codes,
  str_eq, str_eq_iff, str_eq_sound, str_eq_refl, starts_with, cstr, NoNul, cstr-append_nul,
  cstr_of_NoNul,
}
use open_source_project.BoundedBuffer.{Buffer, bb, is_full, is_empty, put, take_out}

-- The mutex (the thread that holds it), the ring, and a history of what was put in and taken out, newest
-- last, which the program does not keep.
pub record Shared : Type 0 where
  pub owner : Option ℕ
  pub buf : Buffer
  pub inserted : List ℕ
  pub removed : List ℕ

-- Where a thread stands, with the item that it carries. A producer:
pub data Pc : Type 0 where
  produce : Pc  -- `produce_item`
  p_lock : ℕ → Pc  -- `pthread_mutex_lock` of `insert_item`
  p_test : ℕ → Pc  -- the test of its loop
  p_wait : ℕ → Pc  -- inside `pthread_cond_wait(&bb.empty, ...)`, without the mutex
  p_store : ℕ → Pc  -- behind the loop
  p_signal : Pc  -- `pthread_cond_signal(&bb.full)`
  p_unlock : Pc
  -- A consumer:
  c_lock : Pc  -- `pthread_mutex_lock` of `remove_item`
  c_test : Pc
  c_wait : Pc
  c_load : Pc
  c_signal : ℕ → Pc
  c_unlock : ℕ → Pc
  c_abort : Pc  -- `remove_item` gives up without an item
  consume : Pc  -- `consume_item`

-- One step of thread `i`. A pthread call may fail; a failed wait comes back with the mutex and leads to
-- the unlock. A wait may come back at any time, so the steps cover a wait that a signal ends, and every
-- other one. A consumer that got no item consumes what stands in its variable: it goes to `consume`.
pub data Move (i : ℕ) (m : Shared) : Pc → Shared → Pc → Type 0 where
  made : (x : ℕ) → Move i m produce m (p_lock x)
  p_lock_ok :
      {x : ℕ} → m.owner ≡ none → Move i m (p_lock x) (record m { owner = some i }) (p_test x)
  p_lock_fails : {x : ℕ} → Move i m (p_lock x) m produce
  p_full :
      {x : ℕ} → is_full m.buf ≡ true → Move i m (p_test x) (record m { owner = none }) (p_wait x)
  p_wait_fails : {x : ℕ} → is_full m.buf ≡ true → Move i m (p_test x) m p_unlock
  p_woken : {x : ℕ} → m.owner ≡ none → Move i m (p_wait x) (record m { owner = some i }) (p_test x)
  p_room : {x : ℕ} → is_full m.buf ≡ false → Move i m (p_test x) m (p_store x)
  store :
      {x : ℕ}
      → Move i m
          (p_store x)
          (record m { buf = put m.buf x; inserted = m.inserted ++ (x ∷ []) })
          p_signal
  p_signals : Move i m p_signal m p_unlock
  p_unlocks : Move i m p_unlock (record m { owner = none }) produce
  c_lock_ok : m.owner ≡ none → Move i m c_lock (record m { owner = some i }) c_test
  c_lock_fails : Move i m c_lock m consume
  c_empty : is_empty m.buf ≡ true → Move i m c_test (record m { owner = none }) c_wait
  c_wait_fails : is_empty m.buf ≡ true → Move i m c_test m c_abort
  c_woken : m.owner ≡ none → Move i m c_wait (record m { owner = some i }) c_test
  c_some : is_empty m.buf ≡ false → Move i m c_test m c_load
  load :
      Move i m c_load
        (record m { buf = (take_out m.buf).1; removed = m.removed ++ ((take_out m.buf).0 ∷ []) })
        (c_signal (take_out m.buf).0)
  c_signals : {x : ℕ} → Move i m (c_signal x) m (c_unlock x)
  c_unlocks : {x : ℕ} → Move i m (c_unlock x) (record m { owner = none }) consume
  c_gives_up : Move i m c_abort (record m { owner = none }) consume
  consumed : Move i m consume m c_lock

pub record System : Type 0 where
  pub mem : Shared
  pub pc : ℕ → Pc

abbrev pub at : (ℕ → Pc) → ℕ → Pc → ℕ → Pc
at pc i p j = if i == j then p else pc j

-- Any number of threads, at any of which the system goes on.
pub data Step (s : System) : System → Type 0 where
  pick :
      (i : ℕ) {m : Shared} {p : Pc}
      → Move i s.mem (s.pc i) m p
      → Step s (record { mem = m; pc = at s.pc i p })

-- `main`, with `producers` producers and any number of consumers behind them.
unfoldable pub start_state : ℕ → System
start_state producers = record {
  mem = record { owner = none; buf = bb; inserted = []; removed = [] };
  pc = λ i. if ltb i producers then produce else c_lock;
}

pub data Reach (producers : ℕ) : System → Type 0 where
  start : Reach producers (start_state producers)
  later : {s t : System} → Reach producers s → Step s t → Reach producers t

-- Between the return of `pthread_mutex_lock` or `pthread_cond_wait` and the next unlock or wait.
abbrev pub critical : Pc → Bool
critical (p_test _) = true
critical (p_store _) = true
critical p_signal = true
critical p_unlock = true
critical c_test = true
critical c_load = true
critical (c_signal _) = true
critical (c_unlock _) = true
critical c_abort = true
critical _ = false
