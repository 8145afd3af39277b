-- ===== src/ProducerConsumer.antt =====
-- lab3/2/boundedbuffer.c: one producer and one consumer around the ring of BoundedBuffer, whose text is
-- the same in both programs. The calls of pthread do not fail here, and a signal wakes the thread that
-- waits; a wait may end without one. One access or call is one step.
mod Tests
pub mod Invariant
pub mod Progress
use open_source_project.Prelude.{
  ℕ, zero, suc, ◌+◌, ◌-◌, ◌*◌, ◌/◌, ◌%◌, ◌^◌, ◌≤◌, ◌<◌, ◌≡◌, ◌≢◌, ◌↔◌, ◌⊎◌, inl, inr, refl, sym, ap,
  ◌∙◌, Bool, true, false, ◌&&◌, ◌||◌, not, Option, none, some, List, [], ◌∷◌, ◌++◌, map,
  append_assoc, append-nil, arith, dec_lt, ℕ_discrete, ltb, leb, ◌==◌, ==_iff, if◌then◌else◌,
  Bool-cases, Option-cases, length, get_elem?, get_or, set, take, drop, replicate, length-append,
  length-set, get_or-set_self, get_or-set_ne, get_elem?-set_self, get_elem?-set_ne, keep, words,
  words_from, is_space, IsWord, words-append_blank, words_last, All, All-append, Bytes, codes,
  str_eq, str_eq_iff, str_eq_sound, str_eq_refl, starts_with, cstr, NoNul, cstr-append_nul,
  cstr_of_NoNul,
}
use open_source_project.BoundedBuffer.{Buffer, bb, is_full, is_empty, put, take_out}

-- Who holds the mutex.
pub data Side : Type 0 where
  producer : Side
  consumer : Side

-- The mutex, the ring, and what was put in and taken out, newest last, which the program does not keep.
pub record Shared : Type 0 where
  pub owner : Option Side
  pub buf : Buffer
  pub inserted : List ℕ
  pub removed : List ℕ

-- The statement that the producer is about to run, with its item: `produce_item`, and in `insert_item` the
-- lock, the test of the loop, the wait, its end, the store, the signal and the unlock.
pub data Producer : Type 0 where
  p_make : Producer
  p_lock : ℕ → Producer
  p_test : ℕ → Producer
  p_wait : ℕ → Producer
  p_woken : ℕ → Producer
  p_store : ℕ → Producer
  p_signal : Producer
  p_unlock : Producer

-- The same for the consumer, in `remove_item` and at `consume_item`.
pub data Consumer : Type 0 where
  c_lock : Consumer
  c_test : Consumer
  c_wait : Consumer
  c_woken : Consumer
  c_load : Consumer
  c_signal : ℕ → Consumer
  c_unlock : ℕ → Consumer
  c_use : ℕ → Consumer

-- `pthread_cond_signal(&bb.full)` and `pthread_cond_signal(&bb.empty)`
abbrev pub wake_consumer : Consumer → Consumer
wake_consumer c_wait = c_woken
wake_consumer c = c

abbrev pub wake_producer : Producer → Producer
wake_producer (p_wait x) = p_woken x
wake_producer p = p

pub record State : Type 0 where
  pub mem : Shared
  pub p : Producer
  pub c : Consumer

abbrev pub start_state : State
start_state = record {
  mem = record { owner = none; buf = bb; inserted = []; removed = [] };
  p = p_make;
  c = c_lock;
}

-- A step, from the shared data, the producer and the consumer to these.
pub data Move (m : Shared) : Producer → Consumer → Shared → Producer → Consumer → Type 0 where
  makes : {c : Consumer} → (x : ℕ) → Move m p_make c m (p_lock x) c
  p_locks :
      {c : Consumer} {x : ℕ}
      → m.owner ≡ none
      → Move m (p_lock x) c (record m { owner = some producer }) (p_test x) c
  p_waits :
      {c : Consumer} {x : ℕ}
      → is_full m.buf ≡ true
      → Move m (p_test x) c (record m { owner = none }) (p_wait x) c
  p_relocks :
      {c : Consumer} {x : ℕ}
      → m.owner ≡ none
      → Move m (p_woken x) c (record m { owner = some producer }) (p_test x) c
  p_goes_on : {c : Consumer} {x : ℕ} → is_full m.buf ≡ false → Move m (p_test x) c m (p_store x) c
  stores :
      {c : Consumer} {x : ℕ}
      → Move m
          (p_store x)
          c
          (record m { buf = put m.buf x; inserted = m.inserted ++ (x ∷ []) })
          p_signal
          c
  p_signals : {c : Consumer} → Move m p_signal c m p_unlock (wake_consumer c)
  p_unlocks : {c : Consumer} → Move m p_unlock c (record m { owner = none }) p_make c
  c_locks :
      {p : Producer}
      → m.owner ≡ none
      → Move m p c_lock (record m { owner = some consumer }) p c_test
  c_waits :
      {p : Producer} → is_empty m.buf ≡ true → Move m p c_test (record m { owner = none }) p c_wait
  c_relocks :
      {p : Producer}
      → m.owner ≡ none
      → Move m p c_woken (record m { owner = some consumer }) p c_test
  c_goes_on : {p : Producer} → is_empty m.buf ≡ false → Move m p c_test m p c_load
  loads :
      {p : Producer}
      → Move m p c_load
          (record m { buf = (take_out m.buf).1; removed = m.removed ++ ((take_out m.buf).0 ∷ []) })
          p
          (c_signal (take_out m.buf).0)
  c_signals : {p : Producer} {x : ℕ} → Move m p (c_signal x) m (wake_producer p) (c_unlock x)
  c_unlocks : {p : Producer} {x : ℕ} → Move m p (c_unlock x) (record m { owner = none }) p (c_use x)
  uses : {p : Producer} {x : ℕ} → Move m p (c_use x) m p c_lock

pub data Step (s : State) : State → Type 0 where
  moves :
      {m : Shared} {p : Producer} {c : Consumer}
      → Move s.mem s.p s.c m p c
      → Step s (record { mem = m; p = p; c = c })

-- A wait that ends without a signal.
pub data Spurious (s : State) : State → Type 0 where
  wakes_p : {x : ℕ} → s.p ≡ p_wait x → Spurious s (record s { p = p_woken x })
  wakes_c : s.c ≡ c_wait → Spurious s (record s { c = c_woken })

pub data Reach : State → Type 0 where
  start : Reach start_state
  later : {s t : State} → Reach s → Step s t → Reach t
  spurious : {s t : State} → Reach s → Spurious s t → Reach t
