-- ===== src/SharedCounter.antt =====
-- lab2/memorymapfile.c: a writer counts in a shared page and a reader prints what it sees. Both use the
-- descriptor that `fork` copied, thus one lock: `flock` then never waits, it changes the lock's mode.
mod Tests
pub mod Observed
use open_source_project.Prelude.{ℕ, ◌+◌, ◌-◌, ◌^◌, ◌≤◌, ◌<◌, ◌≡◌, List, [], ◌∷◌}
use open_source_project.Prelude.{◌≢◌}

pub data Lock : Type 0 where
  unlocked : Lock
  lock_sh : Lock
  lock_ex : Lock

-- The parent, before each statement, with `i`.
pub data Writer : Type 0 where
  w_clear : Writer
  w_test : ℕ → Writer
  w_lock : ℕ → Writer
  w_store : ℕ → Writer
  w_unlock : ℕ → Writer
  w_done : Writer

-- The child, with `v`.
pub data Reader : Type 0 where
  r_lock : Reader
  r_load : Reader
  r_unlock : ℕ → Reader
  r_test : ℕ → Reader
  r_done : Reader

-- `last` is the child's, and `seen` what it printed, the newest first.
pub record State : Type 0 where
  pub counter : ℕ
  pub lock : Lock
  pub writer : Writer
  pub reader : Reader
  pub last : ℕ
  pub seen : List ℕ

-- A page of zeros.
abbrev pub start_state : State
start_state = record {
  counter = 0;
  lock = unlocked;
  writer = w_clear;
  reader = r_lock;
  last = 2 ^ 64 - 1;
  seen = [];
}

pub data Step (s : State) : State → Type 0 where
  clear : s.writer ≡ w_clear → Step s (record s { counter = 0; writer = w_test 0 })
  count : (i : ℕ) → s.writer ≡ w_test i → i ≤ 50 → Step s (record s { writer = w_lock i })
  stop : (i : ℕ) → s.writer ≡ w_test i → 50 < i → Step s (record s { writer = w_done })
  w_locked :
      (i : ℕ) → s.writer ≡ w_lock i → Step s (record s { lock = lock_ex; writer = w_store i })
  stored : (i : ℕ) → s.writer ≡ w_store i → Step s (record s { counter = i; writer = w_unlock i })
  w_unlocked :
      (i : ℕ)
      → s.writer ≡ w_unlock i
      → Step s (record s { lock = unlocked; writer = w_test (i + 1) })
  r_locked : s.reader ≡ r_lock → Step s (record s { lock = lock_sh; reader = r_load })
  loaded : s.reader ≡ r_load → Step s (record s { reader = r_unlock s.counter })
  r_unlocked :
      (v : ℕ) → s.reader ≡ r_unlock v → Step s (record s { lock = unlocked; reader = r_test v })
  seen_before : (v : ℕ) → s.reader ≡ r_test v → v ≡ s.last → Step s (record s { reader = r_lock })
  observed :
      (v : ℕ)
      → s.reader ≡ r_test v
      → v ≢ s.last
      → v < 50
      → Step s (record s { last = v; seen = v ∷ s.seen; reader = r_lock })
  finished :
      (v : ℕ)
      → s.reader ≡ r_test v
      → v ≢ s.last
      → 50 ≤ v
      → Step s (record s { last = v; seen = v ∷ s.seen; reader = r_done })

pub data Reach : State → Type 0 where
  start : Reach start_state
  later : {s t : State} → Reach s → Step s t → Reach t
