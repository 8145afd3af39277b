-- ===== src/BoundedBuffer.antt =====
-- lab3/3/boundedbuffer.c: a ring of 20 items behind a mutex, with producers and consumers. This file is
-- the ring; Queue shows it to be a queue, and Threads models the program around it.
mod Tests
pub mod Queue
pub mod Threads
use open_source_project.Prelude.{
  ℕ, zero, suc, ◌+◌, ◌-◌, ◌*◌, ◌/◌, ◌%◌, ◌^◌, ◌≤◌, ◌<◌, ◌≡◌, ◌≢◌, ◌↔◌, ◌⊎◌, inl, inr, refl, sym, ap,
  ◌∙◌, Bool, true, false, ◌&&◌, ◌||◌, not, Option, none, some, List, [], ◌∷◌, ◌++◌, map,
  append_assoc, append-nil, arith, dec_lt, ℕ_discrete, ltb, leb, ◌==◌, ==_iff, if◌then◌else◌,
  Bool-cases, Option-cases, length, get_elem?, get_or, set, take, drop, replicate, length-append,
  length-set, get_or-set_self, get_or-set_ne, get_elem?-set_self, get_elem?-set_ne, keep, words,
  words_from, is_space, IsWord, words-append_blank, words_last, All, All-append, Bytes, codes,
  str_eq, str_eq_iff, str_eq_sound, str_eq_refl, starts_with, cstr, NoNul, cstr-append_nul,
  cstr_of_NoNul,
}

abbrev pub buffer_size : ℕ
buffer_size = 20

-- `buffer_t` without its mutex and conditions. An item is only moved, so it is any number.
pub record Buffer : Type 0 where
  pub item : List ℕ
  pub totalitems : ℕ
  pub next_in : ℕ
  pub next_out : ℕ

-- `bb`
unfoldable pub bb : Buffer
bb = record { item = replicate buffer_size 0; totalitems = 0; next_in = 0; next_out = 0 }

-- The tests of the two `while` loops.
abbrev pub is_full : Buffer → Bool
is_full b = leb buffer_size b.totalitems

abbrev pub is_empty : Buffer → Bool
is_empty b = leb b.totalitems 0

-- `insert_item` behind its loop, up to `pthread_cond_signal`.
unfoldable pub put : Buffer → ℕ → Buffer
put b x = record {
  item = set b.item b.next_in x;
  totalitems = b.totalitems + 1;
  next_in = (b.next_in + 1) % buffer_size;
  next_out = b.next_out;
}

-- `remove_item` behind its loop, up to `pthread_cond_signal`: the item and the new buffer.
unfoldable pub take_out : Buffer → ℕ × Buffer
take_out b = (
  get_or b.item b.next_out 0,
  record b { next_out = (b.next_out + 1) % buffer_size; totalitems = b.totalitems - 1 },
)
