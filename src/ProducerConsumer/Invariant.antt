-- ===== src/ProducerConsumer/Invariant.antt =====
-- lab3/2/boundedbuffer.c: what holds in every state that the two threads can reach.
use mathlib.Core.Path.{subst}
use open_source_project.Prelude.{
  ℕ, ◌≤◌, ◌<◌, ◌≡◌, ◌⊎◌, refl, sym, ap, ◌∙◌, Bool, true, false, some, [], ◌∷◌, ◌++◌, append_assoc,
  arith,
}
use open_source_project.BoundedBuffer.{buffer_size, bb, put, take_out}
use open_source_project.BoundedBuffer.Queue.{contents, IsValid, put_lem, take_out_lem, bb-IsValid}
use open_source_project.ProducerConsumer.{
  producer, consumer, Shared, Producer, p_make, p_lock, p_test, p_wait, p_woken, p_store, p_signal,
  p_unlock, Consumer, c_lock, c_test, c_wait, c_woken, c_load, c_signal, c_unlock, c_use, State,
  Move, makes, p_locks, p_waits, p_relocks, p_goes_on, stores, p_signals, p_unlocks, c_locks,
  c_waits, c_relocks, c_goes_on, loads, c_signals, c_unlocks, uses, Step, moves, wakes_p, wakes_c,
  Reach, start, later, spurious,
}

abbrev pub p_critical : Producer → Bool
p_critical p_make = false
p_critical (p_lock x) = false
p_critical (p_wait x) = false
p_critical (p_woken x) = false
p_critical _ = true

abbrev pub c_critical : Consumer → Bool
c_critical c_lock = false
c_critical c_wait = false
c_critical c_woken = false
c_critical (c_use x) = false
c_critical _ = true

abbrev pub is_p_signal : Producer → Bool
is_p_signal p_signal = true
is_p_signal _ = false

abbrev pub is_c_signal : Consumer → Bool
is_c_signal (c_signal x) = true
is_c_signal _ = false

-- What the producer knows: a wait is for room, or its signal is about to come.
abbrev pub ProducerKnows : Shared → Producer → Consumer → Type 0
ProducerKnows m p_make c = Unit
ProducerKnows m (p_lock x) c = Unit
ProducerKnows m (p_woken x) c = Unit
ProducerKnows m (p_test x) c = m.owner ≡ some producer
ProducerKnows m (p_wait x) c = (buffer_size ≤ m.buf.totalitems) ⊎ (is_c_signal c ≡ true)
ProducerKnows m (p_store x) c = (m.owner ≡ some producer) × (m.buf.totalitems < buffer_size)
ProducerKnows m p_signal c = (m.owner ≡ some producer) × (0 < m.buf.totalitems)
ProducerKnows m p_unlock c = m.owner ≡ some producer

-- What the consumer knows: a wait is for an item, or its signal is about to come.
abbrev pub ConsumerKnows : Shared → Producer → Consumer → Type 0
ConsumerKnows m p c_lock = Unit
ConsumerKnows m p c_woken = Unit
ConsumerKnows m p (c_use x) = Unit
ConsumerKnows m p c_test = m.owner ≡ some consumer
ConsumerKnows m p c_wait = (m.buf.totalitems ≡ 0) ⊎ (is_p_signal p ≡ true)
ConsumerKnows m p c_load = (m.owner ≡ some consumer) × (0 < m.buf.totalitems)
ConsumerKnows m p (c_signal x) = (m.owner ≡ some consumer) × (m.buf.totalitems < buffer_size)
ConsumerKnows m p (c_unlock x) = m.owner ≡ some consumer

pub record Inv (m : Shared) (p : Producer) (c : Consumer) : Type 0 where
  pub p_knows : ProducerKnows m p c
  pub c_knows : ConsumerKnows m p c
  pub p_owns : m.owner ≡ some producer → p_critical p ≡ true
  pub c_owns : m.owner ≡ some consumer → c_critical c ≡ true
  pub few : m.buf.totalitems ≤ buffer_size

Move-Inv :
    {m m' : Shared} {p p' : Producer} {c c' : Consumer}
    → Move m p c m' p' c'
    → Inv m p c
    → Inv m' p' c'
unfolding put take_out
Move-Inv {m} (makes {c} x) i = ground (arith, i.p_owns, i.c_owns)
Move-Inv {m} (p_locks {c} {x} e) i = ground (arith, i.p_owns, i.c_owns)
Move-Inv {m} (p_waits {c} {x} e) i = ground (arith, i.p_owns, i.c_owns)
Move-Inv {m} (p_relocks {c} {x} e) i = ground (arith, i.p_owns, i.c_owns)
Move-Inv {m} (p_goes_on {c} {x} e) i = ground (arith, i.p_owns, i.c_owns)
Move-Inv {m} (stores {c} {x}) i = ground (arith, i.p_owns, i.c_owns)
Move-Inv {m} (p_signals {c}) i = ground (arith, i.p_owns, i.c_owns)
Move-Inv {m} (p_unlocks {c}) i = ground (arith, i.p_owns, i.c_owns)
Move-Inv {m} (c_locks {p} e) i = ground (arith, i.p_owns, i.c_owns)
Move-Inv {m} (c_waits {p} e) i = ground (arith, i.p_owns, i.c_owns)
Move-Inv {m} (c_relocks {p} e) i = ground (arith, i.p_owns, i.c_owns)
Move-Inv {m} (c_goes_on {p} e) i = ground (arith, i.p_owns, i.c_owns)
Move-Inv {m} (loads {p}) i = ground (arith, i.p_owns, i.c_owns)
Move-Inv {m} (c_signals {p} {x}) i = ground (arith, i.p_owns, i.c_owns)
Move-Inv {m} (c_unlocks {p} {x}) i = ground (arith, i.p_owns, i.c_owns)
Move-Inv {m} (uses {p} {x}) i = ground (arith, i.p_owns, i.c_owns)

-- The ring is valid, and holds what was put in and not taken out.
pub record History (m : Shared) : Type 0 where
  pub valid : IsValid m.buf
  pub in_order : m.inserted ≡ m.removed ++ contents m.buf

Move-History :
    {m m' : Shared} {p p' : Producer} {c c' : Consumer}
    → Move m p c m' p' c'
    → Inv m p c
    → History m
    → History m'
Move-History {m} (stores {c} {x}) i h =
    let (grown, _, valid) = put_lem m.buf x h.valid i.p_knows.1 in
    record {
      valid = valid;
      in_order = rw (grown, h.in_order) (append_assoc m.removed (contents m.buf) (x ∷ []));
    }
Move-History {m} (loads {p}) i h =
    let (first, _, valid) = take_out_lem m.buf h.valid i.c_knows.1 in
    record {
      valid = valid;
      in_order =
          h.in_order
          ∙ ap (λ t. m.removed ++ t) first
          ∙ sym (append_assoc m.removed ((take_out m.buf).0 ∷ []) (contents (take_out m.buf).1));
    }
Move-History (makes x) i h = record { valid = h.valid; in_order = h.in_order }
Move-History (p_locks e) i h = record { valid = h.valid; in_order = h.in_order }
Move-History (p_waits e) i h = record { valid = h.valid; in_order = h.in_order }
Move-History (p_relocks e) i h = record { valid = h.valid; in_order = h.in_order }
Move-History (p_goes_on e) i h = h
Move-History p_signals i h = h
Move-History p_unlocks i h = record { valid = h.valid; in_order = h.in_order }
Move-History (c_locks e) i h = record { valid = h.valid; in_order = h.in_order }
Move-History (c_waits e) i h = record { valid = h.valid; in_order = h.in_order }
Move-History (c_relocks e) i h = record { valid = h.valid; in_order = h.in_order }
Move-History (c_goes_on e) i h = h
Move-History c_signals i h = h
Move-History c_unlocks i h = record { valid = h.valid; in_order = h.in_order }
Move-History uses i h = h

abbrev pub StateInv : State → Type 0
StateInv s = Inv s.mem s.p s.c

pub Step-Inv : {s t : State} → Step s t → StateInv s → StateInv t
Step-Inv (moves mv) i = Move-Inv mv i

p_woken-Inv : {m : Shared} {c : Consumer} (x : ℕ) → Inv m (p_wait x) c → Inv m (p_woken x) c
p_woken-Inv {m} {c} x i = ground (arith, i.p_owns, i.c_owns)

c_woken-Inv : {m : Shared} {p : Producer} → Inv m p c_wait → Inv m p c_woken
c_woken-Inv {m} {p} i = ground (arith, i.p_owns, i.c_owns)

pub Reach-Inv : {s : State} → Reach s → StateInv s × History s.mem
unfolding bb
Reach-Inv start = (
  record {
    p_knows = tt;
    c_knows = tt;
    p_owns = λ e. absurd (cc);
    c_owns = λ e. absurd (cc);
    few = omega arith;
  },
  record { valid = bb-IsValid; in_order = refl },
)
Reach-Inv (later r (moves mv)) = let (i, h) = Reach-Inv r in (Move-Inv mv i, Move-History mv i h)
Reach-Inv (spurious {s} r (wakes_p {x} e)) =
    let (i, h) = Reach-Inv r in (p_woken-Inv x (subst (λ p. Inv s.mem p s.c) e i), h)
Reach-Inv (spurious {s} r (wakes_c e)) =
    let (i, h) = Reach-Inv r in (c_woken-Inv (subst (λ c. Inv s.mem s.p c) e i), h)
