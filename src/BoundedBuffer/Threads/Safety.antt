-- ===== src/BoundedBuffer/Threads/Safety.antt =====
-- lab3/3/boundedbuffer.c: what holds in every state that the threads can reach.
use open_source_project.Prelude.{
  ℕ, ◌≤◌, ◌<◌, ◌≡◌, refl, sym, ap, ◌∙◌, true, false, none, some, [], ◌∷◌, ◌++◌, append_assoc, arith,
  length,
}
use open_source_project.BoundedBuffer.{buffer_size, Buffer, bb, is_full, is_empty, put, take_out}
use open_source_project.BoundedBuffer.Queue.{contents, IsValid, put_lem, take_out_lem, bb-IsValid}
use open_source_project.BoundedBuffer.Threads.{
  Shared, Pc, p_store, c_load, Move, made, p_lock_ok, p_woken, p_room, store, c_lock_ok, c_woken,
  c_some, load, System, at, Step, pick, start_state, Reach, start, later, critical,
}

-- What a thread that has passed the test of its loop relies on.
abbrev pub Ready : Buffer → Pc → Type 0
Ready b (p_store _) = b.totalitems < buffer_size
Ready b c_load = 0 < b.totalitems
Ready b _ = Unit

pub record Inv (m : Shared) (pc : ℕ → Pc) : Type 0 where
  pub valid : IsValid m.buf
  pub held : (j : ℕ) → critical (pc j) ≡ true → m.owner ≡ some j
  pub ready : (j : ℕ) → Ready m.buf (pc j)
  pub history : m.inserted ≡ m.removed ++ contents m.buf

-- What a move is allowed by.
abbrev Premise : {i : ℕ} {m m' : Shared} {p p' : Pc} → Move i m p m' p' → Type 0
Premise {m} (p_lock_ok _) = m.owner ≡ none
Premise {m} (p_woken _) = m.owner ≡ none
Premise {m} (c_lock_ok _) = m.owner ≡ none
Premise {m} (c_woken _) = m.owner ≡ none
Premise {m} (p_room _) = is_full m.buf ≡ false
Premise {m} (c_some _) = is_empty m.buf ≡ false
Premise _ = Unit

premise : {i : ℕ} {m m' : Shared} {p p' : Pc} (mv : Move i m p m' p') → Premise mv
premise (p_lock_ok h) = h
premise (p_woken h) = h
premise (c_lock_ok h) = h
premise (c_woken h) = h
premise (p_room h) = h
premise (c_some h) = h
premise _ = tt

module _ {i : ℕ} {m : Shared} {pc : ℕ → Pc} (inv : Inv m pc) where
  -- Only the thread that moves can take the mutex or give it up.
  Move-held :
      {m' : Shared} {p p' : Pc}
      → Move i m p m' p'
      → pc i ≡ p
      → (j : ℕ) → critical (at pc i p' j) ≡ true
      → m'.owner ≡ some j
  Move-held (made x) e j = ground (arith, inv.held j, inv.held i)
  Move-held mv e j = ground (arith, premise mv, inv.held j, inv.held i)

  -- What the other threads rely on is left alone: a thread that changes the ring holds the mutex.
  Move-Ready :
      {m' : Shared} {p p' : Pc}
      → Move i m p m' p'
      → pc i ≡ p
      → (j : ℕ) → Ready m'.buf (at pc i p' j)
  unfolding put take_out
  Move-Ready (made x) e j = ground (arith, inv.ready j)
  Move-Ready mv e j = ground (arith, premise mv, inv.ready j, inv.held j, inv.held i)

  Move-ring :
      {m' : Shared} {p p' : Pc}
      → Move i m p m' p'
      → Ready m.buf p
      → IsValid m'.buf × (m'.inserted ≡ m'.removed ++ contents m'.buf)
  Move-ring (store {x}) r =
      let (grown, _, valid) = put_lem m.buf x inv.valid r in
      (valid, rw (grown, inv.history) (append_assoc m.removed (contents m.buf) (x ∷ [])))
  Move-ring load r =
      let (first, _, valid) = take_out_lem m.buf inv.valid r in
      (
        valid,
        inv.history
            ∙ ap (λ t. m.removed ++ t) first
            ∙ sym (append_assoc m.removed ((take_out m.buf).0 ∷ []) (contents (take_out m.buf).1)),
      )
  Move-ring _ r = (inv.valid, inv.history)

Step-Inv : {s t : System} → Step s t → Inv s.mem s.pc → Inv t.mem t.pc
Step-Inv {s} (pick i mv) inv =
    let (valid, history) = Move-ring inv mv (inv.ready i) in
    record {
      valid = valid;
      held = Move-held inv mv refl;
      ready = Move-Ready inv mv refl;
      history = history;
    }

start-Inv : (n : ℕ) → Inv (start_state n).mem (start_state n).pc
unfolding start_state
start-Inv n = record {
  valid = bb-IsValid;
  held = λ j h. ground arith;
  ready = λ j. ground arith;
  history = unfold bb in refl;
}

Reach-Inv : {n : ℕ} {s : System} → Reach n s → Inv s.mem s.pc
Reach-Inv {n} start = start-Inv n
Reach-Inv (later r st) = Step-Inv st (Reach-Inv r)

-- Two threads are never inside the locked parts together.
pub mutual_exclusion :
    {n : ℕ} {s : System}
    → Reach n s
    → (i j : ℕ) → critical (s.pc i) ≡ true
    → critical (s.pc j) ≡ true
    → i ≡ j
mutual_exclusion r i j hi hj =
    let a = (Reach-Inv r).held i hi in let b = (Reach-Inv r).held j hj in cc

-- In every reachable state, with any number of producers and consumers: the items taken out are the
-- first ones put in, in order, and the rest are in the buffer; no item is lost, doubled or overwritten,
-- and the buffer holds at most 20.
pub first_in_first_out :
    {n : ℕ} {s : System}
    → Reach n s
    → (s.mem.inserted ≡ s.mem.removed ++ contents s.mem.buf) × (s.mem.buf.totalitems ≤ buffer_size)
first_in_first_out r = ((Reach-Inv r).history, (Reach-Inv r).valid.fits)

-- A thread that stores has room, and a thread that loads has an item, although other threads ran since
-- its test: both accesses stay inside the array.
pub accesses_in_bounds :
    {n x : ℕ} {s : System}
    → Reach n s
    → (i : ℕ)
    → ((s.pc i ≡ p_store x)
        → (s.mem.buf.totalitems < buffer_size) × (s.mem.buf.next_in < length s.mem.buf.item))
      × ((s.pc i ≡ c_load)
          → (0 < s.mem.buf.totalitems) × (s.mem.buf.next_out < length s.mem.buf.item))
accesses_in_bounds {x} r i =
    let inv = Reach-Inv r in
    (
      λ e. ground (arith, inv.ready i, inv.valid.tail, inv.valid.slots),
      λ e. ground (arith, inv.ready i, inv.valid.out_in, inv.valid.slots),
    )
