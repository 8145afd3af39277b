-- ===== src/TurnTaking/Order.antt =====
-- lab3/4/hellothread.c: the greetings alternate in every state that the threads can reach.
use mathlib.Core.Path.{subst}
use open_source_project.Prelude.{◌≡◌, refl, Bool, true, false, ◌&&◌, some, List, [], ◌∷◌, arith}
use open_source_project.TurnTaking.{
  Who, child, parent, other, Pc, lock, test, wait, woken, print, pass, signal, unlock, Shared, Move,
  locks, goes_on, waits, relocks, prints, passes, signals, unlocks, State, Step, child_moves,
  parent_moves, Spurious, wakes_child, wakes_parent, Reach, start, later, spurious,
}

-- Who greets next: the child first, then the other one each time.
abbrev pub next : List Who → Who
next [] = child
next (t ∷ ts) = other t

-- Greetings that alternate, newest first.
abbrev pub Alternates : List Who → Type 0
Alternates [] = Unit
Alternates (t ∷ ts) = (t ≡ next ts) × Alternates ts

-- A thread that holds the mutex.
abbrev pub critical : Pc → Bool
critical lock = false
critical wait = false
critical woken = false
critical _ = true

abbrev pub is_pass : Pc → Bool
is_pass pass = true
is_pass _ = false

-- What thread `t` at `p` knows, with the other at `q`.
abbrev pub Knows : Who → Shared → Pc → Pc → Type 0
Knows t m lock q = Unit
Knows t m woken q = Unit
Knows t m test q = m.owner ≡ some t
Knows t m wait q = m.turn ≡ t → q ≡ signal
Knows t m print q = (m.owner ≡ some t) × (m.turn ≡ t)
Knows t m pass q = (m.owner ≡ some t) × (m.turn ≡ t) × (next m.greeted ≡ other t)
Knows t m signal q = (m.owner ≡ some t) × (m.turn ≡ other t)
Knows t m unlock q = m.owner ≡ some t

pub record Inv (t : Who) (m : Shared) (p q : Pc) : Type 0 where
  pub mine : Knows t m p q
  pub theirs : Knows (other t) m q p
  pub alternates : Alternates m.greeted
  pub owned : m.owner ≡ some t → critical p ≡ true
  pub owned_other : m.owner ≡ some (other t) → critical q ≡ true
  pub fresh : is_pass p ≡ false → is_pass q ≡ false → m.turn ≡ next m.greeted

pub Inv-other : (t : Who) (m : Shared) (p q : Pc) → Inv t m p q → Inv (other t) m q p
Inv-other child m p q i = record {
  mine = i.theirs;
  theirs = i.mine;
  alternates = i.alternates;
  owned = i.owned_other;
  owned_other = i.owned;
  fresh = λ a b. i.fresh b a;
}
Inv-other parent m p q i = record {
  mine = i.theirs;
  theirs = i.mine;
  alternates = i.alternates;
  owned = i.owned_other;
  owned_other = i.owned;
  fresh = λ a b. i.fresh b a;
}

Move-Inv :
    {t : Who} {m m' : Shared} {p q p' q' : Pc}
    → Move t m p q m' p' q'
    → Inv t m p q
    → Inv t m' p' q'
Move-Inv {t} {m} (locks {q} e) i = ground (arith, i.fresh, i.owned, i.owned_other)
Move-Inv {t} {m} (goes_on {q} e) i = ground (arith, i.fresh, i.owned, i.owned_other)
Move-Inv {t} {m} (waits {q} e) i = ground (arith, i.fresh, i.owned, i.owned_other)
Move-Inv {t} {m} (relocks {q} e) i = ground (arith, i.fresh, i.owned, i.owned_other)
Move-Inv {t} {m} (prints {q}) i = ground (arith, i.fresh, i.owned, i.owned_other)
Move-Inv {t} {m} (passes {q}) i = ground (arith, i.fresh, i.owned, i.owned_other)
Move-Inv {t} {m} (signals {q}) i = ground (arith, i.fresh, i.owned, i.owned_other)
Move-Inv {t} {m} (unlocks {q}) i = ground (arith, i.fresh, i.owned, i.owned_other)

-- The end of a wait, seen from the thread that waits.
woken-Inv : {t : Who} {m : Shared} {q : Pc} → Inv t m wait q → Inv t m woken q
woken-Inv i = ground (arith, i.fresh, i.owned, i.owned_other)

abbrev pub StateInv : State → Type 0
StateInv s = Inv child s.mem s.child_pc s.parent_pc

pub Step-Inv : {s t : State} → Step s t → StateInv s → StateInv t
Step-Inv (child_moves mv) i = Move-Inv mv i
Step-Inv {s} (parent_moves {m} {p} {q} mv) i =
    Inv-other parent m p q (Move-Inv mv (Inv-other child s.mem s.child_pc s.parent_pc i))

Spurious-Inv : {s t : State} → Spurious s t → StateInv s → StateInv t
Spurious-Inv {s} (wakes_child e) i = woken-Inv (subst (λ p. Inv child s.mem p s.parent_pc) e i)
Spurious-Inv {s} (wakes_parent e) i = Inv-other parent s.mem woken s.child_pc (
    woken-Inv
      (Inv-other child s.mem s.child_pc wait (subst (λ q. Inv child s.mem s.child_pc q) e i)))

pub Reach-Inv : {s : State} → Reach s → StateInv s
Reach-Inv start = record {
  mine = tt;
  theirs = tt;
  alternates = tt;
  owned = λ e. absurd cc;
  owned_other = λ e. absurd cc;
  fresh = λ a b. refl;
}
Reach-Inv (later r st) = Step-Inv st (Reach-Inv r)
Reach-Inv (spurious r st) = Spurious-Inv st (Reach-Inv r)

-- In every interleaving, spurious wake-ups included, the child greets first and then the two alternate,
-- and the threads are never both between taking the mutex and giving it up.
pub alternating :
    {s : State}
    → Reach s
    → Alternates s.mem.greeted × ((critical s.child_pc && critical s.parent_pc) ≡ false)
alternating {s} r = let i = Reach-Inv r in (i.alternates, apart s.child_pc s.parent_pc i)
  where
    apart : (p q : Pc) → Inv child s.mem p q → critical p && critical q ≡ false
    apart p q i = ground arith
