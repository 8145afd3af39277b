-- ===== src/Prelude/Runs.antt =====
-- Runs of a step relation, and systems that do something again and again: an interface and what follows
-- from it.
use Prim.Native.Nat.{ℕ, zero, suc, ◌+◌, ◌≤◌, ◌<◌}
use mathlib.Core.Path.{◌≡◌}
use mathlib.Core.Logic.{◌⊎◌, inl}
use native.Mathlib.Omega.{arith}

-- A run of `n` steps.
pub data Run {S : Type 0} (Step : S → S → Type 0) (s : S) : ℕ → S → Type 0 where
  here : Run Step s 0 s
  more : {n : ℕ} {t u : S} → Run Step s n t → Step t u → Run Step s (suc n) u

-- A system with an invariant whose steps count something or else come nearer to it, and in which some
-- step is always possible.
pub record Progress {S : Type 0} (Step : S → S → Type 0) : Type 1 where
  pub Inv : S → Type 0
  pub keeps : (s t : S) → Step s t → Inv s → Inv t
  pub distance : S → ℕ
  pub counted : S → ℕ
  pub nearer :
      (s t : S)
      → Step s t
      → Inv s
      → (distance t + 1 ≤ distance s) × (counted t ≡ counted s) ⊎ (counted t ≡ counted s + 1)
  pub goes_on : (s : S) → Inv s → (t : S) × Step s t

module _ {S : Type 0} {Step : S → S → Type 0} (p : Progress Step) where
  open p use {Inv, keeps, distance, counted, nearer, goes_on}

  pub Run-keeps : {s t : S} {n : ℕ} → Run Step s n t → Inv s → Inv t
  Run-keeps here i = i
  Run-keeps (more {n} {t} {u} r st) i = keeps t u st (Run-keeps r i)

  Run-nearer :
      {s t : S} {n : ℕ}
      → Run Step s n t
      → Inv s
      → (n + distance t ≤ distance s) × (counted t ≡ counted s) ⊎ (counted s < counted t)
  Run-nearer here i = inl (omega arith)
  Run-nearer (more {n} {t} {u} r st) i =
      ground (arith, Run-nearer r i, nearer t u st (Run-keeps r i))

  -- A run longer than the distance counts something.
  pub Run-counts :
      {s t : S} {n : ℕ} → Run Step s n t → Inv s → distance s < n → counted s < counted t
  Run-counts r i long = ground (arith, Run-nearer r i)

  -- There are runs of every length.
  pub run_for : (n : ℕ) (s : S) → Inv s → (t : S) × Run Step s n t
  run_for zero s i = (s, here)
  run_for (suc n) s i =
      let (t, r) = run_for n s i in let (u, st) = goes_on t (Run-keeps r i) in (u, more r st)
