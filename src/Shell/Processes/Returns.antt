-- ===== src/Shell/Processes/Returns.antt =====
-- project1/myshell.c: the shell can always come back to its prompt.
use mathlib.Core.Path.{subst}
use open_source_project.Prelude.{
  ℕ, zero, suc, ◌≡◌, ◌≢◌, ◌⊎◌, inl, inr, refl, sym, ap, Bool, true, false, List, [], ◌∷◌, ◌++◌,
  Bool-cases, Option-cases,
}
use open_source_project.Shell.Line.{Decision, nothing, quit, pipeline, builtin, external}
use open_source_project.Shell.Processes.{
  Mode, prompt, wait_for, wait_any, left, Child, System, Forks, runs, zombie, start, after_wait,
  Step, round, ends, waited, waited_any, no_child, interrupted, interrupted_any, Steps, no_step,
  first_step, start_system,
}

-- A process is among the children.
abbrev pub HasPid : ℕ → List Child → Type 0
HasPid p [] = ⊥
HasPid p (c ∷ cs) = (c.pid ≡ p) ⊎ HasPid p cs

-- The shell waits for a process that it has, or for one more at least.
abbrev pub WaitsForChild : Mode → List Child → Type 0
WaitsForChild (wait_for p) cs = HasPid p cs
WaitsForChild (wait_any zero) cs = ⊥
WaitsForChild _ cs = Unit

HasPid-ends :
    (q p : ℕ) (before after : List Child)
    → HasPid q (before ++ (runs p ∷ after))
    → HasPid q (before ++ (zombie p ∷ after))
HasPid-ends q p [] after h = h
HasPid-ends q p (c ∷ before) after (inl e) = inl e
HasPid-ends q p (c ∷ before) after (inr h) = inr (HasPid-ends q p before after h)

start-WaitsForChild :
    (f : Forks) (d : Decision) (cs : List Child)
    → (let t = start f d (record { mode = prompt; children = cs }) in
        WaitsForChild t.mode t.children)
unfolding start
start-WaitsForChild f nothing cs = tt
start-WaitsForChild f quit cs = tt
start-WaitsForChild f (builtin b args) cs = tt
start-WaitsForChild f (pipeline l r) cs = elim (Bool-cases f.pipe_ok) [
  | inl e ↦ rw e tt
  | inr e ↦ rw e tt
]
start-WaitsForChild f (external is_bg r) cs = elim (Option-cases f.first) [
  | inl e ↦ rw e tt
  | inr (p, e) ↦ elim (Bool-cases is_bg) [ inl b ↦ rw (e, b) tt | inr b ↦ rw (e, b) (inl refl) ]
]

after_wait-WaitsForChild : (n : ℕ) (cs : List Child) → WaitsForChild (after_wait n) cs
unfolding after_wait
after_wait-WaitsForChild zero cs = tt
after_wait-WaitsForChild (suc n) cs = tt

ends-WaitsForChild :
    (m : Mode) (before after : List Child) (p : ℕ)
    → WaitsForChild m (before ++ (runs p ∷ after))
    → WaitsForChild m (before ++ (zombie p ∷ after))
ends-WaitsForChild prompt before after p h = tt
ends-WaitsForChild (wait_for q) before after p h = HasPid-ends q p before after h
ends-WaitsForChild (wait_any zero) before after p h = h
ends-WaitsForChild (wait_any (suc n)) before after p h = tt
ends-WaitsForChild left before after p h = tt

Step-WaitsForChild :
    {n : ℕ} {s t : System}
    → Step n s t
    → WaitsForChild s.mode s.children
    → WaitsForChild t.mode t.children
Step-WaitsForChild (round f d cs new) h = start-WaitsForChild f d cs
Step-WaitsForChild (ends m before after p) h = ends-WaitsForChild m before after p h
Step-WaitsForChild (waited before after p) h = tt
Step-WaitsForChild (waited_any n p before after) h = after_wait-WaitsForChild n (before ++ after)
Step-WaitsForChild (no_child n) h = after_wait-WaitsForChild n []
Step-WaitsForChild (interrupted p cs) h = tt
Step-WaitsForChild (interrupted_any n cs) h = after_wait-WaitsForChild n cs

Steps-WaitsForChild :
    {n : ℕ} {s t : System}
    → Steps n s t
    → WaitsForChild s.mode s.children
    → WaitsForChild t.mode t.children
Steps-WaitsForChild no_step h = h
Steps-WaitsForChild (first_step step run) h = Steps-WaitsForChild run (Step-WaitsForChild step h)

-- From a state the shell can come back to its prompt, with no more than its waits.
abbrev pub Returns : System → Type 0
Returns s = (cs : List Child) × Steps 0 s (record { mode = prompt; children = cs })

step_any :
    (n p : ℕ) (b : Bool) (cs : List Child) {u : System}
    → Steps 0 (record { mode = after_wait n; children = cs }) u
    → Steps 0
        (record { mode = wait_any (suc n); children = record { pid = p; running = b } ∷ cs })
        u
step_any n p true cs run =
    first_step (ends (wait_any (suc n)) [] cs p) (first_step (waited_any n p [] cs) run)
step_any n p false cs run = first_step (waited_any n p [] cs) run

Returns-after_wait :
    (n : ℕ) (cs : List Child) → Returns (record { mode = after_wait n; children = cs })
unfolding after_wait
Returns-after_wait zero cs = (cs, no_step)
Returns-after_wait (suc n) [] =
    let (cs, run) = Returns-after_wait n [] in (cs, first_step (no_child n) run)
Returns-after_wait (suc n) (c ∷ cs) =
    let (cs', run) = Returns-after_wait n cs in (cs', step_any n c.pid c.running cs run)

step_for :
    (p : ℕ) (b : Bool) (before after : List Child)
    → Steps 0
        (record {
          mode = wait_for p;
          children = before ++ (record { pid = p; running = b } ∷ after);
        })
        (record { mode = prompt; children = before ++ after })
step_for p true before after =
    first_step (ends (wait_for p) before after p) (first_step (waited before after p) no_step)
step_for p false before after = first_step (waited before after p) no_step

-- Where the process stands among the children.
place :
    (p : ℕ) (cs : List Child)
    → HasPid p cs
    → (b : Bool) × (before : List Child) × (after : List Child) × (cs
        ≡ before ++ (record { pid = p; running = b } ∷ after))
place p [] h = absurd h
place p (c ∷ cs) (inl e) =
    (c.running, [], cs, ap (λ q. record { pid = q; running = c.running } ∷ cs) e)
place p (c ∷ cs) (inr h) =
    let (b, before, after, e) = place p cs h in (b, c ∷ before, after, ap (λ l. c ∷ l) e)

Returns-HasPid :
    (p : ℕ) (cs : List Child) → HasPid p cs → Returns (record { mode = wait_for p; children = cs })
Returns-HasPid p cs h =
    let (b, before, after, e) = place p cs h in
    subst (λ l. Returns (record { mode = wait_for p; children = l })) (sym e)
      (before ++ after, step_for p b before after)

Returns-WaitsForChild :
    (m : Mode) (cs : List Child)
    → m ≢ left
    → WaitsForChild m cs
    → Returns (record { mode = m; children = cs })
unfolding after_wait
Returns-WaitsForChild prompt cs ne h = (cs, no_step)
Returns-WaitsForChild (wait_for p) cs ne h = Returns-HasPid p cs h
Returns-WaitsForChild (wait_any zero) cs ne h = absurd h
Returns-WaitsForChild (wait_any (suc n)) cs ne h = Returns-after_wait (suc n) cs
Returns-WaitsForChild left cs ne h = absurd (ne refl)

-- The shell never waits for a process that it does not have: wherever it is before the end of the loop,
-- it can come back to its prompt by ends of children and by its own waits, with no signal.
pub returns : {n : ℕ} {s : System} → Steps n start_system s → s.mode ≢ left → Returns s
returns {n} {s} run ne = Returns-WaitsForChild s.mode s.children ne (Steps-WaitsForChild run tt)
