-- ===== src/Shell/Processes/Waits.antt =====
-- project1/myshell.c: which processes are left when the shell is at its prompt.
use open_source_project.Prelude.{
  ℕ, zero, suc, ◌+◌, ◌≤◌, ◌≡◌, refl, true, some, List, [], ◌∷◌, arith, length, length-append, Bytes,
}
use open_source_project.Shell.Line.{Decision, nothing, quit, pipeline, builtin, external}
use open_source_project.Shell.Processes.{
  Mode, prompt, wait_for, wait_any, left, Child, System, Forks, runs, zombie, start, in_background,
  after_wait, AreNew, Step, round, ends, waited, waited_any, no_child, interrupted, interrupted_any,
  Steps, no_step, first_step, start_system,
}

-- The children that the calls to come wait for.
abbrev pub owed : Mode → ℕ
owed prompt = 0
owed (wait_for p) = 1
owed (wait_any n) = n
owed left = 0

start-owed :
    (f : Forks) (d : Decision) (cs : List Child)
    → (let t = start f d (record { mode = prompt; children = cs }) in
        length t.children ≤ length cs + (in_background f d + owed t.mode))
unfolding start
start-owed f nothing cs = omega arith
start-owed f quit cs = omega arith
start-owed f (builtin b args) cs = omega arith
start-owed f (pipeline l r) cs = ground arith
start-owed f (external is_bg r) cs = ground arith

after_wait-owed : (n : ℕ) → owed (after_wait n) ≡ n
unfolding after_wait
after_wait-owed zero = refl
after_wait-owed (suc n) = refl

Step-owed :
    {n : ℕ} {s t : System} (k : ℕ)
    → Step n s t
    → length s.children ≤ k + owed s.mode
    → length t.children ≤ k + n + owed t.mode
Step-owed k (round f d cs new) le = omega (arith, start-owed f d cs)
Step-owed k (ends m before after p) le =
    omega (arith, length-append before (runs p ∷ after), length-append before (zombie p ∷ after))
Step-owed k (waited before after p) le =
    omega (arith, length-append before (zombie p ∷ after), length-append before after)
Step-owed k (waited_any n p before after) le =
    omega (
      arith,
      length-append before (zombie p ∷ after),
      length-append before after,
      after_wait-owed n,
    )
Step-owed k (no_child n) le = omega arith
Step-owed k (interrupted p cs) le = omega arith
Step-owed k (interrupted_any n cs) le = omega (arith, after_wait-owed n)

Steps-owed :
    {n : ℕ} {s t : System} (k : ℕ)
    → Steps n s t
    → length s.children ≤ k + owed s.mode
    → length t.children ≤ k + n + owed t.mode
Steps-owed k no_step le = omega arith
Steps-owed k (first_step {m} {n} {s} {t} {u} step run) le =
    omega (arith, Steps-owed (k + m) run (Step-owed k step le))

-- The shell never has more children than it started in the background, stopped waiting for at a signal,
-- or still waits for. In a session with neither a background command nor a signal, the shell at its
-- prompt has no child left, running or ended.
pub children_bound :
    {n : ℕ} {s : System} → Steps n start_system s → length s.children ≤ n + owed s.mode
children_bound run = omega (arith, Steps-owed 0 run (omega arith))

-- What `pipe` and `fork` give for a pipeline with processes `p` and `q`.
abbrev pub two_forks : ℕ → ℕ → Forks
two_forks p q = record { pipe_ok = true; first = some p; second = some q }

-- A pipeline that is started while a command runs in the background: the prompt can come back while the
-- second process of the pipeline still runs, with no signal and although both processes were started,
-- since the two waits take any two children that end.
pub early_prompt :
    (l r : List Bytes) (b p q : ℕ) (cs : List Child)
    → AreNew (two_forks p q) (runs b ∷ cs)
    → (t : System) × (start
          (two_forks p q)
          (pipeline l r)
          (record { mode = prompt; children = runs b ∷ cs })
        ≡ t)
      × Steps 0 (record { mode = prompt; children = runs b ∷ cs }) t
      × Steps 0 t (record { mode = prompt; children = runs q ∷ cs })
unfolding start after_wait
early_prompt l r b p q cs new = (
  _,
  refl,
  first_step (round (two_forks p q) (pipeline l r) (runs b ∷ cs) new) no_step,
  first_step (ends (wait_any 2) (runs q ∷ runs p ∷ []) cs b) (
      first_step (waited_any 1 b (runs q ∷ runs p ∷ []) cs) (
        first_step (ends (wait_any 1) (runs q ∷ []) cs p)
          (first_step (waited_any 0 p (runs q ∷ []) cs) no_step))),
)
