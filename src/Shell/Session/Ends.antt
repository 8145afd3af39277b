-- ===== src/Shell/Session/Ends.antt =====
-- project1/myshell.c: every session ends, since each round reads a part of what the user typed.
use open_source_project.Prelude.{
  ℕ, zero, suc, ◌≤◌, ◌<◌, ◌≡◌, ◌⊎◌, none, inl, inr, refl, Option, some, List, [], ◌∷◌, arith,
  Option-cases, length, Bytes, codes,
}
use open_source_project.Commands.Args.{confirm_action, skip_line}
use open_source_project.Commands.Files.{
  Kernel, Io, say, said, cmd_cd, cmd_pwd, cmd_mkdir, cmd_rmdir, cmd_ln, ln_files, cmd_cp, cp_files,
  cp_named, copy_files, cmd_rm, rm_file, cmd_mv, mv_files,
}
use open_source_project.Shell.Line.{
  Builtin, cd, ls, pwd, mkdir, rmdir, ln, cp, rm, mv, cat, grep, Decision, nothing, quit, pipeline,
  builtin, external, handle_line,
}
use open_source_project.Shell.Session.{
  Outside, Result, ended, undefined, copying, out_of_rounds, and_then, or_undefined, or_copying,
  run_builtin, behind_name, continue, session,
}
use open_source_project.Commands.Listing.{cmd_ls}

length-skip_line : (s : Bytes) → length (skip_line s) ≤ length s
unfolding skip_line
length-skip_line [] = omega arith
length-skip_line (c ∷ s) = ground (arith, length-skip_line s)

length-confirm_action : (s : Bytes) → length (confirm_action s).1 ≤ length s
unfolding confirm_action
length-confirm_action [] = omega arith
length-confirm_action (c ∷ s) = omega (arith, length-skip_line s)

module _ (k : Kernel) where
  -- The commands read no more than an answer.
  cmd_rm_reads : (args : List Bytes) (io : Io k) → length (cmd_rm k args io).stdin ≤ length io.stdin
  unfolding cmd_rm rm_file
  cmd_rm_reads args io = ground (arith, length-confirm_action io.stdin)

  cmd_mv_reads : (args : List Bytes) (io : Io k) → length (cmd_mv k args io).stdin ≤ length io.stdin
  unfolding cmd_mv mv_files
  cmd_mv_reads args io = ground (arith, length-confirm_action io.stdin)

  cmd_cp_reads :
      (n : ℕ) (args : List Bytes) (io io' : Io k)
      → cmd_cp k n args io ≡ some io'
      → length io'.stdin ≤ length io.stdin
  unfolding cmd_cp cp_files cp_named copy_files
  cmd_cp_reads n args io io' e = ground (arith, length-confirm_action io.stdin)

  cmd_ln_reads : (args : List Bytes) (io : Io k) → length (cmd_ln k args io).stdin ≤ length io.stdin
  unfolding cmd_ln ln_files
  cmd_ln_reads args io = ground arith

  cmd_mkdir_reads :
      (args : List Bytes) (io : Io k) → length (cmd_mkdir k args io).stdin ≤ length io.stdin
  unfolding cmd_mkdir
  cmd_mkdir_reads [] io = omega arith
  cmd_mkdir_reads (d ∷ more) io = ground arith

  cmd_rmdir_reads :
      (args : List Bytes) (io : Io k) → length (cmd_rmdir k args io).stdin ≤ length io.stdin
  unfolding cmd_rmdir
  cmd_rmdir_reads [] io = omega arith
  cmd_rmdir_reads (d ∷ more) io = ground arith

  cmd_cd_reads : (args : List Bytes) (io : Io k) → length (cmd_cd k args io).stdin ≤ length io.stdin
  unfolding cmd_cd
  cmd_cd_reads [] io = ground arith
  cmd_cd_reads (d ∷ more) io = ground arith

  cmd_pwd_reads : (io : Io k) → length (cmd_pwd k io).stdin ≤ length io.stdin
  unfolding cmd_pwd
  cmd_pwd_reads io = ground arith

from_copying {ℓ} : {A : Type ℓ} {m : Option A} {a : A} → or_copying m ≡ ended a → m ≡ some a
from_copying {m = none} e = cc
from_copying {m = some b} e = cc

-- How the parts of a session can end: not at the bound on its rounds.
abbrev Ends {ℓ} : {A : Type ℓ} → Result A → Type 0
Ends out_of_rounds = ⊥
Ends r = Unit

Ends-undefined {ℓ} : {A : Type ℓ} (m : Option A) → Ends (or_undefined m)
Ends-undefined none = tt
Ends-undefined (some a) = tt

Ends-copying {ℓ} : {A : Type ℓ} (m : Option A) → Ends (or_copying m)
Ends-copying none = tt
Ends-copying (some a) = tt

Ends-and_then {ℓ κ} :
    {A : Type ℓ} {B : Type κ} (m : Result A) (f : A → Result B)
    → Ends m
    → ((a : A) → m ≡ ended a → Ends (f a))
    → Ends (and_then m f)
Ends-and_then (ended a) f h g = g a refl
Ends-and_then undefined f h g = tt
Ends-and_then copying f h g = tt
Ends-and_then out_of_rounds f h g = h

module _ (k : Kernel) (o : Outside k) (rounds : ℕ) where
  run_builtin_reads :
      (b : Builtin) (args : List Bytes) (io io' : Io k)
      → run_builtin k o rounds b args io ≡ ended io'
      → length io'.stdin ≤ length io.stdin
  unfolding run_builtin
  run_builtin_reads cd args io io' e = ground (arith, cmd_cd_reads k args io)
  run_builtin_reads ls args io io' e = ground arith
  run_builtin_reads pwd args io io' e = ground (arith, cmd_pwd_reads k io)
  run_builtin_reads mkdir args io io' e = ground (arith, cmd_mkdir_reads k args io)
  run_builtin_reads rmdir args io io' e = ground (arith, cmd_rmdir_reads k args io)
  run_builtin_reads ln args io io' e = ground (arith, cmd_ln_reads k args io)
  run_builtin_reads cp args io io' e = cmd_cp_reads k rounds args io io' (from_copying e)
  run_builtin_reads rm args io io' e = ground (arith, cmd_rm_reads k args io)
  run_builtin_reads mv args io io' e = ground (arith, cmd_mv_reads k args io)
  run_builtin_reads cat args io io' e = ground arith
  run_builtin_reads grep args io io' e = ground arith

  run_builtin-Ends :
      (b : Builtin) (args : List Bytes) (io : Io k) → Ends (run_builtin k o rounds b args io)
  unfolding run_builtin
  run_builtin-Ends cd args io = tt
  run_builtin-Ends ls args io =
      Ends-and_then (or_undefined (cmd_ls (o.directory io.world) args)) _ (Ends-undefined _)
        (λ r e. tt)
  run_builtin-Ends pwd args io = tt
  run_builtin-Ends mkdir args io = tt
  run_builtin-Ends rmdir args io = tt
  run_builtin-Ends ln args io = tt
  run_builtin-Ends cp args io = Ends-copying (cmd_cp k rounds args io)
  run_builtin-Ends rm args io = tt
  run_builtin-Ends mv args io = tt
  run_builtin-Ends cat args io = tt
  run_builtin-Ends grep args io = tt

  -- At the end of the input, or by `exit`, which says so.
  abbrev pub Left : Io k → Type 0
  Left io =
      (o.readline io.stdin ≡ none)
      ⊎ ((io' : Io k) × (io ≡ say k (said (codes "MyShell을 종료합니다.\n")) io'))

  abbrev Stops : Result (Io k) → Type 0
  Stops (ended io) = Left io
  Stops undefined = Unit
  Stops copying = Unit
  Stops out_of_rounds = ⊥

  Stops-and_then {ℓ} :
      {A : Type ℓ} (m : Result A) (f : A → Result (Io k))
      → Ends m
      → ((a : A) → m ≡ ended a → Stops (f a))
      → Stops (and_then m f)
  Stops-and_then (ended a) f h g = g a refl
  Stops-and_then undefined f h g = tt
  Stops-and_then copying f h g = tt
  Stops-and_then out_of_rounds f h g = h

  round-Stops :
      (go : Io k → Result (Io k)) (n : ℕ) (d : Decision) (io : Io k)
      → ((io' : Io k) → length io'.stdin ≤ n → Stops (go io'))
      → length io.stdin ≤ n
      → Stops (continue k o rounds go d io)
  unfolding continue
  round-Stops go n nothing io h le = h io le
  round-Stops go n quit io h le = inr (io, refl)
  round-Stops go n (pipeline l r) io h le = h _ (omega (arith, o.pipeline_reads l r io))
  round-Stops go n (builtin b args) io h le =
      Stops-and_then (run_builtin k o rounds b (behind_name args) io) go
        (run_builtin-Ends b (behind_name args) io)
        (λ io' e. h io' (omega (arith, run_builtin_reads b (behind_name args) io io' e)))
  round-Stops go n (external is_bg r) io h le = h _ (omega (arith, o.process_reads is_bg r io))

  session-Stops : (f : ℕ) (io : Io k) → length io.stdin < f → Stops (session k o rounds f io)
  unfolding session
  session-Stops zero io lt = absurd (omega arith)
  session-Stops (suc f) io lt = elim (Option-cases (o.readline io.stdin)) [
    | inl e ↦ rw (e, session) (inl e)
    | inr ((line, rest), e) ↦
        (let shorter = o.readline_shorter io.stdin line rest e in
          rw (e, session)
            (Stops-and_then (or_undefined (handle_line (some line))) _ (Ends-undefined _) (λ d q.
              round-Stops (session k o rounds f) (length rest) d (record io { stdin = rest })
                (λ io' le. session-Stops f io' (omega arith)) (omega arith))))
  ]

  -- With more rounds than the user has typed bytes, the loop never comes to the end of its rounds: the
  -- session ends, at the end of the input or by `exit`, or it comes to undefined behaviour, or to a copy
  -- of `cp` that goes on behind the rounds given for it.
  pub session_ends :
      (f : ℕ) (io : Io k)
      → length io.stdin < f
      → ((io' : Io k) × (session k o rounds f io ≡ ended io') × Left io')
        ⊎ (session k o rounds f io ≡ undefined)
        ⊎ (session k o rounds f io ≡ copying)
  session_ends f io lt = cases (session k o rounds f io) (session-Stops f io lt)
    where
      cases :
          (r : Result (Io k))
          → Stops r
          → ((io' : Io k) × (r ≡ ended io') × Left io') ⊎ (r ≡ undefined) ⊎ (r ≡ copying)
      cases (ended io') h = inl (io', refl, h)
      cases undefined h = inr (inl refl)
      cases copying h = inr (inr refl)
      cases out_of_rounds h = absurd h
