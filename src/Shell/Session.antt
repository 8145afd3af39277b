-- ===== src/Shell/Session.antt =====
-- project1/myshell.c, `main`: a session at a terminal, from its first line to its last one. What the user
-- types is one text, which `readline` and the questions of the commands read in turns.
pub mod Ends
pub mod Typed
pub mod Script
mod Tests
use open_source_project.Prelude.{
  ℕ, zero, suc, ◌≤◌, ◌<◌, ◌≡◌, ◌≢◌, Bool, Option, none, some, List, [], ◌∷◌, ◌++◌, length, All,
  Bytes, codes,
}
use open_source_project.Commands.Files.{
  Kernel, Io, say, Message, failed, said, cmd_cd, cmd_pwd, cmd_mkdir, cmd_rmdir, cmd_ln, cmd_cp,
  cmd_rm, cmd_mv,
}
use open_source_project.Commands.Text.{Output, text, open_error, cmd_cat, cmd_grep}
use open_source_project.Commands.Listing.{Directory, Listed, open_failed, listed, cmd_ls}
use open_source_project.Shell.Line.{
  Builtin, cd, ls, pwd, mkdir, rmdir, ln, cp, rm, mv, cat, grep, Simple, Decision, nothing, quit,
  pipeline, builtin, external, handle_line,
}

-- What the shell uses of the system besides the system calls of the commands: the files and directories
-- to read, the processes, which may read the input too, and `readline`, which reads a line at a time.
pub record Outside (k : Kernel) : Type 0 where
  pub file : k.World → Bytes → Option Bytes
  pub directory : k.World → Directory
  pub run_pipeline : List Bytes → List Bytes → Io k → Io k
  pub run_process : Bool → Simple → Io k → Io k
  pub readline : Bytes → Option (Bytes × Bytes)
  pub pipeline_reads :
      (l r : List Bytes) (io : Io k) → length (run_pipeline l r io).stdin ≤ length io.stdin
  pub process_reads :
      (is_bg : Bool) (r : Simple) (io : Io k)
      → length (run_process is_bg r io).stdin ≤ length io.stdin
  pub readline_shorter :
      (s line rest : Bytes) → readline s ≡ some (line, rest) → length rest < length s
  pub readline_line :
      (line rest : Bytes)
      → All (λ c. c ≢ 10) line
      → readline (line ++ (10 ∷ rest)) ≡ some (line, rest)

-- What `cmd_cat` and `cmd_grep` print.
abbrev pub printed : Bytes → Output → Message
printed err Output.usage = Message.usage
printed err open_error = failed err
printed err (text s) = said s

abbrev pub ls_message : Listed → Message
ls_message open_failed = failed (codes "ls error")
ls_message (listed s) = said s

-- How a part of a session ends: with the system behind it; by undefined behaviour; in a copy of `cp` that
-- goes on behind its rounds; or not within the rounds of the loop.
pub data Result {ℓ} (A : Type ℓ) : Type ℓ where
  ended : A → Result A
  undefined : Result A
  copying : Result A
  out_of_rounds : Result A

abbrev pub and_then {ℓ κ} : {A : Type ℓ} {B : Type κ} → Result A → (A → Result B) → Result B
and_then (ended a) f = f a
and_then undefined f = undefined
and_then copying f = copying
and_then out_of_rounds f = out_of_rounds

abbrev pub or_undefined {ℓ} : {A : Type ℓ} → Option A → Result A
or_undefined none = undefined
or_undefined (some a) = ended a

abbrev pub or_copying {ℓ} : {A : Type ℓ} → Option A → Result A
or_copying none = copying
or_copying (some a) = ended a

-- `args[0]` is the command's name.
abbrev pub behind_name : List Bytes → List Bytes
behind_name [] = []
behind_name (a ∷ args) = args

-- `rounds` bounds the rounds of the copy in `cmd_cp`.
module _ (k : Kernel) (o : Outside k) (rounds : ℕ) where
  -- The call behind the name of a built-in command. The buffer of `cmd_ls` may
  -- overflow.
  unfoldable pub run_builtin : Builtin → List Bytes → Io k → Result (Io k)
  run_builtin cd args io = ended (cmd_cd k args io)
  run_builtin ls args io =
      and_then (or_undefined (cmd_ls (o.directory io.world) args))
        (λ r. ended (say k (ls_message r) io))
  run_builtin pwd args io = ended (cmd_pwd k io)
  run_builtin mkdir args io = ended (cmd_mkdir k args io)
  run_builtin rmdir args io = ended (cmd_rmdir k args io)
  run_builtin ln args io = ended (cmd_ln k args io)
  run_builtin cp args io = or_copying (cmd_cp k rounds args io)
  run_builtin rm args io = ended (cmd_rm k args io)
  run_builtin mv args io = ended (cmd_mv k args io)
  run_builtin cat args io =
      ended (say k (printed (codes "cat file open error") (cmd_cat (o.file io.world) args)) io)
  run_builtin grep args io =
      ended (say k (printed (codes "grep file open error") (cmd_grep (o.file io.world) args)) io)

  -- What a round does, and then the later rounds unless the line was exit.
  unfoldable pub continue : (Io k → Result (Io k)) → Decision → Io k → Result (Io k)
  unfolding run_builtin
  continue more nothing io = more io
  continue more quit io = ended (say k (said (codes "MyShell을 종료합니다.\n")) io)
  continue more (pipeline l r) io = more (o.run_pipeline l r io)
  continue more (builtin b args) io = and_then (run_builtin b (behind_name args) io) more
  continue more (external is_bg r) io = more (o.run_process is_bg r io)

  -- The loop, with `f` rounds at most.
  unfoldable pub session : ℕ → Io k → Result (Io k)
  unfolding continue
  session zero io = out_of_rounds
  session (suc f) io = elim (o.readline io.stdin) [
    | none ↦ ended io
    | some (line, rest) ↦
        and_then (or_undefined (handle_line (some line)))
          (λ d. continue (session f) d (record io { stdin = rest }))
  ]
