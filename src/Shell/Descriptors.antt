-- ===== src/Shell/Descriptors.antt =====
-- project1/myshell.c, `main`: the descriptors of the shell and of the programs that a line starts. The
-- descriptors that `pipe` and `open` give, and whether `fork` succeeds, are arguments.
pub mod Wiring
pub mod Redirected
pub mod Lines
pub mod Typed
mod Tests
use open_source_project.Prelude.{
  ℕ, ◌≡◌, ◌==◌, Bool, true, false, Option, none, some, List, [], ◌∷◌, ◌++◌, if◌then◌else◌, Bytes,
}
use open_source_project.Shell.Line.{Simple, Decision, nothing, quit, pipeline, builtin, external}

-- What a descriptor stands for: one of those that the shell has from the start, an end of the pipe, or a
-- file that is open for reading, or for writing from its start.
pub data Description : Type 0 where
  inherited : ℕ → Description
  read_end : Description
  write_end : Description
  reads : Bytes → Description
  writes : Bytes → Description

-- The descriptors of a process; `none` is one that is not open.
abbrev pub Table : Type 0
Table = ℕ → Option Description

abbrev pub opened : ℕ → Description → Table → Table
opened fd d t n = if n == fd then some d else t n

-- `close(fd)`; on a descriptor that is not open it fails and changes nothing.
unfoldable pub close : ℕ → Table → Table
close fd t n = if n == fd then none else t n

-- `dup2(old, new)`; where `old` is not open it fails and changes nothing.
unfoldable pub dup2 : ℕ → ℕ → Table → Table
dup2 old new t = elim (t old) [ none ↦ t | some d ↦ opened new d t ]

-- `close(fd[0]); dup2(fd[1], STDOUT_FILENO); close(fd[1]);`
unfoldable pub left_child : ℕ → ℕ → Table → Table
unfolding close dup2
left_child rd wr t = close wr (dup2 wr 1 (close rd t))

-- `close(fd[1]); dup2(fd[0], STDIN_FILENO); close(fd[0]);`
unfoldable pub right_child : ℕ → ℕ → Table → Table
unfolding close dup2
right_child rd wr t = close rd (dup2 rd 0 (close wr t))

-- The shell behind both calls of `fork`.
unfoldable pub shell_behind : ℕ → ℕ → Table → Table
unfolding close
shell_behind rd wr t = close wr (close rd t)

-- `open`: it gives a descriptor that is not in use, or fails.
pub record Opening : Type 0 where
  pub answer : Table → Description → Option ℕ
  pub free : (t : Table) (d : Description) (fd : ℕ) → answer t d ≡ some fd → t fd ≡ none

-- `int fd = open(...); dup2(fd, target); close(fd);`. After an `open` that fails, `dup2` and `close` get
-- -1 and fail too.
unfoldable pub redirect_to : ℕ → Description → Option ℕ → Table → Table
unfolding close dup2
redirect_to target d none t = t
redirect_to target d (some fd) t = close fd (dup2 fd target (opened fd d t))

-- `if (infile) { ... }` and `if (outfile) { ... }`
unfoldable pub redirect_file : Opening → ℕ → (Bytes → Description) → Option Bytes → Table → Table
unfolding redirect_to
redirect_file o target d none t = t
redirect_file o target d (some f) t = redirect_to target (d f) (o.answer t (d f)) t

-- A call of `execvp`, with the descriptors that the program gets.
pub record Program : Type 0 where
  pub args : List Bytes
  pub table : Table

-- What `pipe` gives, and whether the calls of `fork` succeed.
pub record Calls : Type 0 where
  pub fds : Option (ℕ × ℕ)
  pub first : Bool
  pub second : Bool

abbrev pub forked : Bool → Program → List Program
forked true p = p ∷ []
forked false p = []

-- The two children of a pipeline, by what `pipe` and the calls of `fork` give.
unfoldable pub start_pipeline :
    Option (ℕ × ℕ) → Bool → Bool → List Bytes → List Bytes → Table → Table × List Program
unfolding left_child right_child shell_behind
start_pipeline none first second l r t = (t, [])
start_pipeline (some (rd, wr)) first second l r t =
    let both = opened wr write_end (opened rd read_end t) in
    (
      shell_behind rd wr both,
      forked first (record { args = l; table = left_child rd wr both })
          ++ forked second (record { args = r; table = right_child rd wr both }),
    )

-- The child of a single command.
unfoldable pub start_external : Opening → Calls → Simple → Table → List Program
unfolding redirect_file
start_external o c r t = forked c.first (record {
  args = r.args;
  table = redirect_file o 1 writes r.outfile (redirect_file o 0 reads r.infile t);
})

-- The shell's descriptors behind a line, and the programs that it starts. The built-in commands run in
-- the shell and start none.
unfoldable pub start_programs : Opening → Calls → Decision → Table → Table × List Program
unfolding start_pipeline start_external
start_programs o c (pipeline l r) t = start_pipeline c.fds c.first c.second l r t
start_programs o c (external is_bg r) t = (t, start_external o c r t)
start_programs o c (builtin b args) t = (t, [])
start_programs o c nothing t = (t, [])
start_programs o c quit t = (t, [])
