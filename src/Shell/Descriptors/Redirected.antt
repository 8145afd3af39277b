-- ===== src/Shell/Descriptors/Redirected.antt =====
-- project1/myshell.c: the descriptors of a single command with redirections.
use open_source_project.Prelude.{
  ℕ, ◌≡◌, ◌≢◌, refl, sym, ap, ◌∙◌, ◌==◌, Option, none, some, arith, if◌then◌else◌, Bytes,
}
use mathlib.Core.Path.{fun_ext}
use open_source_project.Shell.Line.{Simple}
use open_source_project.Shell.Descriptors.{
  Description, reads, writes, Table, opened, close, dup2, Opening, Calls, forked, redirect_to,
  redirect_file, start_external,
}

-- One descriptor changed.
abbrev pub put : ℕ → Option Description → Table → Table
put fd d t n = if n == fd then d else t n

abbrev pub file_or : Option ℕ → Description → Option Description → Option Description
file_or none d old = old
file_or (some fd) d old = some d

-- What the descriptor becomes: the file, if it can be opened, and else what it was.
abbrev pub chosen : Opening → ℕ → (Bytes → Description) → Option Bytes → Table → Option Description
chosen o target d none t = t target
chosen o target d (some f) t = file_or (o.answer t (d f)) (d f) (t target)

put_same : (fd : ℕ) (t : Table) → t ≡ put fd (t fd) t
put_same fd t = fun_ext (λ n. at_fd n)
  where
    at_fd : (n : ℕ) → t n ≡ put fd (t fd) t n
    at_fd n = ground arith

redirect_to_lem :
    (target fd : ℕ) (d : Description) (t : Table)
    → t target ≢ none
    → t fd ≡ none
    → redirect_to target d (some fd) t ≡ put target (some d) t
unfolding redirect_to
redirect_to_lem target fd d t in_use free =
    let moved : opened fd d t fd ≡ some d = ground arith in
    rw (moved, dup2) (fun_ext (λ n. at_fd n))
  where
    apart : fd ≢ target
    apart e = in_use (ap t (sym e) ∙ free)

    at_fd : (n : ℕ) → close fd (opened target d (opened fd d t)) n ≡ put target (some d) t n
    at_fd n = ground (arith, apart, free)

redirect_answer :
    (target : ℕ) (d : Description) (answer : Option ℕ) (t : Table)
    → t target ≢ none
    → ((fd : ℕ) → answer ≡ some fd → t fd ≡ none)
    → redirect_to target d answer t ≡ put target (file_or answer d (t target)) t
unfolding redirect_to
redirect_answer target d none t in_use free = put_same target t
redirect_answer target d (some fd) t in_use free =
    redirect_to_lem target fd d t in_use (free fd refl)

redirect_file_lem :
    (o : Opening) (target : ℕ) (d : Bytes → Description) (file : Option Bytes) (t : Table)
    → t target ≢ none
    → redirect_file o target d file t ≡ put target (chosen o target d file t) t
unfolding redirect_file
redirect_file_lem o target d none t in_use = put_same target t
redirect_file_lem o target d (some f) t in_use =
    redirect_answer target (d f) (o.answer t (d f)) t in_use (o.free t (d f))

-- The descriptors of the command's program: the files of the redirections as its standard input and
-- output, as far as they can be opened, the input first, and else what the shell has.
abbrev pub with_files : Opening → Simple → Table → Table
with_files o r t =
    let t1 = put 0 (chosen o 0 reads r.infile t) t in put 1 (chosen o 1 writes r.outfile t1) t1

pub start_external_lem :
    (o : Opening) (c : Calls) (r : Simple) (t : Table)
    → t 0 ≢ none
    → t 1 ≢ none
    → start_external o c r t ≡ forked c.first (record { args = r.args; table = with_files o r t })
unfolding start_external
start_external_lem o c r t in_use0 in_use1 =
    let t1 = put 0 (chosen o 0 reads r.infile t) t in
    rw (redirect_file_lem o 0 reads r.infile t in_use0)
      (rw (redirect_file_lem o 1 writes r.outfile t1 in_use1) refl)
