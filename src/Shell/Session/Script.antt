-- ===== src/Shell/Session/Script.antt =====
-- project1/myshell.c and commands.c: a session of built-in commands that ask nothing.
use open_source_project.Prelude.{
  ℕ, zero, suc, ◌<◌, ◌≡◌, inl, inr, refl, ap, ◌∙◌, Bool, true, false, some, Option-cases, List, [],
  ◌∷◌, ◌++◌, arith, length, words, All, Bytes, codes, str_eq,
}
use open_source_project.Commands.Files.{
  Kernel, Io, say, said, cmd_cd, cmd_pwd, cmd_mkdir, cmd_rmdir, cmd_ln, ln_files,
}
use open_source_project.Commands.Listing.{cmd_ls}
use open_source_project.Shell.Parse.{is_blank}
use open_source_project.Shell.Line.{
  Builtin, cd, ls, pwd, mkdir, rmdir, ln, cp, rm, mv, cat, grep, max_arg_len, builtin_of, quit,
  handle_line,
}
use open_source_project.Shell.Session.{
  Outside, Result, ended, undefined, copying, out_of_rounds, and_then, run_builtin, continue,
  session,
}
use open_source_project.Shell.Session.Typed.{IsPlain, Plain, session_builtin}

regroup {ℓ} :
    {A : Type ℓ} (r : Result A) (u : A → A) (go more last : A → Result A)
    → ((a : A) → go (u a) ≡ and_then (more a) last)
    → and_then (and_then r (λ a. ended (u a))) go ≡ and_then (and_then r more) last
regroup (ended a) u go more last h = h a
regroup undefined u go more last h = refl
regroup copying u go more last h = refl
regroup out_of_rounds u go more last h = refl

-- The commands that never read an answer.
abbrev pub asks : Builtin → Bool
asks cp = true
asks rm = true
asks mv = true
asks _ = false

module _ (k : Kernel) (o : Outside k) (rounds : ℕ) where
  -- What is left to read.
  abbrev pub with_stdin : Bytes → Io k → Io k
  with_stdin s io = record io { stdin = s }

  cmd_ln_frame :
      (args : List Bytes) (io : Io k) (s : Bytes)
      → cmd_ln k args (with_stdin s io) ≡ with_stdin s (cmd_ln k args io)
  unfolding cmd_ln ln_files
  cmd_ln_frame args io s = ground arith

  cmd_mkdir_frame :
      (args : List Bytes) (io : Io k) (s : Bytes)
      → cmd_mkdir k args (with_stdin s io) ≡ with_stdin s (cmd_mkdir k args io)
  unfolding cmd_mkdir
  cmd_mkdir_frame [] io s = refl
  cmd_mkdir_frame (d ∷ more) io s = ground arith

  cmd_rmdir_frame :
      (args : List Bytes) (io : Io k) (s : Bytes)
      → cmd_rmdir k args (with_stdin s io) ≡ with_stdin s (cmd_rmdir k args io)
  unfolding cmd_rmdir
  cmd_rmdir_frame [] io s = refl
  cmd_rmdir_frame (d ∷ more) io s = ground arith

  cmd_cd_frame :
      (args : List Bytes) (io : Io k) (s : Bytes)
      → cmd_cd k args (with_stdin s io) ≡ with_stdin s (cmd_cd k args io)
  unfolding cmd_cd
  cmd_cd_frame [] io s = ground arith
  cmd_cd_frame (d ∷ more) io s = ground arith

  cmd_pwd_frame :
      (io : Io k) (s : Bytes) → cmd_pwd k (with_stdin s io) ≡ with_stdin s (cmd_pwd k io)
  unfolding cmd_pwd
  cmd_pwd_frame io s = ground arith

  run_builtin_frame :
      (b : Builtin) (args : List Bytes) (io : Io k) (s : Bytes)
      → asks b ≡ false
      → run_builtin k o rounds b args (with_stdin s io)
        ≡ and_then (run_builtin k o rounds b args io) (λ io'. ended (with_stdin s io'))
  unfolding run_builtin
  run_builtin_frame cd args io s q = ap ended (cmd_cd_frame args io s)
  run_builtin_frame ls args io s q = elim (Option-cases (cmd_ls (o.directory io.world) args)) [
    | inl e ↦ rw e refl
    | inr (r, e) ↦ rw e refl
  ]
  run_builtin_frame pwd args io s q = ap ended (cmd_pwd_frame io s)
  run_builtin_frame mkdir args io s q = ap ended (cmd_mkdir_frame args io s)
  run_builtin_frame rmdir args io s q = ap ended (cmd_rmdir_frame args io s)
  run_builtin_frame ln args io s q = ap ended (cmd_ln_frame args io s)
  run_builtin_frame cp args io s q = absurd (cc)
  run_builtin_frame rm args io s q = absurd (cc)
  run_builtin_frame mv args io s q = absurd (cc)
  run_builtin_frame cat args io s q = refl
  run_builtin_frame grep args io s q = refl

-- A typed line with its words and the command that they name.
pub record Line : Type 0 where
  pub text : Bytes
  pub name : Bytes
  pub args : List Bytes
  pub command : Builtin

pub record IsLine (l : Line) : Type 0 where
  pub plain : IsPlain l.text
  pub words_are : words is_blank l.text ≡ l.name ∷ l.args
  pub plain_words : Plain (l.name ∷ l.args)
  pub short : length (l.name ∷ l.args) < max_arg_len
  pub known : builtin_of l.name ≡ some l.command
  pub silent : asks l.command ≡ false

-- The lines with their newlines, and what is typed behind them.
abbrev pub script : List Line → Bytes → Bytes
script [] rest = rest
script (l ∷ ls') rest = l.text ++ (10 ∷ script ls' rest)

handle_exit : handle_line (some (codes "exit")) ≡ some quit
unfolding handle_line str_eq
handle_exit = refl

module _ (k : Kernel) (o : Outside k) (rounds : ℕ) where
  -- The commands of the lines, one after the other.
  abbrev pub run_all : List Line → Io k → Result (Io k)
  run_all [] io = ended io
  run_all (l ∷ ls') io = and_then (run_builtin k o rounds l.command l.args io) (run_all ls')

  session_exit :
      (f : ℕ) (io : Io k) (rest : Bytes)
      → io.stdin ≡ codes "exit" ++ (10 ∷ rest)
      → session k o rounds (suc f) io
        ≡ ended (say k (said (codes "MyShell을 종료합니다.\n")) (record io { stdin = rest }))
  unfolding session continue
  session_exit f io rest typed =
      let e : o.readline io.stdin ≡ some (codes "exit", rest) =
        ap o.readline typed ∙ o.readline_line (codes "exit") rest (omega arith) in
      rw (e, handle_exit, session) refl

  -- Lines that name built-in commands which ask nothing, followed by the line exit: unless one of them
  -- overflows a buffer, the session ends, has done what the commands do one after the other, says that it
  -- ends, and has not read what was typed behind exit.
  pub session-script :
      (ls' : List Line) (f : ℕ) (io : Io k) (rest : Bytes)
      → All IsLine ls'
      → length ls' < f
      → session k o rounds f (record io { stdin = script ls' (codes "exit" ++ (10 ∷ rest)) })
        ≡ and_then (run_all ls' io) (λ io'.
          ended (say k (said (codes "MyShell을 종료합니다.\n")) (with_stdin k o rounds rest io')))
  session-script ls' zero io rest v lt = absurd (omega arith)
  session-script [] (suc f) io rest v lt =
      session_exit f (record io { stdin = codes "exit" ++ (10 ∷ rest) }) rest refl
  session-script (l ∷ ls') (suc f) io rest (vl, v) lt =
      let behind : Bytes = script ls' (codes "exit" ++ (10 ∷ rest)) in
      session_builtin k o rounds f (record io { stdin = l.text ++ (10 ∷ behind) }) l.text behind
        l.name l.args l.command refl vl.plain vl.words_are vl.plain_words vl.short vl.known
      ∙ ap (λ r. and_then r (session k o rounds f))
          (run_builtin_frame k o rounds l.command l.args io behind vl.silent)
      ∙ regroup (run_builtin k o rounds l.command l.args io) (with_stdin k o rounds behind)
          (session k o rounds f) (run_all ls') _
          (λ io'. session-script ls' f io' rest v (omega arith))
