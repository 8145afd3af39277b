-- ===== src/Shell/Session/Tests.antt =====
-- A session of project1/myshell.c at a small input.
use open_source_project.Prelude.{
  ◌≤◌, ◌<◌, ◌≡◌, ◌⊎◌, ◌≢◌, refl, ap, true, false, Option, none, some, List, [], ◌∷◌, ◌++◌, arith,
  ◌==◌, if◌then◌else◌, length, All, Bytes, codes, words_from, str_eq,
}
use open_source_project.Commands.Files.{Kernel, Io}
use open_source_project.Shell.Session.{Outside, ended, undefined, copying, session}
use open_source_project.Shell.Session.Ends.{Left, session_ends}
use open_source_project.Commands.Files.{failed, said, cmd_pwd, cmd_mkdir}
use open_source_project.Shell.Line.{mkdir, pwd, builtin_of}
use open_source_project.Shell.Session.{run_builtin}
use open_source_project.Shell.Session.Script.{Line, IsLine, session-script}
use open_source_project.Shell.Session.Typed.{IsPlain, typed_rm}

-- A system that holds the names of its files.
abbrev drop_name : Bytes → List Bytes → List Bytes
drop_name f [] = []
drop_name f (g ∷ gs) = let rest = drop_name f gs in if str_eq f g then rest else g ∷ rest

abbrev names : Kernel
names = record {
  World = List Bytes;
  exists = λ f w. true;
  unlink = λ f w. (true, drop_name f w);
  rename = λ f g w. (true, g ∷ drop_name f w);
  make_dir = λ f w. (true, f ∷ w);
  remove_dir = λ f w. (false, w);
  chdir = λ f w. (false, w);
  symlink = λ f g w. (false, w);
  link = λ f g w. (false, w);
  getcwd = λ w. none;
  home = λ w. none;
  open_read = λ f w. (none, w);
  open_write = λ f w. (none, w);
  read = λ fd n w. (none, w);
  write = λ fd b w. w;
  close = λ fd w. w;
}

-- A line and what is behind its newline.
unfoldable cut : Bytes → Bytes × Bytes
cut [] = ([], [])
cut (c ∷ s) = let r = cut s in if c == 10 then ([], s) else (c ∷ r.0, r.1)

length-cut : (s : Bytes) → length (cut s).1 ≤ length s
unfolding cut
length-cut [] = omega arith
length-cut (c ∷ s) = ground (arith, length-cut s)

cut_lem : (line rest : Bytes) → All (λ c. c ≢ 10) line → cut (line ++ (10 ∷ rest)) ≡ (line, rest)
unfolding cut
cut_lem [] rest h = refl
cut_lem (c ∷ line) rest (hc, h) =
    let z : (c == 10) ≡ false = ground arith in rw (cut_lem line rest h, z) refl

unfoldable next_line : Bytes → Option (Bytes × Bytes)
unfolding cut
next_line [] = none
next_line (c ∷ s) = some (cut (c ∷ s))

next_line_shorter : (s line rest : Bytes) → next_line s ≡ some (line, rest) → length rest < length s
unfolding next_line cut
next_line_shorter [] line rest e = absurd (cc)
next_line_shorter (c ∷ s) line rest e = ground (arith, length-cut s, e)

next_line_line :
    (line rest : Bytes)
    → All (λ c. c ≢ 10) line
    → next_line (line ++ (10 ∷ rest)) ≡ some (line, rest)
unfolding next_line
next_line_line [] rest h = ap some (cut_lem [] rest h)
next_line_line (c ∷ line) rest h = ap some (cut_lem (c ∷ line) rest h)

abbrev terminal : Outside names
terminal = record {
  file = λ w f. none;
  directory = λ w. record { names = λ f. none; lstat = λ f. none };
  run_pipeline = λ l r io. io;
  run_process = λ b r io. io;
  readline = next_line;
  pipeline_reads = λ l r io. omega arith;
  process_reads = λ b r io. omega arith;
  readline_shorter = next_line_shorter;
  readline_line = next_line_line;
}

abbrev typed : Io names
typed = record {
  world = codes "f" ∷ codes "g" ∷ [];
  stdin = codes "rm f -i\nyes\nexit\n";
  out = [];
}

session_ends_example :
    ((io' : Io names) × (session names terminal 0 40 typed ≡ ended io') × Left names terminal 0 io')
    ⊎ (session names terminal 0 40 typed ≡ undefined)
    ⊎ (session names terminal 0 40 typed ≡ copying)
session_ends_example = session_ends names terminal 0 40 typed (omega arith)

IsPlain-typed : IsPlain (codes "rm f -i")
IsPlain-typed = record {
  no_nul = ground arith;
  no_newline = ground arith;
  no_pipe = ground arith;
  no_amp = ground arith;
}

typed_rm_example :
    (io' : Io names) × (session names terminal 0 9 typed ≡ session names terminal 0 8 io')
    × (io'.stdin ≡ codes "exit\n")
    × (io'.world ≡ codes "g" ∷ [])
unfolding words_from str_eq
typed_rm_example =
    typed_rm names terminal 0 8 typed (codes "rm f -i") (codes "es") (codes "exit\n") (codes "f")
      b'y' (codes "f" ∷ codes "-i" ∷ []) refl IsPlain-typed refl ((refl, refl), ((refl, refl), tt))
      (omega arith) (ground arith) refl refl

abbrev two_lines : List Line
two_lines =
    record { text = codes "mkdir  d"; name = codes "mkdir"; args = codes "d" ∷ []; command = mkdir }
    ∷ record { text = codes "pwd"; name = codes "pwd"; args = []; command = pwd }
    ∷ []

two_lines-IsLine : All IsLine two_lines
unfolding words_from str_eq builtin_of
two_lines-IsLine = (
  record {
    plain = record {
      no_nul = omega arith;
      no_newline = omega arith;
      no_pipe = omega arith;
      no_amp = omega arith;
    };
    words_are = refl;
    plain_words = ((refl, refl), ((refl, refl), tt));
    short = omega arith;
    known = refl;
    silent = refl;
  },
  (
    record {
      plain = record {
        no_nul = omega arith;
        no_newline = omega arith;
        no_pipe = omega arith;
        no_amp = omega arith;
      };
      words_are = refl;
      plain_words = ((refl, refl), tt);
      short = omega arith;
      known = refl;
      silent = refl;
    },
    tt,
  ),
)

session-script_example :
    session names terminal 0 3 (record typed { stdin = codes "mkdir  d\npwd\nexit\nls\n" })
    ≡ ended (record {
      world = codes "d" ∷ codes "f" ∷ codes "g" ∷ [];
      stdin = codes "ls\n";
      out = failed (codes "pwd error") ∷ said (codes "MyShell을 종료합니다.\n") ∷ [];
    })
unfolding run_builtin cmd_pwd cmd_mkdir
session-script_example =
    session-script names terminal 0 two_lines 3 typed (codes "ls\n") two_lines-IsLine (omega arith)
