-- ===== src/Commands/Files.antt =====
-- project1/commands.c: the commands that change the file system. The system calls are a parameter.
pub mod Confirm
pub mod Copy
use open_source_project.Prelude.{
  ℕ, zero, suc, ◌+◌, ◌-◌, ◌*◌, ◌/◌, ◌%◌, ◌^◌, ◌≤◌, ◌<◌, ◌≡◌, ◌≢◌, ◌↔◌, ◌⊎◌, inl, inr, refl, sym, ap,
  ◌∙◌, Bool, true, false, ◌&&◌, ◌||◌, not, Option, none, some, List, [], ◌∷◌, ◌++◌, map,
  append_assoc, append-nil, arith, dec_lt, ℕ_discrete, ltb, leb, ◌==◌, ==_iff, if◌then◌else◌,
  Bool-cases, Option-cases, length, get_elem?, get_or, set, take, drop, replicate, length-append,
  length-set, get_or-set_self, get_or-set_ne, get_elem?-set_self, get_elem?-set_ne, keep, words,
  words_from, is_space, IsWord, words-append_blank, words_last, All, All-append, Bytes, codes,
  str_eq, str_eq_iff, str_eq_sound, str_eq_refl, starts_with, cstr, NoNul, cstr-append_nul,
  cstr_of_NoNul,
}
use open_source_project.ChatServer.Registry.{◌>>=◌}
use open_source_project.Commands.Args.{Two, One, scan_two, scan_one, confirm_action}

-- The system calls, on the state of the system. A call gives whether it succeeded; `open_read` and
-- `open_write` give a descriptor, and `read` the bytes or, where it fails, none.
pub record Kernel : Type 1 where
  pub World : Type 0
  pub exists : Bytes → World → Bool
  pub unlink : Bytes → World → Bool × World
  pub rename : Bytes → Bytes → World → Bool × World
  pub make_dir : Bytes → World → Bool × World
  pub remove_dir : Bytes → World → Bool × World
  pub chdir : Bytes → World → Bool × World
  pub symlink : Bytes → Bytes → World → Bool × World
  pub link : Bytes → Bytes → World → Bool × World
  pub getcwd : World → Option Bytes
  pub home : World → Option Bytes
  pub open_read : Bytes → World → Option ℕ × World
  pub open_write : Bytes → World → Option ℕ × World
  pub read : ℕ → ℕ → World → Option Bytes × World
  pub write : ℕ → Bytes → World → World
  pub close : ℕ → World → World

-- What a command prints: its usage, the line of `perror` with its text, or other text.
pub data Message : Type 0 where
  usage : Message
  failed : Bytes → Message
  said : Bytes → Message

module _ (k : Kernel) where
  open k use {
    World, exists, unlink, rename, make_dir, remove_dir, chdir, symlink, link, getcwd, home,
    open_read, open_write, read, write, close,
  }

  -- The system, the standard input that is not read yet, and what was printed.
  pub record Io : Type 0 where
    pub world : World
    pub stdin : Bytes
    pub out : List Message

  abbrev pub say : Message → Io → Io
  say m io = record io { out = io.out ++ (m ∷ []) }

  -- `if (call != 0) perror(text);`
  abbrev pub try_call : (World → Bool × World) → Bytes → Io → Io
  try_call call text io =
      let (ok, w) = call io.world in
      if ok then record io { world = w } else say (failed text) (record io { world = w })

  -- `printf` of the question, and `confirm_action`.
  abbrev pub ask : Bytes → Bytes → Io → Bool × Io
  ask msg file io =
      let (ok, rest) = confirm_action io.stdin in
      (
        ok,
        record io {
          stdin = rest;
          out = io.out ++ (said (msg ++ (codes " '" ++ (file ++ codes "'? (y/n): "))) ∷ []);
        },
      )

  unfoldable pub rm_file : One → Io → Io
  rm_file r io = elim r.file [
    | none ↦ say usage io
    | some file ↦
        let (ok, io') = ask (codes "remove") file io in
        let remove = try_call (unlink file) (codes "rm failed") in
        if r.flag then (if ok then remove io' else io') else remove io
  ]

  unfoldable pub cmd_rm : List Bytes → Io → Io
  unfolding rm_file
  cmd_rm args = rm_file (scan_one (codes "-i") args (record { flag = false; file = none }))

  -- `if (i_flag && access(dest, F_OK) == 0) { if (!confirm_action("overwrite", dest)) return; }` before
  -- the rest of the command.
  abbrev pub unless_refused : Bool → Bytes → (Io → Io) → Io → Io
  unless_refused i_flag dest go io =
      let (ok, io') = ask (codes "overwrite") dest io in
      if i_flag && exists dest io.world then (if ok then go io' else io') else go io

  abbrev pub with_two : Two → (Bytes → Bytes → Io → Io) → Io → Io
  with_two r go io = elim r.first [
    | none ↦ say usage io
    | some a ↦ elim r.second [ none ↦ say usage io | some b ↦ go a b io ]
  ]

  abbrev pub no_args : Two
  no_args = record { flag = false; first = none; second = none }

  unfoldable pub mv_files : Two → Io → Io
  mv_files r =
      with_two r
        λ src dest. unless_refused r.flag dest (try_call (rename src dest) (codes "mv failed"))

  unfoldable pub cmd_mv : List Bytes → Io → Io
  unfolding mv_files
  cmd_mv args = mv_files (scan_two (codes "-i") args no_args)

  -- `while ((n = read(sfd, buf, sizeof(buf))) > 0) write(dfd, buf, n);` with `f` rounds at most;
  -- `none` is a loop that goes on behind them. The result of `write` is not looked at.
  unfoldable pub copy_loop : ℕ → ℕ → ℕ → World → Option World
  copy_loop zero sfd dfd w = none
  copy_loop (suc f) sfd dfd w =
      let (bytes, w') = read sfd 4096 w in
      elim bytes [
        | none ↦ some w'
        | some b ↦
            let more = copy_loop f sfd dfd (write dfd b w') in
            if length b == 0 then some w' else more
      ]

  unfoldable pub copy_files : ℕ → Bytes → Bytes → Io → Option Io
  unfolding copy_loop
  copy_files f src dest io =
      let (sfd, w) = open_read src io.world in
      elim sfd [
        | none ↦ some (say (failed (codes "src open error")) (record io { world = w }))
        | some s ↦
            (let (dfd, w') = open_write dest w in
              elim dfd [
                | none ↦
                    some (say (failed (codes "dest open error")) (record io { world = close s w' }))
                | some d ↦
                    copy_loop f s d w' >>= λ v. some (record io { world = close d (close s v) })
              ])
      ]

  -- `f` bounds the rounds of the copy.
  unfoldable pub cp_named : ℕ → Bool → Bytes → Bytes → Io → Option Io
  unfolding copy_files
  cp_named f i_flag src dest io =
      let (ok, io') = ask (codes "overwrite") dest io in
      if i_flag && exists dest io.world
      then (if ok then copy_files f src dest io' else some io')
      else copy_files f src dest io

  unfoldable pub cp_files : ℕ → Two → Io → Option Io
  unfolding cp_named
  cp_files f r io = elim r.first [
    | none ↦ some (say usage io)
    | some src ↦ elim r.second [
      | none ↦ some (say usage io)
      | some dest ↦ cp_named f r.flag src dest io
    ]
  ]

  unfoldable pub cmd_cp : ℕ → List Bytes → Io → Option Io
  unfolding cp_files
  cmd_cp f args = cp_files f (scan_two (codes "-i") args no_args)

  unfoldable pub ln_files : Two → Io → Io
  ln_files r = with_two r λ target linkname io.
      let call = if r.flag then symlink target linkname else link target linkname in
      let (ok, w) = call io.world in
      let kind = if r.flag then codes "Symbolic" else codes "Hard" in
      let io' = record io { world = w } in
      if ok
      then say
          (said (
            kind
            ++ (codes " link created: " ++ (linkname ++ (codes " -> " ++ (target ++ codes "\n"))))))
          io'
      else say (failed (if r.flag then codes "symlink failed" else codes "link failed")) io'

  unfoldable pub cmd_ln : List Bytes → Io → Io
  unfolding ln_files
  cmd_ln args = ln_files (scan_two (codes "-s") args no_args)

  unfoldable pub cmd_mkdir : List Bytes → Io → Io
  cmd_mkdir [] io = say usage io
  cmd_mkdir (d ∷ more) io = try_call (make_dir d) (codes "mkdir failed") io

  unfoldable pub cmd_rmdir : List Bytes → Io → Io
  cmd_rmdir [] io = say usage io
  cmd_rmdir (d ∷ more) io = try_call (remove_dir d) (codes "rmdir failed") io

  -- `chdir(NULL)` fails.
  unfoldable pub cmd_cd : List Bytes → Io → Io
  cmd_cd (d ∷ more) io = try_call (chdir d) (codes "cd error") io
  cmd_cd [] io = elim (home io.world) [
    | none ↦ say (failed (codes "cd error")) io
    | some d ↦ try_call (chdir d) (codes "cd error") io
  ]

  unfoldable pub cmd_pwd : Io → Io
  cmd_pwd io = elim (getcwd io.world) [
    | none ↦ say (failed (codes "pwd error")) io
    | some d ↦ say (said (d ++ codes "\n")) io
  ]
