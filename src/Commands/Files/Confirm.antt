-- ===== src/Commands/Files/Confirm.antt =====
-- project1/commands.c: when `rm`, `mv` and `cp` touch the file system.
use open_source_project.Prelude.{
  ℕ, ◌≡◌, refl, Bool, true, false, ◌&&◌, not, Option, none, some, List, arith, if◌then◌else◌,
  get_elem?, Bytes, codes,
}
use open_source_project.Commands.Args.{
  confirm_action, has, others, last?, scan_two_lem, scan_one_lem,
}
use open_source_project.Commands.Files.{
  Kernel, Io, ask, rm_file, cmd_rm, mv_files, cmd_mv, cp_named, cp_files, cmd_cp,
}

module _ (k : Kernel) where
  open k use {World, exists, unlink, rename}

  -- What `rm` does to the system.
  abbrev pub removed : Bool → Option Bytes → Bool → World → World
  removed i_flag none yes' w = w
  removed i_flag (some file) yes' w = if i_flag && not yes' then w else (unlink file w).1

  rm_file-removed :
      (b : Bool) (file : Option Bytes) (io : Io k)
      → (rm_file k (record { flag = b; file = file }) io).world
        ≡ removed b file (confirm_action io.stdin).0 io.world
  unfolding rm_file
  rm_file-removed b none io = refl
  rm_file-removed b (some file) io = ground arith

  -- `rm` makes one call, `unlink` of the last argument that is not -i, and makes it unless -i stands
  -- anywhere among the arguments and the answer is not y or Y.
  pub world-cmd_rm :
      (args : List Bytes) (io : Io k)
      → (cmd_rm k args io).world
        ≡ removed
            (has (codes "-i") args)
            (last? (others (codes "-i") args) none)
            (confirm_action io.stdin).0
            io.world
  unfolding cmd_rm
  world-cmd_rm args io =
      rw (scan_one_lem (codes "-i") args false none)
        (rm_file-removed (has (codes "-i") args) (last? (others (codes "-i") args) none) io)

  module _ (args : List Bytes) (src dest : Bytes) (io : Io k)
      (first : get_elem? (others (codes "-i") args) 0 ≡ some src)
      (second : get_elem? (others (codes "-i") args) 1 ≡ some dest) where
    -- `mv` makes one call, `rename` of the first two arguments that are not -i, and makes it unless -i
    -- stands among the arguments, the target exists and the answer is not y or Y.
    pub world-cmd_mv : (cmd_mv k args io).world ≡ (
        if has (codes "-i") args && (exists dest io.world && not (confirm_action io.stdin).0)
        then io.world
        else (rename src dest io.world).1)
    unfolding cmd_mv mv_files
    world-cmd_mv = rw (scan_two_lem (codes "-i") args false, first, second) (ground arith)

    -- With -i, an existing target and an answer that is not y or Y, `cp` leaves the system alone.
    pub world-cmd_cp_refused :
        (f : ℕ)
        → has (codes "-i") args ≡ true
        → exists dest io.world ≡ true
        → (confirm_action io.stdin).0 ≡ false
        → (io' : Io k) × (cmd_cp k f args io ≡ some io') × (io'.world ≡ io.world)
    unfolding cmd_cp cp_files cp_named
    world-cmd_cp_refused f flag there answer = (
      (ask k (codes "overwrite") dest io).1,
      rw (scan_two_lem (codes "-i") args false, first, second, flag, there, answer) refl,
      refl,
    )
