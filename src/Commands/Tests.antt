-- ===== src/Commands/Tests.antt =====
-- The built-in commands at small inputs.
use open_source_project.Prelude.{
  ◌≡◌, refl, true, false, Option, none, some, List, [], ◌∷◌, ◌++◌, arith, if◌then◌else◌, take, drop,
  Bytes, codes, str_eq, starts_with,
}
use open_source_project.Commands.Files.{Kernel, Io, copy_loop}
use open_source_project.Commands.Files.Copy.{Transfers, written-copy_loop}
use open_source_project.Commands.Args.{Grep}
use open_source_project.Commands.Listing.{Stat, Directory, listed, cmd_ls, mode_string}
use open_source_project.Commands.Listing.Entries.{cmd_ls_lem}
use open_source_project.Commands.Text.{grep_loop}
use open_source_project.Commands.Text.Lines.{grep_loop-unlines, unlines, selected, Matches}
use open_source_project.Prelude.Strings.{strstr}
use open_source_project.Prelude.Decimal.{print_nat}
use open_source_project.Prelude.{◌↔◌}

abbrev one_file : Bytes → Option Bytes
one_file f = if str_eq f (codes "f") then some (codes "ab\ncd\n") else none

abbrev two_lines : List Bytes
two_lines = codes "ab" ∷ codes "cd" ∷ []

abbrev numbers : Grep
numbers = record { n_flag = true; i_flag = false; pattern' = none; file = none }

grep_loop-unlines_example :
    (grep_loop 6 numbers (codes "c") 0 (unlines two_lines) ≡ codes "2: cd\n")
    × ((l : Bytes) → (selected false l (codes "c") ≡ true) ↔ Matches false l (codes "c"))
unfolding strstr starts_with print_nat
grep_loop-unlines_example =
    grep_loop-unlines two_lines 6 0 numbers (codes "c") (ground arith) (omega arith)

abbrev link_stat : Stat
link_stat = record {
  mode = 0xa1ff;
  nlink = 1;
  user = some (codes "lee");
  group = none;
  size = 3;
  time = codes "Nov 26 01:08";
  target = some (codes "b");
}

abbrev home_directory : Directory
home_directory = record {
  names = λ p. some (codes "." ∷ codes "b" ∷ codes ".c" ∷ codes "a" ∷ []);
  lstat = λ p. if str_eq p (codes "d/a") then some link_stat else none;
}

cmd_ls_lem_example :
    cmd_ls home_directory (codes "-l" ∷ codes "d" ∷ [])
    ≡ some (listed (codes "lrwxrwxrwx 1 lee unknown     3 Nov 26 01:08 a -> b\n"))
unfolding str_eq starts_with strstr print_nat
cmd_ls_lem_example = cmd_ls_lem home_directory (codes "-l" ∷ codes "d" ∷ [])

-- A system with one file to read, a byte at a time, and one to write.
record Disk : Type 0 where
  source : Bytes
  target : Bytes

abbrev next_byte : Disk → Bytes
next_byte d = take 1 d.source

abbrev disk : Kernel
disk = record {
  World = Disk;
  exists = λ f w. true;
  unlink = λ f w. (true, record w { target = [] });
  rename = λ f g w. (true, record { source = []; target = w.source });
  make_dir = λ f w. (false, w);
  remove_dir = λ f w. (false, w);
  chdir = λ f w. (false, w);
  symlink = λ f g w. (false, w);
  link = λ f g w. (false, w);
  getcwd = λ w. none;
  home = λ w. none;
  open_read = λ f w. (some 3, w);
  open_write = λ f w. (some 4, record w { target = [] });
  read = λ fd n w. (some (next_byte w), record w { source = drop 1 w.source });
  write = λ fd b w. record w { target = w.target ++ b };
  close = λ fd w. w;
}

disk_takes : (s : Bytes) → s ≡ take 1 s ++ drop 1 s
disk_takes [] = refl
disk_takes (c ∷ s) = refl

disk_ends : (s : Bytes) → take 1 s ≡ [] → s ≡ []
disk_ends [] e = refl
disk_ends (c ∷ s) e = cc

disk-Transfers : Transfers disk 3 4
disk-Transfers = record {
  left = λ w. w.source;
  written = λ w. w.target;
  chunk = next_byte;
  read_gives = λ w. refl;
  read_takes = λ w. disk_takes w.source;
  read_ends = λ w. disk_ends w.source;
  read_keeps = λ w. refl;
  write_adds = λ b w. refl;
  write_keeps = λ b w. refl;
}

abbrev full : Disk
full = record { source = codes "abc"; target = [] }

abbrev refusing : Io disk
refusing = record { world = full; stdin = codes "n\n"; out = [] }

-- More rounds than the file has bytes.
written-copy_loop_example :
    (v : Disk) × (copy_loop disk 4 3 4 full ≡ some v)
    × (v.target ≡ [] ++ codes "abc")
    × (v.source ≡ [])
unfolding disk-Transfers
written-copy_loop_example = written-copy_loop disk 3 4 disk-Transfers 4 full (omega arith)

directory_mode : mode_string 0x41ed ≡ codes "drwxr-xr-x"
unfolding mode_string
directory_mode = refl
