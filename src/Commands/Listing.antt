-- ===== src/Commands/Listing.antt =====
-- project1/commands.c, `cmd_ls`. The directory, `lstat`, `readlink` and the names of users and groups
-- are a parameter. `none` is an overflow of `fullpath`.
pub mod Described
pub mod Entries
use open_source_project.Prelude.{
  ℕ, ◌+◌, ◌-◌, ◌*◌, ◌/◌, ◌%◌, ◌≡◌, ◌≢◌, ◌↔◌, refl, Bool, true, false, ◌&&◌, not, Option, none, some,
  List, [], ◌∷◌, ◌++◌, arith, ltb, ◌==◌, if◌then◌else◌, length, get_or, drop, replicate, Bytes,
  codes, starts_with,
}
use open_source_project.Prelude.Decimal.{print_nat}
use open_source_project.Commands.Args.{Ls, scan_ls}
use open_source_project.ChatServer.Registry.{◌>>=◌}

-- What `lstat`, `getpwuid`, `getgrgid`, `localtime`, `strftime` and `readlink` say of a name.
pub record Stat : Type 0 where
  pub mode : ℕ
  pub nlink : ℕ
  pub user : Option Bytes
  pub group : Option Bytes
  pub size : ℕ
  pub time : Bytes
  pub target : Option Bytes

-- The names of a directory, in the order of `readdir`, and `lstat` of a path.
pub record Directory : Type 0 where
  pub names : Bytes → Option (List Bytes)
  pub lstat : Bytes → Option Stat

-- `S_ISDIR` and `S_ISLNK`: the bits above the lowest twelve.
abbrev pub is_dir : ℕ → Bool
is_dir mode = mode / 0x1000 % 16 == 4

abbrev pub is_link : ℕ → Bool
is_link mode = mode / 0x1000 % 16 == 10

-- The character for the bit of value `2 ^ k`.
abbrev pub bit_char : ℕ → ℕ → ℕ → ℕ
bit_char mode weight c = if mode / weight % 2 == 1 then c else b'-'

-- The ten `printf`s: the kind, and r, w, x for the user, the group and the others.
unfoldable pub mode_string : ℕ → Bytes
mode_string mode =
    (if is_dir mode then b'd' else if is_link mode then b'l' else b'-')
    ∷ bit_char mode 256 b'r'
    ∷ bit_char mode 128 b'w'
    ∷ bit_char mode 64 b'x'
    ∷ bit_char mode 32 b'r'
    ∷ bit_char mode 16 b'w'
    ∷ bit_char mode 8 b'x'
    ∷ bit_char mode 4 b'r'
    ∷ bit_char mode 2 b'w'
    ∷ bit_char mode 1 b'x'
    ∷ []

abbrev name_or_unknown : Option Bytes → Bytes
name_or_unknown none = codes "unknown"
name_or_unknown (some n) = n

abbrev arrow : Bool → Option Bytes → Bytes
arrow true (some t) = codes " -> " ++ t
arrow _ _ = []

-- One entry with -l; none where `lstat` fails.
unfoldable pub long_line : Bytes → Option Stat → Bytes
unfolding mode_string
long_line name none = []
long_line name (some st) =
    mode_string st.mode
    ++ (codes " "
        ++ (print_nat st.nlink
            ++ (codes " "
                ++ (name_or_unknown st.user
                    ++ (codes " "
                        ++ (name_or_unknown st.group
                            ++ (codes " "
                                ++ (replicate (5 - length (print_nat st.size)) 32
                                    ++ (print_nat st.size
                                        ++ (codes " "
                                            ++ (st.time
                                                ++ (codes " "
                                                    ++ (name
                                                        ++ (arrow (is_link st.mode) st.target
                                                            ++ codes "\n"))))))))))))))

-- `sprintf(fullpath, "%s/%s", path, entry->d_name)` into `fullpath[1024]`.
unfoldable pub full_path : Bytes → Bytes → Option Bytes
full_path path name =
    let p = path ++ (codes "/" ++ name) in if ltb (length p) 1024 then some p else none

-- The body of the loop.
unfoldable pub entry_text : (Bytes → Option Stat) → Ls → Bytes → Option Bytes
unfolding long_line full_path
entry_text lstat r name =
    if not r.a_flag && starts_with name (codes ".")
    then some []
    else if r.l_flag
    then (full_path r.path name >>= λ p. some (long_line name (lstat p)))
    else some (name ++ codes "  ")

-- The loop over `readdir`.
unfoldable pub list_entries : (Bytes → Option Stat) → Ls → List Bytes → Option Bytes
unfolding entry_text
list_entries lstat r [] = some []
list_entries lstat r (name ∷ names) =
    entry_text lstat r name >>= λ e. list_entries lstat r names >>= λ rest. some (e ++ rest)

-- The line of `perror` for `opendir`, or the listing.
pub data Listed : Type 0 where
  open_failed : Listed
  listed : Bytes → Listed

unfoldable pub ls_path : Directory → Ls → Option Listed
unfolding list_entries
ls_path d r = elim (d.names r.path) [
  | none ↦ some open_failed
  | some names ↦ list_entries d.lstat r names >>= λ s.
      some (listed (s ++ (if r.l_flag then [] else codes "\n")))
]

unfoldable pub cmd_ls : Directory → List Bytes → Option Listed
unfolding ls_path
cmd_ls d args =
    ls_path d (scan_ls args (record { a_flag = false; l_flag = false; path = codes "." }))

-- The number that a row of permission characters spells, one bit for each.
abbrev pub spelled : Bytes → ℕ → ℕ
spelled [] acc = acc
spelled (c ∷ s) acc = spelled s (acc * 2 + (if c == b'-' then 0 else 1))

bit_char_lem :
    (mode weight c : ℕ)
    → c ≢ b'-'
    → (if bit_char mode weight c == b'-' then 0 else 1) ≡ mode / weight % 2
bit_char_lem mode weight c ne = ground arith

-- The nine characters behind the kind spell the permission bits of the mode, and the kind is d exactly
-- for a directory and l exactly for a symbolic link.
pub mode_string_lem :
    (mode : ℕ)
    → (length (mode_string mode) ≡ 10)
      × (spelled (drop 1 (mode_string mode)) 0 ≡ mode % 512)
      × ((get_or (mode_string mode) 0 0 ≡ b'd') ↔ (is_dir mode ≡ true))
      × ((get_or (mode_string mode) 0 0 ≡ b'l') ↔ (is_link mode ≡ true))
unfolding mode_string
mode_string_lem mode = (
  refl,
  rw
      (
        bit_char_lem mode 256 b'r' (omega arith),
        bit_char_lem mode 128 b'w' (omega arith),
        bit_char_lem mode 64 b'x' (omega arith),
        bit_char_lem mode 32 b'r' (omega arith),
        bit_char_lem mode 16 b'w' (omega arith),
        bit_char_lem mode 8 b'x' (omega arith),
        bit_char_lem mode 4 b'r' (omega arith),
        bit_char_lem mode 2 b'w' (omega arith),
        bit_char_lem mode 1 b'x' (omega arith),
      )
      (omega arith),
  ground arith,
  ground arith,
)
