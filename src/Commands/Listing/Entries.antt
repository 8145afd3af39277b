-- ===== src/Commands/Listing/Entries.antt =====
-- project1/commands.c, `cmd_ls`: what is listed.
use open_source_project.Prelude.{
  ◌≡◌, refl, ap, ◌∙◌, Bool, true, false, ◌&&◌, ◌||◌, not, Option, none, some, List, [], ◌∷◌, ◌++◌,
  inl, inr, arith, ltb, if◌then◌else◌, Bool-cases, Option-cases, length, keep, Bytes, codes,
  starts_with,
}
use open_source_project.Prelude.Strings.{strstr}
use open_source_project.ChatServer.Registry.{◌>>=◌}
use open_source_project.Commands.Args.{scan_ls}
use open_source_project.Commands.Listing.Described.{described, long_line-described}
use open_source_project.Commands.Listing.{
  Stat, Directory, long_line, full_path, entry_text, list_entries, Listed, open_failed, listed,
  ls_path, cmd_ls,
}

-- Some word with a dash in front has the letter.
abbrev pub any_flag : Bytes → List Bytes → Bool
any_flag letter [] = false
any_flag letter (a ∷ as') = (starts_with a (codes "-") && strstr a letter) || any_flag letter as'

-- The last word without a dash, or else the default.
abbrev pub last_path : List Bytes → Bytes → Bytes
last_path [] d = d
last_path (a ∷ as') d = last_path as' (if starts_with a (codes "-") then d else a)

scan_ls_lem :
    (args : List Bytes) (a l : Bool) (p : Bytes)
    → scan_ls args (record { a_flag = a; l_flag = l; path = p }) ≡ record {
      a_flag = a || any_flag (codes "a") args;
      l_flag = l || any_flag (codes "l") args;
      path = last_path args p;
    }
unfolding scan_ls
scan_ls_lem [] a l p = ground arith
scan_ls_lem (w ∷ ws) a l p = ground (
  arith,
  scan_ls_lem ws (if strstr w (codes "a") then true else a)
      (if strstr w (codes "l") then true else l) p,
  scan_ls_lem ws a l w,
)

-- The names that are listed: without -a those that begin with a dot are left out.
abbrev pub visible : Bool → List Bytes → List Bytes
visible all = keep (λ name. all || not (starts_with name (codes ".")))

-- What is printed for them: with -l a line for each that `lstat` can describe. And whether their paths fit.
abbrev pub entries : (Bytes → Option Stat) → Bytes → Bool → List Bytes → Bytes
entries lstat path long [] = []
entries lstat path long (name ∷ names) =
    (if long then described name (lstat (path ++ (codes "/" ++ name))) else name ++ codes "  ")
    ++ entries lstat path long names

abbrev pub all_fit : Bytes → List Bytes → Bool
all_fit path [] = true
all_fit path (name ∷ names) = ltb (length (path ++ (codes "/" ++ name))) 1024 && all_fit path names

bind_if :
    (b : Bool) (x y : Bytes)
    → ((if b then some y else none) >>= λ r. some (x ++ r)) ≡ (if b then some (x ++ y) else none)
bind_if true x y = refl
bind_if false x y = refl

first_entry :
    (lstat : Bytes → Option Stat) (l : Bool) (path name : Bytes) (b : Bool) (y : Bytes)
    → ((if l
          then (full_path path name >>= λ p. some (long_line name (lstat p)))
          else some (name ++ codes "  "))
        >>= λ e. (if not l || b then some y else none) >>= λ rest. some (e ++ rest))
      ≡ (if not l || (ltb (length (path ++ (codes "/" ++ name))) 1024 && b)
          then some (
              (if l
                then described name (lstat (path ++ (codes "/" ++ name)))
                else name ++ codes "  ")
              ++ y)
          else none)
unfolding full_path
first_entry lstat false path name b y = refl
first_entry lstat true path name b y =
    rw (← long_line-described name (lstat (path ++ (codes "/" ++ name))))
      (elim (Bool-cases (ltb (length (path ++ (codes "/" ++ name))) 1024)) [
        | inl fits ↦ rw fits (bind_if b (long_line name (lstat (path ++ (codes "/" ++ name)))) y)
        | inr over ↦ rw over refl
      ])

list_entries_lem :
    (lstat : Bytes → Option Stat) (a l : Bool) (path : Bytes) (names : List Bytes)
    → list_entries lstat (record { a_flag = a; l_flag = l; path = path }) names ≡ (
        if not l || all_fit path (visible a names)
        then some (entries lstat path l (visible a names))
        else none)
unfolding list_entries entry_text full_path
list_entries_lem lstat a l path [] = ground arith
list_entries_lem lstat a l path (name ∷ names) =
    elim (Bool-cases (a || not (starts_with name (codes ".")))) [
      | inr hidden ↦
          (let skip : (not a && starts_with name (codes ".")) ≡ true = ground arith in
            rw (hidden, skip, list_entries_lem lstat a l path names)
              (bind_if (not l || all_fit path (visible a names)) []
                (entries lstat path l (visible a names))))
      | inl shown ↦
          (let skip : (not a && starts_with name (codes ".")) ≡ false = ground arith in
            rw (shown, skip, list_entries_lem lstat a l path names)
              (first_entry lstat l path name (all_fit path (visible a names))
                (entries lstat path l (visible a names))))
    ]

-- What `ls` promises for the names of the directory.
abbrev pub listing :
    (Bytes → Option Stat) → Bytes → Bool → Bool → Option (List Bytes) → Option Listed
listing lstat path all long none = some open_failed
listing lstat path all long (some names) =
    if not long || all_fit path (visible all names)
    then some
        (listed (entries lstat path long (visible all names) ++ (if long then [] else codes "\n")))
    else none

ls_path_lem :
    (d : Directory) (a l : Bool) (path : Bytes)
    → ls_path d (record { a_flag = a; l_flag = l; path = path })
      ≡ listing d.lstat path a l (d.names path)
unfolding ls_path
ls_path_lem d a l path = elim (Option-cases (d.names path)) [
  | inl e ↦ rw (e, ls_path) refl
  | inr (names, e) ↦
      rw (e, ls_path)
        (rw (list_entries_lem d.lstat a l path names)
          (elim (Bool-cases (not l || all_fit path (visible a names))) [
            | inl f ↦ rw f refl
            | inr f ↦ rw f refl
          ]))
]

-- `ls` lists the directory that is named last, in the order of `readdir`: every name but those that begin
-- with a dot, or every name with -a, the flag anywhere in any word with a dash. With -l each name that
-- `lstat` can describe has a line with its kind, the letters of its nine permission bits, links, user
-- and group or unknown for them, size in five columns, time, name and, for a link, where it points, and a name that `lstat` fails
-- on has none; else the names stand in one line. With -l, and only with it, a name that is listed overflows the buffer if
-- it has 1023 bytes or more together with the path.
pub cmd_ls_lem :
    (d : Directory) (args : List Bytes)
    → cmd_ls d args
      ≡ listing d.lstat
          (last_path args (codes "."))
          (any_flag (codes "a") args)
          (any_flag (codes "l") args)
          (d.names (last_path args (codes ".")))
unfolding cmd_ls
cmd_ls_lem d args =
    ap (ls_path d) (scan_ls_lem args false false (codes "."))
    ∙ ls_path_lem d (any_flag (codes "a") args) (any_flag (codes "l") args)
        (last_path args (codes "."))
