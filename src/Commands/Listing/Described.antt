-- ===== src/Commands/Listing/Described.antt =====
-- project1/commands.c, `cmd_ls`: the line of a name with -l, as its columns.
use open_source_project.Prelude.{
  ℕ, ◌-◌, ◌/◌, ◌%◌, ◌^◌, ◌≡◌, refl, sym, ap, ◌∙◌, Option, none, some, List, [], ◌∷◌, ◌++◌, inl, inr,
  arith, ◌==◌, if◌then◌else◌, Bool-cases, length, replicate, append_assoc, Bytes, codes,
}
use open_source_project.Prelude.Decimal.{print_nat}
use open_source_project.Commands.Listing.{
  Stat, is_dir, is_link, mode_string, arrow, name_or_unknown, long_line,
}

-- The type of a file, as `S_IFMT` cuts it out of the mode.
abbrev pub file_type : ℕ → ℕ
file_type mode = mode % 0x10000 - mode % 0x1000

abbrev pub kind_of : ℕ → ℕ
kind_of mode =
    if file_type mode == 0x4000 then b'd' else if file_type mode == 0xa000 then b'l' else b'-'

-- A row of letters for the lowest bits of the mode, a dash for a bit that is not set.
abbrev pub lettered : ℕ → Bytes → Bytes
lettered mode [] = []
lettered mode (c ∷ cs) = (if mode / 2 ^ length cs % 2 == 1 then c else b'-') ∷ lettered mode cs

abbrev pub padded : ℕ → Bytes → Bytes
padded w s = replicate (w - length s) b' ' ++ s

-- The columns with a blank between two of them, in front of the rest of the line.
abbrev pub in_columns : List Bytes → Bytes → Bytes
in_columns [] rest = rest
in_columns (c ∷ []) rest = c ++ rest
in_columns (c ∷ d ∷ cs) rest = c ++ (b' ' ∷ in_columns (d ∷ cs) rest)

abbrev pub known : Option Bytes → Bytes
known (some n) = n
known none = codes "unknown"

-- What follows the name: where a link points, if that can be read.
abbrev pub behind_name : ℕ → Option Bytes → Bytes
behind_name kind none = codes "\n"
behind_name kind (some t) = if kind == b'l' then codes " -> " ++ (t ++ codes "\n") else codes "\n"

-- Mode, links, user, group, size, time and name; nothing for a name that `lstat` fails on.
abbrev pub described : Bytes → Option Stat → Bytes
described name none = []
described name (some st) =
    in_columns
      ((kind_of st.mode ∷ lettered st.mode (codes "rwxrwxrwx"))
        ∷ print_nat st.nlink
        ∷ known st.user
        ∷ known st.group
        ∷ padded 5 (print_nat st.size)
        ∷ st.time
        ∷ name
        ∷ [])
      (behind_name (kind_of st.mode) st.target)

kind_of_lem :
    (mode : ℕ) → (if is_dir mode then b'd' else if is_link mode then b'l' else b'-') ≡ kind_of mode
kind_of_lem mode = ground arith

mode_string-lettered :
    (mode : ℕ) → mode_string mode ≡ kind_of mode ∷ lettered mode (codes "rwxrwxrwx")
unfolding mode_string
mode_string-lettered mode = ap (λ k. k ∷ lettered mode (codes "rwxrwxrwx")) (kind_of_lem mode)

arrow-behind_name :
    (mode : ℕ) (t : Option Bytes)
    → arrow (is_link mode) t ++ codes "\n" ≡ behind_name (kind_of mode) t
arrow-behind_name mode none = elim (Bool-cases (is_link mode)) [
  | inl e ↦ rw e refl
  | inr e ↦ rw e refl
]
arrow-behind_name mode (some t) = ground arith

name_or_unknown-known : (o : Option Bytes) → name_or_unknown o ≡ known o
name_or_unknown-known none = refl
name_or_unknown-known (some n) = refl

pub long_line-described : (name : Bytes) (o : Option Stat) → long_line name o ≡ described name o
unfolding long_line
long_line-described name none = refl
long_line-described name (some st) =
    let size = print_nat st.size in
    let rest = behind_name (kind_of st.mode) st.target in
    let pad =
      append_assoc (replicate (5 - length size) b' ') size
        (b' ' ∷ (st.time ++ (b' ' ∷ (name ++ rest)))) in
    (λ i.
      mode_string-lettered st.mode i
      ++ (b' '
          ∷ (print_nat st.nlink
              ++ (b' '
                  ∷ (name_or_unknown-known st.user i
                      ++ (b' '
                          ∷ (name_or_unknown-known st.group i
                              ++ (b' '
                                  ∷ (replicate (5 - length size) b' '
                                      ++ (size
                                          ++ (b' '
                                              ∷ (st.time
                                                  ++ (b' '
                                                      ∷ (name
                                                          ++ arrow-behind_name st.mode st.target
                                                            i))))))))))))))
    ∙ ap
        (λ t.
          (kind_of st.mode ∷ lettered st.mode (codes "rwxrwxrwx"))
          ++ (b' '
              ∷ (print_nat st.nlink
                  ++ (b' ' ∷ (known st.user ++ (b' ' ∷ (known st.group ++ (b' ' ∷ t))))))))
        (sym pad)
