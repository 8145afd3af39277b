-- ===== src/Commands/Args.antt =====
-- project1/commands.c: the loops over `argv` behind the command's name, and `confirm_action`.
use open_source_project.Prelude.{
  ℕ, ◌≡◌, ◌≢◌, refl, Bool, true, false, ◌||◌, not, Option, none, some, List, [], ◌∷◌, ◌++◌, arith,
  ◌==◌, if◌then◌else◌, get_elem?, keep, All, Bytes, codes, str_eq, starts_with,
}
use open_source_project.Prelude.Strings.{strstr}

-- The loop of `cmd_ln`, `cmd_cp` and `cmd_mv`: the flag, and the first two other arguments.
pub record Two : Type 0 where
  pub flag : Bool
  pub first : Option Bytes
  pub second : Option Bytes

unfoldable pub scan_two : Bytes → List Bytes → Two → Two
scan_two flag [] r = r
scan_two flag (a ∷ as') r = scan_two flag as' (
    if str_eq a flag then record r { flag = true } else (elim r.first [
      | none ↦ record r { first = some a }
      | some f ↦ elim r.second [ none ↦ record r { second = some a } | some g ↦ r ]
    ]))

-- The loop of `cmd_rm` and `cmd_cat`: the flag, and the last other argument.
pub record One : Type 0 where
  pub flag : Bool
  pub file : Option Bytes

unfoldable pub scan_one : Bytes → List Bytes → One → One
scan_one flag [] r = r
scan_one flag (a ∷ as') r =
    scan_one flag as'
      (if str_eq a flag then record r { flag = true } else record r { file = some a })

-- The loop of `cmd_grep`.
pub record Grep : Type 0 where
  pub n_flag : Bool
  pub i_flag : Bool
  pub pattern' : Option Bytes
  pub file : Option Bytes

unfoldable pub scan_grep : List Bytes → Grep → Grep
scan_grep [] r = r
scan_grep (a ∷ as') r = scan_grep as' (
    if str_eq a (codes "-n")
    then record r { n_flag = true }
    else if str_eq a (codes "-i")
    then record r { i_flag = true }
    else (elim r.pattern' [
      | none ↦ record r { pattern' = some a }
      | some p ↦ elim r.file [ none ↦ record r { file = some a } | some f ↦ r ]
    ]))

-- The loop of `cmd_ls`: a word that starts with - may hold both flags; the last other word is the path.
pub record Ls : Type 0 where
  pub a_flag : Bool
  pub l_flag : Bool
  pub path : Bytes

unfoldable pub scan_ls : List Bytes → Ls → Ls
scan_ls [] r = r
scan_ls (a ∷ as') r = scan_ls as' (
    if starts_with a (codes "-")
    then record r {
      a_flag = if strstr a (codes "a") then true else r.a_flag;
      l_flag = if strstr a (codes "l") then true else r.l_flag;
    }
    else record r { path = a })

-- The rest of a line of the standard input is read, up to its newline or the end of the input.
unfoldable pub skip_line : Bytes → Bytes
skip_line [] = []
skip_line (c ∷ s) = if c == 10 then s else skip_line s

-- `confirm_action`: the decision, and what is left of the standard input.
unfoldable pub confirm_action : Bytes → Bool × Bytes
unfolding skip_line
confirm_action [] = (false, [])
confirm_action (c ∷ s) = (c == b'y' || c == b'Y', skip_line s)

-- What the two kinds of loop stand for: the flag stands anywhere.
abbrev pub has : Bytes → List Bytes → Bool
has flag [] = false
has flag (a ∷ as') = if str_eq a flag then true else has flag as'

abbrev pub others : Bytes → List Bytes → List Bytes
others flag = keep (λ a. not (str_eq a flag))

abbrev pub last? : List Bytes → Option Bytes → Option Bytes
last? [] d = d
last? (a ∷ as') d = last? as' (some a)

scan_two_full :
    (flag : Bytes) (args : List Bytes) (f g : Bytes) (b : Bool)
    → scan_two flag args (record { flag = b; first = some f; second = some g })
      ≡ record { flag = b || has flag args; first = some f; second = some g }
unfolding scan_two
scan_two_full flag [] f g b = ground arith
scan_two_full flag (a ∷ as') f g b =
    ground (arith, scan_two_full flag as' f g b, scan_two_full flag as' f g true)

scan_two_first :
    (flag : Bytes) (args : List Bytes) (f : Bytes) (b : Bool)
    → scan_two flag args (record { flag = b; first = some f; second = none }) ≡ record {
      flag = b || has flag args;
      first = some f;
      second = get_elem? (others flag args) 0;
    }
unfolding scan_two
scan_two_first flag [] f b = ground arith
scan_two_first flag (a ∷ as') f b = ground (
  arith,
  scan_two_first flag as' f b,
  scan_two_first flag as' f true,
  scan_two_full flag as' f a b,
)

-- `ln`, `cp` and `mv` take their flag at any place among the arguments, and the first two other
-- arguments; further ones are ignored.
pub scan_two_lem :
    (flag : Bytes) (args : List Bytes) (b : Bool)
    → scan_two flag args (record { flag = b; first = none; second = none }) ≡ record {
      flag = b || has flag args;
      first = get_elem? (others flag args) 0;
      second = get_elem? (others flag args) 1;
    }
unfolding scan_two
scan_two_lem flag [] b = ground arith
scan_two_lem flag (a ∷ as') b =
    ground (arith, scan_two_lem flag as' b, scan_two_lem flag as' true, scan_two_first flag as' a b)

-- `rm` and `cat` take their flag at any place, and the last other argument: files before it are ignored.
pub scan_one_lem :
    (flag : Bytes) (args : List Bytes) (b : Bool) (d : Option Bytes)
    → scan_one flag args (record { flag = b; file = d })
      ≡ record { flag = b || has flag args; file = last? (others flag args) d }
unfolding scan_one
scan_one_lem flag [] b d = ground arith
scan_one_lem flag (a ∷ as') b d =
    ground (arith, scan_one_lem flag as' b (some a), scan_one_lem flag as' true d)

skip_line_lem :
    (line rest : Bytes) → All (λ c. c ≢ 10) line → skip_line (line ++ (10 ∷ rest)) ≡ rest
unfolding skip_line
skip_line_lem [] rest h = refl
skip_line_lem (c ∷ line) rest (h, hs) = ground (arith, skip_line_lem line rest hs)

-- An answer is one line, of which the first byte counts: y or Y. An empty line is no answer yet: the
-- byte that is tested is its newline, and the line behind it is read and dropped.
pub confirm_action_lem :
    (c : ℕ) (line rest : Bytes)
    → All (λ d. d ≢ 10) line
    → confirm_action (c ∷ (line ++ (10 ∷ rest))) ≡ (c == b'y' || c == b'Y', rest)
unfolding confirm_action
confirm_action_lem c line rest h = rw (skip_line_lem line rest h)
