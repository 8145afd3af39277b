-- ===== src/ReadLoops.antt =====
-- lab2/ch7/textCount.c, file_copy.c and password.c: the programs around one loop of `read`. What the calls
-- give is an argument; a `read` gives none for -1 and no byte at the end, and so does every one behind the
-- list.
mod Tests
pub mod Totals
use open_source_project.Prelude.{
  ℕ, suc, ◌+◌, ◌-◌, ◌%◌, ◌^◌, ltb, if◌then◌else◌, Bool, true, false, Option, none, some, List, [],
  ◌∷◌, ◌++◌, length, take, Bytes, codes, str_eq, cstr,
}
use open_source_project.Prelude.Int.{ℤ, pos, negsuc}
use open_source_project.Prelude.Decimal.{print_int}
use open_source_project.WebServer.{◌+ℤ◌}

-- A program ends with `exit(1)` and a message, or with what it prints.
pub data Outcome : Type 0 where
  error : Outcome
  prints : Bytes → Outcome

-- The loop of textCount.c, from a total on: a `read` that fails ends it like the end of the file.
unfoldable pub count_loop : List (Option Bytes) → ℤ → ℤ
count_loop [] total = total
count_loop (none ∷ rs) total = total
count_loop (some [] ∷ rs) total = total
count_loop (some (c ∷ b) ∷ rs) total = count_loop rs (total +ℤ pos (length (c ∷ b)))

abbrev pub text_total : ℤ → Bytes
text_total n = codes "total chars in anotherfile: " ++ (print_int n ++ codes "\n")

unfoldable pub text_count : Bool → List (Option Bytes) → Outcome
unfolding count_loop
text_count false rs = error
text_count true rs = prints (text_total (count_loop rs (pos 0)))

-- What a round of file_copy.c gets: the result of `read`, and of `write`, the number of bytes that it
-- took or none for -1.
pub record Round : Type 0 where
  pub got : Option Bytes
  pub took : Option ℕ

-- What `write` leaves in the target, and its result as a number.
abbrev pub written : Bytes → Option ℕ → Bytes
written b none = []
written b (some n) = take n b

abbrev pub count_of : Option ℕ → ℤ
count_of none = negsuc 0
count_of (some n) = pos n

-- The target and the total behind the loop, and whether the last `read` failed.
pub record Copied : Type 0 where
  pub target : Bytes
  pub total : ℤ
  pub broken : Bool

unfoldable pub copy_rounds : List Round → Bytes → ℤ → Copied
copy_rounds [] target total = record { target = target; total = total; broken = false }
copy_rounds (k ∷ ks) target total = elim k.got [
  | none ↦ record { target = target; total = total; broken = true }
  | some [] ↦ record { target = target; total = total; broken = false }
  | some (c ∷ b) ↦ copy_rounds ks (target ++ written (c ∷ b) k.took) (total +ℤ count_of k.took)
]

-- A number of 64 bits that is read as one of 32 bits: the lower half.
abbrev pub low_half : ℤ → ℤ
low_half (pos n) = let m = n % 2 ^ 32 in if ltb m (2 ^ 31) then pos m else negsuc (2 ^ 32 - 1 - m)
low_half (negsuc n) =
    let m = n % 2 ^ 32 in if ltb m (2 ^ 31) then negsuc m else pos (2 ^ 32 - 1 - m)

-- `%d` is given an `ssize_t`, which C leaves undefined; a machine of 64 bits prints the lower half.
abbrev pub copy_total : ℤ → Bytes
copy_total z = let n = low_half z in codes "total write count = " ++ (print_int n ++ codes "\n")

-- `main` of file_copy.c: the target's new content if it was made, and the outcome.
abbrev pub outcome_of : Copied → Outcome
outcome_of r = elim r.broken [ true ↦ error | false ↦ prints (copy_total r.total) ]

unfoldable pub file_copy : List Bytes → Bool → Bool → List Round → Option Bytes × Outcome
unfolding copy_rounds
file_copy (src ∷ dst ∷ args) true true ks =
    let r = copy_rounds ks [] (pos 0) in (some r.target, outcome_of r)
file_copy (src ∷ dst ∷ args) true false ks = (none, error)
file_copy (src ∷ dst ∷ args) false creat_dst ks = (none, error)
file_copy args open_src creat_dst ks = (none, error)

-- The loop of password.c over the reads of the terminal: what goes to the standard output up to its end, and whether a
-- read was the password. `buf[nread-1]` is the newline, or the last byte of what was read. The text that
-- is printed behind the loop does not depend on how it ended.
unfoldable pub password_loop : List (Option Bytes) → Bytes × Bool
unfolding str_eq
password_loop [] = ([], false)
password_loop (none ∷ rs) = ([], false)
password_loop (some [] ∷ rs) = ([], false)
password_loop (some (c ∷ b) ∷ rs) =
    let more = password_loop rs in
    elim (str_eq (cstr (take (length b) (c ∷ b))) (codes "secret")) [
      | true ↦ (codes "\n", true)
      | false ↦ (codes "\n패스워드가 틀렸습니다.\n" ++ more.0, more.1)
    ]

unfoldable pub password : List (Option Bytes) → Bytes
unfolding password_loop
password rs = (password_loop rs).0 ++ codes "패스워드 입력이 성공했습니다.\n"
