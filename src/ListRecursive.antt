-- ===== src/ListRecursive.antt =====
-- lab2/ls_R.c: the recursive listing of a directory. The directories and `lstat` are a parameter; both
-- passes over a directory see the same names.
mod Tests
pub mod Tree
use open_source_project.Prelude.{
  ℕ, zero, suc, ◌+◌, ◌-◌, ◌*◌, ◌/◌, ◌%◌, ◌^◌, ◌≤◌, ◌<◌, ◌≡◌, ◌≢◌, ◌↔◌, ◌⊎◌, inl, inr, refl, sym, ap,
  ◌∙◌, Bool, true, false, ◌&&◌, ◌||◌, not, Option, none, some, List, [], ◌∷◌, ◌++◌, map,
  append_assoc, append-nil, arith, dec_lt, ℕ_discrete, ltb, leb, ◌==◌, ==_iff, if◌then◌else◌,
  Bool-cases, Option-cases, length, get_elem?, get_or, set, take, drop, replicate, length-append,
  length-set, get_or-set_self, get_or-set_ne, get_elem?-set_self, get_elem?-set_ne, keep, words,
  words_from, is_space, IsWord, words-append_blank, words_last, All, All-append, Bytes, codes,
  str_eq, str_eq_iff, str_eq_sound, str_eq_refl, starts_with, cstr, NoNul, cstr-append_nul,
  cstr_of_NoNul,
}
use open_source_project.ChatServer.Registry.{◌>>=◌}

-- The names of a directory in the order of `readdir`, none where `opendir` fails; and whether `lstat`
-- succeeds and tells a directory.
pub record Files : Type 0 where
  pub names : Bytes → Option (List Bytes)
  pub is_dir : Bytes → Bool

-- `strcmp(entry->d_name, ".") == 0 || strcmp(entry->d_name, "..") == 0`
unfoldable pub is_dot : Bytes → Bool
is_dot name = str_eq name (codes ".") || str_eq name (codes "..")

-- The first loop: the names in one line.
unfoldable pub name_line : List Bytes → Bytes
unfolding is_dot
name_line [] = []
name_line (n ∷ ns) = let rest = name_line ns in if is_dot n then rest else n ++ (codes "  " ++ rest)

-- `sprintf(path, "%s/%s", base_path, entry->d_name)` into 1024 bytes.
unfoldable pub join_path : Bytes → Bytes → Option Bytes
join_path base n =
    let path = base ++ (b'/' ∷ n) in if ltb (length path) 1024 then some path else none

-- The second loop; `list` is the recursive call. A path that is too long overflows its array.
unfoldable pub list_below :
    (Bytes → Bool) → (Bytes → Option Bytes) → Bytes → List Bytes → Option Bytes
unfolding is_dot join_path
list_below is_dir list base [] = some []
list_below is_dir list base (n ∷ ns) =
    let rest = list_below is_dir list base ns in
    let entry = join_path base n >>= λ path.
    (if is_dir path then list path else some []) >>= λ t. rest >>= λ more. some (t ++ more) in
    if is_dot n then rest else entry

-- What is printed for a directory, with calls nested at most `f` deep; none also where that is not enough.
unfoldable pub list_recursive : Files → ℕ → Bytes → Option Bytes
unfolding list_below name_line
list_recursive fs zero base = none
list_recursive fs (suc f) base = elim (fs.names base) [
  | none ↦ some []
  | some ns ↦ list_below fs.is_dir (list_recursive fs f) base ns >>= λ below.
      some (10 ∷ (base ++ (codes ":\n" ++ (name_line ns ++ (10 ∷ below)))))
]
