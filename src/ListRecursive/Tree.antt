-- ===== src/ListRecursive/Tree.antt =====
-- lab2/ls_R.c: the listing of a directory tree.
use open_source_project.Prelude.{
  ℕ, zero, suc, ◌+◌, ◌≤◌, ◌<◌, ◌≡◌, inl, inr, refl, ◌∙◌, Bool, true, false, not, Option, some, List,
  [], ◌∷◌, ◌++◌, arith, ltb, if◌then◌else◌, Bool-cases, length, keep, Bytes, codes,
}
use open_source_project.ChatServer.Registry.{◌>>=◌}
use open_source_project.ListRecursive.{
  Files, is_dot, name_line, join_path, list_below, list_recursive,
}

-- The entries of a directory in order, each with the entries below it if it is a directory.
pub data Tree : Type 0 where
  end : Tree
  file : Bytes → Tree → Tree
  dir : Bytes → Tree → Tree → Tree

abbrev pub entry_names : Tree → List Bytes
entry_names end = []
entry_names (file n t) = n ∷ entry_names t
entry_names (dir n below t) = n ∷ entry_names t

abbrev pub depth : Tree → ℕ
depth end = 0
depth (file n t) = depth t
depth (dir n below t) = if ltb (depth below + 1) (depth t) then depth t else depth below + 1

abbrev pub path_of : Bytes → Bytes → Bytes
path_of base n = base ++ (b'/' ∷ n)

abbrev pub visible : List Bytes → List Bytes
visible ns = keep (λ n. not (is_dot n)) ns

-- The directory at `base` has the names of the tree, besides . and .. in any place.
abbrev pub Lists : Files → Bytes → Tree → Type 0
Lists fs base t = (ns : List Bytes) × (fs.names base ≡ some ns) × (visible ns ≡ entry_names t)

-- The files below `base` are those of the tree, and their paths fit.
abbrev pub Below : Files → Bytes → Tree → Type 0
Below fs base end = Unit
Below fs base (file n t) =
    (length (path_of base n) < 1024) × (fs.is_dir (path_of base n) ≡ false) × Below fs base t
Below fs base (dir n below t) =
    (length (path_of base n) < 1024)
    × (fs.is_dir (path_of base n) ≡ true)
    × Lists fs (path_of base n) below
    × Below fs (path_of base n) below
    × Below fs base t

abbrev pub name_texts : List Bytes → Bytes
name_texts [] = []
name_texts (n ∷ ns) = n ++ (codes "  " ++ name_texts ns)

-- The heading and the names of a directory, then the directories below it, each before its own.
abbrev pub heading : Bytes → List Bytes → Bytes → Bytes
heading base ns below = 10 ∷ (base ++ (codes ":\n" ++ (name_texts ns ++ (10 ∷ below))))

abbrev pub listing_below : Bytes → Tree → Bytes
listing_below base end = []
listing_below base (file n t) = listing_below base t
listing_below base (dir n below t) =
    heading (path_of base n) (entry_names below) (listing_below (path_of base n) below)
    ++ listing_below base t

abbrev pub listing : Bytes → Tree → Bytes
listing base t = heading base (entry_names t) (listing_below base t)

name_line-visible : (ns : List Bytes) → name_line ns ≡ name_texts (visible ns)
unfolding name_line
name_line-visible [] = refl
name_line-visible (n ∷ ns) = elim (Bool-cases (is_dot n)) [
  | inl e ↦ rw (e, name_line-visible ns) refl
  | inr e ↦ rw (e, name_line-visible ns) refl
]

-- The second loop without the test for . and ..
abbrev below_all : (Bytes → Bool) → (Bytes → Option Bytes) → Bytes → List Bytes → Option Bytes
below_all is_dir list base [] = some []
below_all is_dir list base (n ∷ ns) = join_path base n >>= λ path.
    (if is_dir path then list path else some []) >>= λ t.
    below_all is_dir list base ns >>= λ more. some (t ++ more)

list_below-visible :
    (is_dir : Bytes → Bool) (list : Bytes → Option Bytes) (base : Bytes) (ns : List Bytes)
    → list_below is_dir list base ns ≡ below_all is_dir list base (visible ns)
unfolding list_below
list_below-visible is_dir list base [] = refl
list_below-visible is_dir list base (n ∷ ns) = elim (Bool-cases (is_dot n)) [
  | inl e ↦ rw e (list_below-visible is_dir list base ns)
  | inr e ↦ rw (e, list_below-visible is_dir list base ns) refl
]

join_path_lem :
    (base n : Bytes) → length (path_of base n) < 1024 → join_path base n ≡ some (path_of base n)
unfolding join_path
join_path_lem base n h =
    let e : ltb (length (path_of base n)) 1024 ≡ true = ground arith in rw e refl

module _ (fs : Files) where
  below_all_lem :
      (f : ℕ)
      → ((base : Bytes) (t : Tree)
          → Lists fs base t
          → Below fs base t
          → depth t < f
          → list_recursive fs f base ≡ some (listing base t))
      → (base : Bytes) (t : Tree) → Below fs base t
      → depth t ≤ f
      → below_all fs.is_dir (list_recursive fs f) base (entry_names t) ≡ some (listing_below base t)
  below_all_lem f ih base end h d = refl
  below_all_lem f ih base (file n t) (short, is_file, h) d =
      rw (join_path_lem base n short, is_file, below_all_lem f ih base t h d) refl
  below_all_lem f ih base (dir n below t) (short, is_folder, lists, inner, h) d =
      rw
        (
          join_path_lem base n short,
          is_folder,
          ih (path_of base n) below lists inner (ground arith),
          below_all_lem f ih base t h (ground arith),
        )
        refl

  list_dir :
      (f : ℕ) (base : Bytes) (ns : List Bytes) (below : Bytes)
      → fs.names base ≡ some ns
      → list_below fs.is_dir (list_recursive fs f) base ns ≡ some below
      → list_recursive fs (suc f) base ≡ some (heading base (visible ns) below)
  unfolding list_recursive
  list_dir f base ns below e1 e2 = rw (e1, e2, name_line-visible ns, list_recursive)

  -- On a directory whose files form a tree with paths of less than 1024 bytes, the program prints the
  -- directory and then those below it, each with its names, and ends: calls nested one deeper than the
  -- tree are enough.
  pub list_recursive_lem :
      (f : ℕ) (base : Bytes) (t : Tree)
      → Lists fs base t
      → Below fs base t
      → depth t < f
      → list_recursive fs f base ≡ some (listing base t)
  list_recursive_lem zero base t lists h d = absurd (omega arith)
  list_recursive_lem (suc f) base t (ns, e, seen) h d =
      list_dir f base ns (listing_below base t) e (
        list_below-visible fs.is_dir (list_recursive fs f) base ns
        ∙ rw seen (below_all_lem f (list_recursive_lem f) base t h (omega arith)))
      ∙ rw seen refl
