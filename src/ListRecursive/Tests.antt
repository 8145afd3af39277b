-- ===== src/ListRecursive/Tests.antt =====
-- The recursive listing of a small tree.
use open_source_project.Prelude.{
  ◌≡◌, refl, none, some, [], ◌∷◌, arith, if◌then◌else◌, codes, str_eq,
}
use open_source_project.ListRecursive.{Files, is_dot, list_recursive}
use open_source_project.ListRecursive.Tree.{Tree, end, file, dir, listing, list_recursive_lem}

-- A directory d with a file, in the current directory.
abbrev small : Files
small = record {
  names = λ p.
      if str_eq p (codes ".")
      then some (codes "." ∷ codes "d" ∷ codes ".." ∷ [])
      else if str_eq p (codes "./d")
      then some (codes "f" ∷ [])
      else none;
  is_dir = λ p. str_eq p (codes "./d");
}

abbrev small_tree : Tree
small_tree = dir (codes "d") (file (codes "f") end) end

list_recursive_lem_example :
    list_recursive small 2 (codes ".") ≡ some (listing (codes ".") small_tree)
unfolding str_eq is_dot
list_recursive_lem_example =
    list_recursive_lem small 2 (codes ".") small_tree (_, refl, refl)
      (omega arith, refl, (_, refl, refl), (omega arith, refl, tt), tt) (ground arith)

printed : listing (codes ".") small_tree ≡ codes "\n.:\nd  \n\n./d:\nf  \n"
printed = refl
