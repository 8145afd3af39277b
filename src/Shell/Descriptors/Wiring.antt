-- ===== src/Shell/Descriptors/Wiring.antt =====
-- project1/myshell.c: the descriptors of a pipeline.
use open_source_project.Prelude.{
  ℕ, ◌≡◌, ◌≢◌, refl, sym, ap, ◌∙◌, Bool, Option, none, some, List, [], ◌++◌, arith, Bytes,
}
use mathlib.Core.Path.{fun_ext}
use open_source_project.Shell.Descriptors.{
  read_end, write_end, Table, opened, close, dup2, left_child, right_child, shell_behind, Program,
  forked, start_pipeline,
}

-- Two descriptors that are not in use.
pub record AreFree (t : Table) (rd wr : ℕ) : Type 0 where
  pub read_free : t rd ≡ none
  pub write_free : t wr ≡ none
  pub differ : rd ≢ wr

module _ (t : Table) (rd wr : ℕ) (v : AreFree t rd wr) where
  abbrev both : Table
  both = opened wr write_end (opened rd read_end t)

  behind_shell : (n : ℕ) → shell_behind rd wr both n ≡ t n
  unfolding shell_behind
  behind_shell n = ground (arith, v.read_free, v.write_free)

  shell_behind_lem : shell_behind rd wr both ≡ t
  shell_behind_lem = fun_ext behind_shell

  -- A descriptor in use is none of the two.
  ne_write : (fd : ℕ) → t fd ≢ none → wr ≢ fd
  ne_write fd in_use e = in_use (ap t (sym e) ∙ v.write_free)

  ne_read : (fd : ℕ) → t fd ≢ none → rd ≢ fd
  ne_read fd in_use e = in_use (ap t (sym e) ∙ v.read_free)

  left_moved : left_child rd wr both ≡ close wr (opened 1 write_end (close rd both))
  unfolding left_child
  left_moved =
      let e : close rd both wr ≡ some write_end = unfold close in ground (arith, v.differ) in
      rw (e, dup2) refl

  right_moved : right_child rd wr both ≡ close rd (opened 0 read_end (close wr both))
  unfolding right_child
  right_moved =
      let e : close wr both rd ≡ some read_end = unfold close in ground (arith, v.differ) in
      rw (e, dup2) refl

  left_child_lem : t 1 ≢ none → left_child rd wr both ≡ opened 1 write_end t
  unfolding close
  left_child_lem in_use = left_moved ∙ fun_ext (λ n. at_left n)
    where
      at_left : (n : ℕ) → close wr (opened 1 write_end (close rd both)) n ≡ opened 1 write_end t n
      at_left n = ground (arith, v.read_free, v.write_free, ne_write 1 in_use)

  right_child_lem : t 0 ≢ none → right_child rd wr both ≡ opened 0 read_end t
  unfolding close
  right_child_lem in_use = right_moved ∙ fun_ext (λ n. at_right n)
    where
      at_right : (n : ℕ) → close rd (opened 0 read_end (close wr both)) n ≡ opened 0 read_end t n
      at_right n = ground (arith, v.read_free, v.write_free, ne_read 0 in_use)

-- The programs of a pipeline: the left one writes to the pipe, the right one reads from it, and else they
-- have what the shell has.
abbrev pub piped : Option (ℕ × ℕ) → Bool → Bool → List Bytes → List Bytes → Table → List Program
piped none first second l r t = []
piped (some x) first second l r t =
    forked first (record { args = l; table = opened 1 write_end t })
    ++ forked second (record { args = r; table = opened 0 read_end t })

pub start_pipeline_lem :
    (fds : Option (ℕ × ℕ)) (first second : Bool) (l r : List Bytes) (t : Table)
    → ((rd wr : ℕ) → fds ≡ some (rd, wr) → AreFree t rd wr)
    → t 0 ≢ none
    → t 1 ≢ none
    → start_pipeline fds first second l r t ≡ (t, piped fds first second l r t)
unfolding start_pipeline
start_pipeline_lem none first second l r t v in_use0 in_use1 = refl
start_pipeline_lem (some (rd, wr)) first second l r t v in_use0 in_use1 =
    let free = v rd wr refl in
    rw
      (
        shell_behind_lem t rd wr free,
        left_child_lem t rd wr free in_use1,
        right_child_lem t rd wr free in_use0,
      )
      refl
