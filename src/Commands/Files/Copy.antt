-- ===== src/Commands/Files/Copy.antt =====
-- project1/commands.c: the copy of `cmd_cp`.
use open_source_project.Prelude.{
  ℕ, zero, suc, ◌<◌, ◌≡◌, refl, sym, ap, ◌∙◌, false, some, [], ◌∷◌, ◌++◌, append_assoc, append-nil,
  arith, ◌==◌, length, length-append, Bytes,
}
use open_source_project.Commands.Files.{Kernel, copy_loop}

-- What POSIX says of a regular file that is read at `sfd` and another one that is written at `dfd`, with
-- no error: `left` is what is left to read, and `written` what the target holds. A read gives some of
-- what is left, and nothing only at the end; a write takes all it is given; neither touches the other.
pub record Transfers (k : Kernel) (sfd dfd : ℕ) : Type 0 where
  pub left : k.World → Bytes
  pub written : k.World → Bytes
  pub chunk : k.World → Bytes
  pub read_gives : (w : k.World) → (k.read sfd 4096 w).0 ≡ some (chunk w)
  pub read_takes : (w : k.World) → left w ≡ chunk w ++ left (k.read sfd 4096 w).1
  pub read_ends : (w : k.World) → chunk w ≡ [] → left w ≡ []
  pub read_keeps : (w : k.World) → written (k.read sfd 4096 w).1 ≡ written w
  pub write_adds : (b : Bytes) (w : k.World) → written (k.write dfd b w) ≡ written w ++ b
  pub write_keeps : (b : Bytes) (w : k.World) → left (k.write dfd b w) ≡ left w

module _ (k : Kernel) (sfd dfd : ℕ) (t : Transfers k sfd dfd) where
  open t use {left, written, chunk}

  abbrev after : k.World → k.World
  after w = (k.read sfd 4096 w).1

  copy_round :
      (f b : ℕ) (bs : Bytes) (w : k.World)
      → chunk w ≡ b ∷ bs
      → copy_loop k (suc f) sfd dfd w ≡ copy_loop k f sfd dfd (k.write dfd (b ∷ bs) (after w))
  unfolding copy_loop
  copy_round f b bs w e =
      let z : (length (b ∷ bs) == 0) ≡ false = ground arith in
      rw (t.read_gives w, e, copy_loop) (rw z)

  copy_end : (f : ℕ) (w : k.World) → chunk w ≡ [] → copy_loop k (suc f) sfd dfd w ≡ some (after w)
  unfolding copy_loop
  copy_end f w e = rw (t.read_gives w, e, copy_loop)

  -- The loop has ended, and what it has left.
  abbrev pub Copied : ℕ → k.World → Type 0
  Copied f w =
      (v : k.World) × (copy_loop k f sfd dfd w ≡ some v)
      × (written v ≡ written w ++ left w)
      × (left v ≡ [])

  -- With more rounds than bytes that are left in the source, the loop of the copy ends, at the end of the
  -- source, and the target then holds what it held before and behind it all these bytes. This is for a
  -- source and a target that are different files, and for reads and writes without an error, each write
  -- taking all its bytes: the code does not look at the result of `write`.
  pub written-copy_loop : (f : ℕ) (w : k.World) → length (left w) < f → Copied f w
  written-copy_loop zero w h = absurd (omega arith)
  written-copy_loop (suc f) w h = go (chunk w) refl (λ u lt. written-copy_loop f u lt)
    where
      go :
          (c : Bytes)
          → chunk w ≡ c
          → ((u : k.World) → length (left u) < f → Copied f u)
          → Copied (suc f) w
      go [] e ih =
          let done = t.read_ends w e in
          let rest : left (after w) ≡ [] =
            sym (ap (λ c. c ++ left (after w)) e) ∙ sym (t.read_takes w) ∙ done in
          (after w, copy_end f w e, rw (done, t.read_keeps w, append-nil (written w)) refl, rest)
      go (b ∷ bs) e ih =
          let u : k.World = k.write dfd (b ∷ bs) (after w) in
          let split : left w ≡ (b ∷ bs) ++ left (after w) =
            t.read_takes w ∙ ap (λ c. c ++ left (after w)) e in
          let same : left u ≡ left (after w) = t.write_keeps (b ∷ bs) (after w) in
          let short : length (left u) < f =
            omega (
              arith,
              ap length same,
              ap length split,
              length-append {0} (b ∷ bs) (left (after w)),
            ) in
          let (v, ends, all, ended) = ih u short in
          let grown : written u ≡ written w ++ (b ∷ bs) =
            t.write_adds (b ∷ bs) (after w) ∙ ap (λ c. c ++ (b ∷ bs)) (t.read_keeps w) in
          (
            v,
            copy_round f b bs w e ∙ ends,
            all
                ∙ ap (λ c. c ++ left u) grown
                ∙ append_assoc (written w) (b ∷ bs) (left u)
                ∙ ap (λ c. written w ++ ((b ∷ bs) ++ c)) same
                ∙ ap (λ c. written w ++ c) (sym split),
            ended,
          )
