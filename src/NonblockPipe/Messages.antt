-- ===== src/NonblockPipe/Messages.antt =====
-- lab2/nonblockpipe.c: what the processes print.
use open_source_project.Prelude.{
  ℕ, zero, suc, ◌≡◌, refl, sym, ap, ◌∙◌, Bool, true, false, List, [], ◌∷◌, ◌++◌, map, append_assoc,
  append-nil, replicate, Bytes, cstr,
}
use open_source_project.NonblockPipe.{
  Printed, pipe_empty, msg, Process, sent_bytes, read_pipe, write_pipe, parent_msg, child_msg,
  State, Step, parent_reads, child_reads, parent_writes, child_writes, Reach, begin, later,
}

-- The messages among the lines that a process printed.
abbrev pub heard : List Printed → List Bytes
heard [] = []
heard (pipe_empty ∷ ps) = heard ps
heard (msg m ∷ ps) = m ∷ heard ps

heard-append : (a b : List Printed) → heard (a ++ b) ≡ heard a ++ heard b
heard-append [] b = refl
heard-append (pipe_empty ∷ a) b = heard-append a b
heard-append (msg m ∷ a) b = ap (λ l. m ∷ l) (heard-append a b)

map-append : (a b : List Bytes) → map cstr (a ++ b) ≡ map cstr a ++ map cstr b
map-append [] b = refl
map-append (x ∷ a) b = ap (λ l. cstr x ∷ l) (map-append a b)

replicate-append : (n : ℕ) (m : Bytes) → replicate n m ++ (m ∷ []) ≡ m ∷ replicate n m
replicate-append zero m = refl
replicate-append (suc n) m = ap (λ l. m ∷ l) (replicate-append n m)

-- A pipe from a process that wrote `n` times `m` to one that printed some of them.
abbrev pub Carries : Bytes → ℕ → List Bytes → List Printed → Type 0
Carries m n bs ps = heard ps ++ map cstr bs ≡ replicate n m

read_pipe-Carries :
    (m : Bytes) (n : ℕ) (bs : List Bytes) (p : Process)
    → Carries m n bs p.printed
    → Carries m n (read_pipe bs p).1 (read_pipe bs p).0.printed × ((read_pipe bs p).0.sent ≡ p.sent)
unfolding read_pipe
read_pipe-Carries m n [] p h = (
  ap (λ l. l ++ []) (heard-append p.printed (pipe_empty ∷ []) ∙ append-nil (heard p.printed)) ∙ h,
  refl,
)
read_pipe-Carries m n (b ∷ bs) p h = (
  ap (λ l. l ++ map cstr bs) (heard-append p.printed (msg (cstr b) ∷ []))
      ∙ append_assoc (heard p.printed) (cstr b ∷ []) (map cstr bs)
      ∙ h,
  refl,
)

write_pipe-Carries :
    (room : Bool) (m b : Bytes) (bs : List Bytes) (p : Process) (ps : List Printed)
    → cstr b ≡ m
    → Carries m p.sent bs ps
    → Carries m (write_pipe room b bs p).0.sent (write_pipe room b bs p).1 ps
      × ((write_pipe room b bs p).0.printed ≡ p.printed)
unfolding write_pipe
write_pipe-Carries false m b bs p ps e h = (h, refl)
write_pipe-Carries true m b bs p ps e h = (
  ap (λ l. heard ps ++ l) (map-append bs (b ∷ []) ∙ ap (λ x. map cstr bs ++ (x ∷ [])) e)
      ∙ sym (append_assoc (heard ps) (map cstr bs) (m ∷ []))
      ∙ ap (λ l. l ++ (m ∷ [])) h
      ∙ replicate-append p.sent m,
  refl,
)

-- Both directions.
abbrev pub Carried : State → Type 0
Carried s =
    Carries parent_msg s.parent.sent s.to_child s.child.printed
    × Carries child_msg s.child.sent s.to_parent s.parent.printed

-- The byte behind the NUL is not printed.
cstr-sent_bytes :
    (behind : Bytes)
    → (cstr (sent_bytes behind parent_msg) ≡ parent_msg)
      × (cstr (sent_bytes behind child_msg) ≡ child_msg)
unfolding cstr sent_bytes
cstr-sent_bytes behind = (refl, refl)

Step-Carried : (behind : Bytes) {s t : State} → Step behind s t → Carried s → Carried t
Step-Carried behind (parent_reads s w) (c, p) =
    let (h, e) = read_pipe-Carries child_msg s.child.sent s.to_parent s.parent p in
    (c ∙ ap (λ n. replicate n parent_msg) (sym e), h)
Step-Carried behind (child_reads s w) (c, p) =
    let (h, e) = read_pipe-Carries parent_msg s.parent.sent s.to_child s.child c in
    (h, p ∙ ap (λ n. replicate n child_msg) (sym e))
Step-Carried behind (parent_writes room s w) (c, p) =
    let (h, e) =
      write_pipe-Carries room parent_msg (sent_bytes behind parent_msg) s.to_child s.parent
        s.child.printed (cstr-sent_bytes behind).0 c in
    (h, ap (λ ps. heard ps ++ map cstr s.to_parent) e ∙ p)
Step-Carried behind (child_writes room s w) (c, p) =
    let (h, e) =
      write_pipe-Carries room child_msg (sent_bytes behind child_msg) s.to_parent s.child
        s.parent.printed (cstr-sent_bytes behind).1 p in
    (ap (λ ps. heard ps ++ map cstr s.to_child) e ∙ c, h)

-- In every interleaving, and whatever lies behind the literals, the messages that a process has printed
-- and those in its pipe together are as many greetings of the other process as the pipe took, and
-- nothing else: no write that succeeded is lost, cut or doubled.
pub greetings_arrive : (behind : Bytes) (s : State) → Reach behind s → Carried s
greetings_arrive behind s begin = (refl, refl)
greetings_arrive behind s (later {s = t} r step) =
    Step-Carried behind step (greetings_arrive behind t r)
