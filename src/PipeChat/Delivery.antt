-- ===== src/PipeChat/Delivery.antt =====
-- lab2/pipe.c: what a process prints is what was typed at the other one.
use open_source_project.Prelude.{
  ◌≡◌, ◌⊎◌, inl, inr, refl, sym, ap, ◌∙◌, Bool, true, false, ◌||◌, Option, none, some, List, [],
  ◌∷◌, ◌++◌, append_assoc, append-nil, arith, ltb, Bool-cases, length, length-append, Bytes, codes,
  cstr,
}
use open_source_project.PipeChat.{
  msg_size, Read, got, ended, failed, Round, read_pipe, chat_round, Direction, Input, no_input,
  line, at_eof, input_fails, Gives, quiet, bytes, at_end, fails, read_of, after_write, after_read,
  State, parent_round, child_round, Reach, start, later,
}

-- The bytes that some reads gave.
abbrev pub bytes_of : List Read → Bytes
bytes_of [] = []
bytes_of (got b ∷ rs) = b ++ bytes_of rs
bytes_of (_ ∷ rs) = bytes_of rs

-- The text of some reads: each in a line of its own with the name in front, up to a NUL in it, and a
-- message where there is nothing more to read.
abbrev pub shown : Bytes → List Read → Bytes
shown name [] = []
shown name (got b ∷ rs) = (codes "[" ++ (name ++ (codes "]: " ++ cstr b))) ++ shown name rs
shown name (_ ∷ rs) = codes "연결이 종료 되었습니다.\n" ++ shown name rs

-- Has one of the reads given 0?
abbrev pub has_end : List Read → Bool
has_end [] = false
has_end (ended ∷ rs) = true
has_end (_ ∷ rs) = has_end rs

bytes_of-append : (rs ss : List Read) → bytes_of (rs ++ ss) ≡ bytes_of rs ++ bytes_of ss
bytes_of-append [] ss = refl
bytes_of-append (got b ∷ rs) ss = rw (bytes_of-append rs ss) (sym (append_assoc b _ _))
bytes_of-append (ended ∷ rs) ss = bytes_of-append rs ss
bytes_of-append (failed ∷ rs) ss = bytes_of-append rs ss

shown-append :
    (name : Bytes) (rs ss : List Read) → shown name (rs ++ ss) ≡ shown name rs ++ shown name ss
shown-append name [] ss = refl
shown-append name (got b ∷ rs) ss =
    ap (λ t. (codes "[" ++ (name ++ (codes "]: " ++ cstr b))) ++ t) (shown-append name rs ss)
    ∙ sym (
        append_assoc (codes "[" ++ (name ++ (codes "]: " ++ cstr b))) (shown name rs)
          (shown name ss))
shown-append name (ended ∷ rs) ss = ap (λ t. codes "연결이 종료 되었습니다.\n" ++ t) (shown-append name rs ss)
shown-append name (failed ∷ rs) ss =
    ap (λ t. codes "연결이 종료 되었습니다.\n" ++ t) (shown-append name rs ss)

has_end-append : (rs ss : List Read) → has_end (rs ++ ss) ≡ (has_end rs || has_end ss)
has_end-append [] ss = refl
has_end-append (got b ∷ rs) ss = has_end-append rs ss
has_end-append (ended ∷ rs) ss = refl
has_end-append (failed ∷ rs) ss = has_end-append rs ss

-- A round passes on what was typed, and prints what it read.
abbrev Passed : Bytes → Option Read → Bytes → Round → Type 0
Passed name j input r = (r.written ≡ input) × (r.printed ≡ shown name (read_of j))

read_pipe-Passed :
    (name w : Bytes) (j : Option Read) (r : Round) → read_pipe name w j ≡ some r → Passed name j w r
unfolding read_pipe
read_pipe-Passed name w none r e = (ground arith, ground arith)
read_pipe-Passed name w (some ended) r e = (ground arith, ground arith)
read_pipe-Passed name w (some failed) r e = (ground arith, ground arith)
read_pipe-Passed name w (some (got b)) r e = elim (Bool-cases (ltb (length b) msg_size)) [
  | inl t ↦
      rw (append-nil (codes "[" ++ (name ++ (codes "]: " ++ cstr b))))
        (let e' = (rw t at e) in (ground (arith, e'), ground (arith, e')))
  | inr f ↦ absurd (ground arith)
]

chat_round-Passed :
    {input : Bytes} {i j : Option Read} {r : Round} (name : Bytes)
    → Input i j input
    → chat_round name i j ≡ some r
    → Passed name j input r
unfolding chat_round
chat_round-Passed {j = j} {r = r} name no_input e = read_pipe-Passed name [] j r e
chat_round-Passed name at_eof e = (ground arith, ground arith)
chat_round-Passed name input_fails e = (ground arith, ground arith)
chat_round-Passed {j = j} {r = r} name (line b lt) e = elim (Bool-cases (ltb (length b) msg_size)) [
  | inl t ↦ read_pipe-Passed name b j r (rw t at e)
  | inr f ↦ absurd (ground arith)
]

-- What was typed was read or lies in the pipe, and what was read was printed; the end is seen only where
-- the writer has closed an empty pipe.
record InOrder (name : Bytes) (d : Direction) : Type 0 where
  all : d.typed ≡ bytes_of d.reads ++ d.pipe
  printed : d.screen ≡ shown name d.reads
  complete : has_end d.reads ≡ true → (d.pipe ≡ []) × (d.open' ≡ false)

Gives-bytes :
    {d : Direction} {j : Option Read} {rest : Bytes}
    → Gives d j rest
    → d.pipe ≡ bytes_of (read_of j) ++ rest
Gives-bytes quiet = refl
Gives-bytes (bytes b rest e lt) = e ∙ ap (λ t. t ++ rest) (sym (append-nil b))
Gives-bytes (at_end e o) = refl
Gives-bytes fails = refl

after_write-InOrder :
    (name input : Bytes) (d : Direction) (r : Round)
    → d.open' ≡ true
    → r.written ≡ input
    → InOrder name d
    → InOrder name (after_write d input r)
after_write-InOrder name input d r o e v = record {
  all = rw (e, v.all) (append_assoc (bytes_of d.reads) d.pipe input);
  printed = v.printed;
  complete = λ h. absurd (ground (arith, v.complete h));
}

seen_before :
    (rs ss : List Read) → has_end ss ≡ false → has_end (rs ++ ss) ≡ true → has_end rs ≡ true
seen_before rs ss e h = ground (arith, has_end-append rs ss)

seen_end :
    {d : Direction} {j : Option Read} {rest : Bytes}
    → Gives d j rest
    → (has_end d.reads ≡ true → (d.pipe ≡ []) × (d.open' ≡ false))
    → has_end (d.reads ++ read_of j) ≡ true
    → (rest ≡ []) × (d.open' ≡ false)
seen_end {d} quiet before h = before (seen_before d.reads [] refl h)
seen_end {d} (bytes b rest e lt) before h =
    let (z, o) = before (seen_before d.reads (got b ∷ []) refl h) in
    absurd (ground (arith, ap length (sym e ∙ z), length-append b rest))
seen_end {d} (at_end e o) before h = (e, o)
seen_end {d} fails before h = before (seen_before d.reads (failed ∷ []) refl h)

after_read-InOrder :
    (name : Bytes) {d : Direction} {j : Option Read} {rest : Bytes} (r : Round)
    → Gives d j rest
    → r.printed ≡ shown name (read_of j)
    → InOrder name d
    → InOrder name (after_read d j rest r)
after_read-InOrder name {d} {j} {rest} r g e v = record {
  all =
      v.all
      ∙ ap (λ t. bytes_of d.reads ++ t) (Gives-bytes g)
      ∙ sym (append_assoc (bytes_of d.reads) (bytes_of (read_of j)) rest)
      ∙ ap (λ t. t ++ rest) (sym (bytes_of-append d.reads (read_of j)));
  printed = rw (e, v.printed) (sym (shown-append name d.reads (read_of j)));
  complete = seen_end g v.complete;
}

Reach-InOrder : {s : State} → Reach s → InOrder (codes "Child") s.p1 × InOrder (codes "Parent") s.p2
Reach-InOrder start = (
  record { all = refl; printed = refl; complete = λ h. absurd (cc) },
  record { all = refl; printed = refl; complete = λ h. absurd (cc) },
)
Reach-InOrder (later {s} r (parent_round i j input rest o open' inp g e)) =
    let (v1, v2) = Reach-InOrder r in
    let (wrote, printed') = chat_round-Passed (codes "Parent") inp e in
    (
      after_write-InOrder (codes "Child") input s.p1 o open' wrote v1,
      after_read-InOrder (codes "Parent") o g printed' v2,
    )
Reach-InOrder (later {s} r (child_round i j input rest o open' inp g e)) =
    let (v1, v2) = Reach-InOrder r in
    let (wrote, printed') = chat_round-Passed (codes "Child") inp e in
    (
      after_read-InOrder (codes "Child") o g printed' v1,
      after_write-InOrder (codes "Parent") input s.p2 o open' wrote v2,
    )

-- What the pipe and the screen of its reader hold: the reads gave the front of what was typed, the rest
-- lies in the pipe, the screen shows the reads, and a read that gave 0 came behind all of it.
abbrev pub Delivered : Bytes → Direction → Type 0
Delivered name d =
    (d.typed ≡ bytes_of d.reads ++ d.pipe)
    × (d.screen ≡ shown name d.reads)
    × ((has_end d.reads ≡ false) ⊎ (d.typed ≡ bytes_of d.reads))

InOrder-Delivered : (name : Bytes) (d : Direction) → InOrder name d → Delivered name d
InOrder-Delivered name d v = (
  v.all,
  v.printed,
  elim (Bool-cases (has_end d.reads)) [
    | inl h ↦
        inr
          (v.all ∙ ap (λ t. bytes_of d.reads ++ t) (v.complete h).0 ∙ append-nil (bytes_of d.reads))
    | inr h ↦ inl h
  ],
)

-- Whatever the order of the rounds, as long as no read fills the buffer and each write takes all its
-- bytes: the bytes that were typed at
-- one process are those that the other one has read, in order, and then those that lie in the pipe. Each
-- read is printed behind the reader's own name in brackets, up to a NUL in it, and a read that gives 0 or
-- -1 as the message that the connection has ended; where one has given 0, all that was typed was read.
pub heard_in_order :
    {s : State} → Reach s → Delivered (codes "Child") s.p1 × Delivered (codes "Parent") s.p2
heard_in_order {s} r =
    let (v1, v2) = Reach-InOrder r in
    (InOrder-Delivered (codes "Child") s.p1 v1, InOrder-Delivered (codes "Parent") s.p2 v2)
