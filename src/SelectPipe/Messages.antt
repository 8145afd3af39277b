-- ===== src/SelectPipe/Messages.antt =====
-- lab2/selectpipe.c: what the parent prints, and what it loses.
use open_source_project.Prelude.{
  ◌≡◌, refl, ap, ◌∙◌, Bool, true, false, List, [], ◌∷◌, ◌++◌, map, append_assoc, All, Bytes, cstr,
}
use open_source_project.SelectPipe.{
  hello_msg, bye_msg, written, child, Life, zombie, waited_for, Line, start_line, read_line,
  read_ready, selecting, returned, State, Act, writes, exits, Step, acts, reads, waits, none_ended,
  no_child, start_state, Steps, here, more,
}

-- The messages of a child.
abbrev pub texts : List Bytes
texts = hello_msg ∷ hello_msg ∷ hello_msg ∷ bye_msg ∷ []

-- What was printed, what is in the pipe and what is still to be written are the messages in order.
abbrev pub Kept : Line → Type 0
Kept l = l.shown ++ (map cstr l.pipe ++ map cstr l.todo) ≡ texts

-- The bytes behind the NUL are not printed.
start-Kept : (behind : Bytes) → Kept (start_line behind)
unfolding child written cstr
start-Kept behind = refl

map-append : (a b : List Bytes) → map cstr (a ++ b) ≡ map cstr a ++ map cstr b
map-append [] b = refl
map-append (x ∷ a) b = ap (λ l. cstr x ∷ l) (map-append a b)

Act-Kept : {a b : Line} → Act a b → Kept a → Kept b
Act-Kept (writes m ms pipe shown) k =
    ap (λ l. shown ++ l)
      (ap (λ l. l ++ map cstr ms) (map-append pipe (m ∷ []))
        ∙ append_assoc (map cstr pipe) (cstr m ∷ []) (map cstr ms))
    ∙ k
Act-Kept (exits pipe shown) k = k

read_line-Kept :
    (todo pipe shown : List Bytes) (life : Life)
    → Kept (record { todo = todo; pipe = pipe; shown = shown; life = life })
    → Kept (read_line (record { todo = todo; pipe = pipe; shown = shown; life = life }))
unfolding read_line
read_line-Kept todo [] shown life k = k
read_line-Kept todo (m ∷ ms) shown life k =
    append_assoc shown (cstr m ∷ []) (map cstr ms ++ map cstr todo) ∙ k

read_ready-Kept : (rs : List Bool) (ls : List Line) → All Kept ls → All Kept (read_ready rs ls)
unfolding read_ready
read_ready-Kept [] ls h = h
read_ready-Kept (r ∷ rs) [] h = tt
read_ready-Kept (true ∷ rs) (l ∷ ls) (k, h) =
    (read_line-Kept l.todo l.pipe l.shown l.life k, read_ready-Kept rs ls h)
read_ready-Kept (false ∷ rs) (l ∷ ls) (k, h) = (k, read_ready-Kept rs ls h)

-- A line among others may change.
All-change :
    (before after : List Line) (a b : Line)
    → (Kept a → Kept b)
    → All Kept (before ++ (a ∷ after))
    → All Kept (before ++ (b ∷ after))
All-change [] after a b f (k, h) = (f k, h)
All-change (x ∷ before) after a b f (k, h) = (k, All-change before after a b f h)

Step-Kept : {s t : State} → Step s t → All Kept s.lines → All Kept t.lines
Step-Kept (acts p before after a b act) h = All-change before after a b (Act-Kept act) h
Step-Kept (reads ready ls) h = read_ready-Kept ready ls h
Step-Kept (waits before after l) h =
    All-change before after (record l { life = zombie }) (record l { life = waited_for }) (λ k. k) h
Step-Kept (none_ended before after l q) h = h
Step-Kept (no_child ls q) h = h

Steps-Kept : {s t : State} → Steps s t → All Kept s.lines → All Kept t.lines
Steps-Kept here h = h
Steps-Kept (more run step) h = Step-Kept step (Steps-Kept run h)

-- At every moment the messages that the parent has printed for a child, then those in its pipe, then
-- those that the child has still to write are three times the greeting and the farewell, whatever lies
-- behind the literals in memory.
pub printed_in_order :
    (behind : Bytes) (s : State) → Steps (start_state behind) s → All Kept s.lines
printed_in_order behind s run =
    Steps-Kept run (start-Kept behind, (start-Kept behind, (start-Kept behind, tt)))

-- A child that has written everything.
abbrev pub done : List Bytes → List Bytes → Life → Line
done pipe shown life = record { todo = []; pipe = pipe; shown = shown; life = life }

-- Where the first two children have been waited for and their pipes are read, and the third one has ended
-- with unread messages, the parent returns behind its second round: all but two of these messages are
-- lost.
pub messages_lost :
    (m n : Bytes) (ms shown shown1 shown2 : List Bytes)
    → (let others : List Line = done [] shown1 waited_for ∷ done [] shown2 waited_for ∷ [] in
        Steps
          (record { parent = selecting; lines = others ++ (done (m ∷ n ∷ ms) shown zombie ∷ []) })
          (record {
            parent = returned;
            lines = others ++ (done ms ((shown ++ (cstr m ∷ [])) ++ (cstr n ∷ [])) waited_for ∷ []);
          }))
unfolding read_ready read_line
messages_lost m n ms shown shown1 shown2 =
    let others : List Line = done [] shown1 waited_for ∷ done [] shown2 waited_for ∷ [] in
    let all : List Bool = true ∷ true ∷ true ∷ [] in
    let once : List Bytes = shown ++ (cstr m ∷ []) in
    let twice : List Bytes = once ++ (cstr n ∷ []) in
    more
      (more
        (more (more here (reads all (others ++ (done (m ∷ n ∷ ms) shown zombie ∷ []))))
          (waits others [] (done (n ∷ ms) once zombie)))
        (reads all (others ++ (done (n ∷ ms) once waited_for ∷ []))))
      (no_child (others ++ (done ms twice waited_for ∷ [])) (refl, (refl, (refl, tt))))
