-- ===== src/SharedCounter/Observed.antt =====
-- lab2/memorymapfile.c: what the reader prints, in every interleaving.
use mathlib.Core.Path.{subst}
use open_source_project.Prelude.{
  ℕ, ◌+◌, ◌-◌, ◌^◌, ◌≤◌, ◌<◌, ◌≡◌, ◌≢◌, ◌⊎◌, inl, inr, refl, sym, ◌∙◌, Bool, true, false, List, [],
  ◌∷◌, arith, get_or,
}
use open_source_project.SharedCounter.{
  Writer, w_clear, w_test, w_lock, w_store, w_unlock, w_done, Reader, r_lock, r_load, r_unlock,
  r_test, r_done, State, Step, clear, count, stop, w_locked, stored, w_unlocked, r_locked, loaded,
  r_unlocked, seen_before, observed, finished, Reach, start, later,
}

-- Each number is below the one before it, and the first below `top`.
abbrev pub Under : List ℕ → ℕ → Type 0
Under [] top = Unit
Under (v ∷ vs) top = (v < top) × Under vs v

-- The newest number, or 2 ^ 64 - 1 where there is none.
abbrev newest : List ℕ → ℕ
newest [] = 2 ^ 64 - 1
newest (v ∷ vs) = v

-- The counter never falls: what the writer stores next is at least what is there.
abbrev WriterOk : ℕ → Writer → Type 0
WriterOk c w_clear = c ≡ 0
WriterOk c (w_test i) = c ≤ i
WriterOk c (w_lock i) = (c ≤ i) × (i ≤ 50)
WriterOk c (w_store i) = (c ≤ i) × (i ≤ 50)
WriterOk c (w_unlock i) = c ≡ i
WriterOk c w_done = Unit

-- What was printed is below what the reader prints next.
abbrev ReaderOk : ℕ → ℕ → List ℕ → Reader → Type 0
ReaderOk c last seen (r_unlock v) = (v ≤ c) × Under seen (v + 1)
ReaderOk c last seen (r_test v) = (v ≤ c) × Under seen (v + 1)
ReaderOk c last seen r_done = (50 ≤ get_or seen 0 0) × Under seen (c + 1)
ReaderOk c last seen _ = Under seen (c + 1)

record Inv (s : State) : Type 0 where
  small : s.counter ≤ 50
  writes : WriterOk s.counter s.writer
  reads : ReaderOk s.counter s.last s.seen s.reader
  newest_is : s.last ≡ newest s.seen

Under-le : (vs : List ℕ) (t u : ℕ) → t ≤ u → Under vs t → Under vs u
Under-le [] t u h un = tt
Under-le (v ∷ vs) t u h un = (omega (arith, un.0), un.1)

-- The counter may grow under the reader.
ReaderOk-le :
    (c c' last : ℕ) (seen : List ℕ) (r : Reader)
    → c ≤ c'
    → ReaderOk c last seen r
    → ReaderOk c' last seen r
ReaderOk-le c c' last seen r_lock h ok = Under-le seen (c + 1) (c' + 1) (omega arith) ok
ReaderOk-le c c' last seen r_load h ok = Under-le seen (c + 1) (c' + 1) (omega arith) ok
ReaderOk-le c c' last seen (r_unlock v) h ok = (omega (arith, ok.0), ok.1)
ReaderOk-le c c' last seen (r_test v) h ok = (omega (arith, ok.0), ok.1)
ReaderOk-le c c' last seen r_done h ok = (ok.0, Under-le seen (c + 1) (c' + 1) (omega arith) ok.1)

Under-newest : (vs : List ℕ) (v : ℕ) → v ≢ newest vs → Under vs (v + 1) → Under vs v
Under-newest [] v ne un = tt
Under-newest (x ∷ vs) v ne un = (omega (arith, un.0, ne), un.1)

module _ {s : State} (inv : Inv s) where
  open inv use {small, writes, reads, newest_is}

  at_writer : (w : Writer) → s.writer ≡ w → WriterOk s.counter w
  at_writer w e = subst (WriterOk s.counter) e writes

  at_reader : (r : Reader) → s.reader ≡ r → ReaderOk s.counter s.last s.seen r
  at_reader r e = subst (ReaderOk s.counter s.last s.seen) e reads

  -- The number that is printed is above all before it.
  printed : (v : ℕ) → s.reader ≡ r_test v → v ≢ s.last → Under (v ∷ s.seen) (s.counter + 1)
  printed v e ne =
      let ok = at_reader (r_test v) e in
      (omega (arith, ok.0), Under-newest s.seen v (λ q. ne (q ∙ sym newest_is)) ok.1)

  Step-Inv : {t : State} → Step s t → Inv t
  Step-Inv (clear e) = record {
    small = omega arith;
    writes = omega arith;
    reads =
        ReaderOk-le s.counter 0 s.last s.seen s.reader (omega (arith, at_writer w_clear e)) reads;
    newest_is = newest_is;
  }
  Step-Inv (count i e le) = record {
    small = small;
    writes = (at_writer (w_test i) e, le);
    reads = reads;
    newest_is = newest_is;
  }
  Step-Inv (stop i e lt) = record {
    small = small;
    writes = tt;
    reads = reads;
    newest_is = newest_is;
  }
  Step-Inv (w_locked i e) = record {
    small = small;
    writes = at_writer (w_lock i) e;
    reads = reads;
    newest_is = newest_is;
  }
  Step-Inv (stored i e) =
      let ok = at_writer (w_store i) e in
      record {
        small = ok.1;
        writes = refl;
        reads = ReaderOk-le s.counter i s.last s.seen s.reader ok.0 reads;
        newest_is = newest_is;
      }
  Step-Inv (w_unlocked i e) = record {
    small = small;
    writes = omega (arith, at_writer (w_unlock i) e);
    reads = reads;
    newest_is = newest_is;
  }
  Step-Inv (r_locked e) = record {
    small = small;
    writes = writes;
    reads = at_reader r_lock e;
    newest_is = newest_is;
  }
  Step-Inv (loaded e) = record {
    small = small;
    writes = writes;
    reads = (omega arith, at_reader r_load e);
    newest_is = newest_is;
  }
  Step-Inv (r_unlocked v e) = record {
    small = small;
    writes = writes;
    reads = at_reader (r_unlock v) e;
    newest_is = newest_is;
  }
  Step-Inv (seen_before v e q) =
      let ok = at_reader (r_test v) e in
      record {
        small = small;
        writes = writes;
        reads = Under-le s.seen (v + 1) (s.counter + 1) (omega (arith, ok.0)) ok.1;
        newest_is = newest_is;
      }
  Step-Inv (observed v e ne lt) = record {
    small = small;
    writes = writes;
    reads = printed v e ne;
    newest_is = refl;
  }
  Step-Inv (finished v e ne le) = record {
    small = small;
    writes = writes;
    reads = (le, printed v e ne);
    newest_is = refl;
  }

Reach-Inv : {s : State} → Reach s → Inv s
Reach-Inv start = record { small = omega arith; writes = refl; reads = tt; newest_is = refl }
Reach-Inv (later r st) = Step-Inv (Reach-Inv r) st

ReaderOk-Under :
    (c last : ℕ) (seen : List ℕ) (r : Reader) → c ≤ 50 → ReaderOk c last seen r → Under seen 51
ReaderOk-Under c last seen r_lock h ok = Under-le seen (c + 1) 51 (omega arith) ok
ReaderOk-Under c last seen r_load h ok = Under-le seen (c + 1) 51 (omega arith) ok
ReaderOk-Under c last seen (r_unlock v) h ok = Under-le seen (v + 1) 51 (omega (arith, ok.0)) ok.1
ReaderOk-Under c last seen (r_test v) h ok = Under-le seen (v + 1) 51 (omega (arith, ok.0)) ok.1
ReaderOk-Under c last seen r_done h ok = Under-le seen (c + 1) 51 (omega arith) ok.1

newest_50 : (seen : List ℕ) → Under seen 51 → 50 ≤ get_or seen 0 0 → get_or seen 0 0 ≡ 50
newest_50 [] un h = absurd (omega arith)
newest_50 (v ∷ vs) un h = omega (arith, un.0)

abbrev pub has_ended : Reader → Bool
has_ended r_done = true
has_ended _ = false

ended_cases : (r : Reader) → (has_ended r ≡ false) ⊎ (r ≡ r_done)
ended_cases r_lock = inl refl
ended_cases r_load = inl refl
ended_cases (r_unlock v) = inl refl
ended_cases (r_test v) = inl refl
ended_cases r_done = inr refl

-- In every interleaving, although the lock does not exclude, the numbers that the reader prints rise
-- strictly and are at most 50; and the reader has not ended, or the last one that it printed is 50.
pub rising :
    {s : State}
    → Reach s
    → Under s.seen 51 × ((has_ended s.reader ≡ false) ⊎ (get_or s.seen 0 0 ≡ 50))
rising {s} r =
    let inv = Reach-Inv r in
    let under = ReaderOk-Under s.counter s.last s.seen s.reader inv.small inv.reads in
    elim (ended_cases s.reader) [
      | inl e ↦ (under, inl e)
      | inr e ↦ (under, inr (newest_50 s.seen under (at_reader inv r_done e).0))
    ]
