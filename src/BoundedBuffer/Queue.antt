-- ===== src/BoundedBuffer/Queue.antt =====
-- The ring of lab3/3/boundedbuffer.c is a first-in-first-out queue of at most 20 items.
use open_source_project.Prelude.{
  ℕ, zero, suc, ◌+◌, ◌-◌, ◌%◌, ◌≤◌, ◌<◌, ◌≡◌, refl, sym, ap, ◌∙◌, List, [], ◌∷◌, ◌++◌, arith,
  length, get_or, length-set, get_or-set_self, get_or-set_ne,
}
use open_source_project.BoundedBuffer.{buffer_size, Buffer, bb, put, take_out}

-- The items from position `k` behind the oldest one on, `n` of them.
abbrev items_from : Buffer → ℕ → ℕ → List ℕ
items_from b k zero = []
items_from b k (suc n) = get_or b.item ((b.next_out + k) % buffer_size) 0 ∷ items_from b (k + 1) n

-- The items in the buffer, oldest first.
abbrev pub contents : Buffer → List ℕ
contents b = items_from b 0 b.totalitems

pub record IsValid (b : Buffer) : Type 0 where
  pub slots : length b.item ≡ buffer_size
  pub fits : b.totalitems ≤ buffer_size
  pub out_in : b.next_out < buffer_size
  pub tail : b.next_in ≡ (b.next_out + b.totalitems) % buffer_size

items_from-put :
    (b : Buffer) (x n k : ℕ)
    → IsValid b
    → n + k ≡ b.totalitems
    → b.totalitems < buffer_size
    → items_from (put b x) k (suc n) ≡ items_from b k n ++ (x ∷ [])
unfolding put
items_from-put b x zero k v e room =
    ground (arith, get_or-set_self b.item b.next_in x 0, v.slots, v.tail)
items_from-put b x (suc n) k v e room = ground (
  arith,
  get_or-set_ne b.item b.next_in ((b.next_out + k) % buffer_size) x 0,
  v.tail,
  v.out_in,
  items_from-put b x n (k + 1) v (omega arith) room,
)

-- `insert_item` on a buffer that is not full appends the item, writes inside the array, and keeps the
-- buffer valid.
pub put_lem :
    (b : Buffer) (x : ℕ)
    → IsValid b
    → b.totalitems < buffer_size
    → (contents (put b x) ≡ contents b ++ (x ∷ []))
      × (b.next_in < length b.item)
      × IsValid (put b x)
unfolding put
put_lem b x v room =
    let z : b.totalitems + 1 ≡ suc b.totalitems = omega arith in
    (
      rw z (items_from-put b x b.totalitems 0 v (omega arith) room),
      omega arith,
      record {
        slots = length-set b.item b.next_in x ∙ v.slots;
        fits = omega arith;
        out_in = v.out_in;
        tail = omega arith;
      },
    )

items_from-take_out :
    (b : Buffer) (n k : ℕ) → items_from (take_out b).1 k n ≡ items_from b (k + 1) n
unfolding take_out
items_from-take_out b zero k = refl
items_from-take_out b (suc n) k =
    let z : ((b.next_out + 1) % buffer_size + k) % buffer_size
        ≡ (b.next_out + (k + 1)) % buffer_size =
      omega arith in
    rw (z, items_from-take_out b n (k + 1))

items_from_first :
    (b : Buffer) (n : ℕ)
    → b.next_out < buffer_size
    → 0 < n
    → items_from b 0 n ≡ get_or b.item b.next_out 0 ∷ items_from b 1 (n - 1)
items_from_first b zero h lt = absurd (omega arith)
items_from_first b (suc n) h lt =
    let z : (b.next_out + 0) % buffer_size ≡ b.next_out = omega arith in
    let w : suc n - 1 ≡ n = omega arith in rw (z, w)

-- `remove_item` on a buffer that is not empty takes the oldest item, and keeps the buffer valid.
pub take_out_lem :
    (b : Buffer)
    → IsValid b
    → 0 < b.totalitems
    → (contents b ≡ (take_out b).0 ∷ contents (take_out b).1)
      × (b.next_out < length b.item)
      × IsValid (take_out b).1
unfolding take_out
take_out_lem b v some' = (
  items_from_first b b.totalitems v.out_in some'
      ∙ ap (λ (t : List ℕ). get_or b.item b.next_out 0 ∷ t)
          (sym (items_from-take_out b (b.totalitems - 1) 0)),
  omega arith,
  record { slots = v.slots; fits = omega arith; out_in = omega arith; tail = omega arith },
)

pub bb-IsValid : IsValid bb
unfolding bb
bb-IsValid = record { slots = refl; fits = omega arith; out_in = omega arith; tail = refl }
