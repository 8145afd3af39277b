-- ===== src/BoundedBuffer/Tests.antt =====
-- The bounded buffer and its threads, at small states.
use open_source_project.Prelude.{ℕ, ◌≤◌, ◌<◌, ◌≡◌, refl, [], ◌∷◌, ◌++◌, length, replicate}
use open_source_project.BoundedBuffer.{buffer_size, Buffer, bb}
use open_source_project.BoundedBuffer.Queue.{contents}
use open_source_project.BoundedBuffer.Threads.{
  System, Reach, start, later, pick, made, p_lock_ok, p_room, p_store, c_load, start_state,
}
use open_source_project.BoundedBuffer.Threads.Safety.{
  mutual_exclusion, first_in_first_out, accesses_in_bounds,
}

-- One item, in the last slot.
abbrev wrapped : Buffer
wrapped = record { item = replicate 19 0 ++ (8 ∷ []); totalitems = 1; next_in = 0; next_out = 19 }

-- The first of two producers has made a 7 and is about to store it.
storing : (s : System) × Reach 2 s × (s.pc 0 ≡ p_store 7)
unfolding start_state bb
storing = (
  _,
  later (later (later start (pick 0 (made 7))) (pick 0 (p_lock_ok refl))) (pick 0 (p_room refl)),
  refl,
)

mutual_exclusion_example : ◌≡◌ {A = ℕ} 0 0
unfolding storing
mutual_exclusion_example = mutual_exclusion storing.1 0 0 refl refl

first_in_first_out_example :
    (storing.0.mem.inserted ≡ storing.0.mem.removed ++ contents storing.0.mem.buf)
    × (storing.0.mem.buf.totalitems ≤ buffer_size)
first_in_first_out_example = first_in_first_out storing.1

accesses_in_bounds_example :
    ((storing.0.pc 0 ≡ p_store 7)
      → (storing.0.mem.buf.totalitems < buffer_size)
        × (storing.0.mem.buf.next_in < length storing.0.mem.buf.item))
    × ((storing.0.pc 0 ≡ c_load)
        → (0 < storing.0.mem.buf.totalitems)
          × (storing.0.mem.buf.next_out < length storing.0.mem.buf.item))
accesses_in_bounds_example = accesses_in_bounds storing.1 0
