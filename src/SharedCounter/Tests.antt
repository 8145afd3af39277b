-- ===== src/SharedCounter/Tests.antt =====
-- The shared counter, for a few steps.
use open_source_project.Prelude.{◌≡◌, ◌⊎◌, false, refl, [], ◌∷◌, arith, get_or}
use open_source_project.SharedCounter.{
  w_store, r_load, State, clear, count, w_locked, r_locked, loaded, r_unlocked, observed, Reach,
  start, later,
}
use open_source_project.SharedCounter.Observed.{Under, has_ended, rising}

-- The reader has printed 0.
printed_0 : (s : State) × Reach s × (s.seen ≡ 0 ∷ [])
printed_0 = (
  _,
  later (later (later (later start (r_locked refl)) (loaded refl)) (r_unlocked 0 refl))
      (observed 0 refl (λ e. ground arith) (ground arith)),
  refl,
)

rising_example :
    Under printed_0.0.seen 51
    × ((has_ended printed_0.0.reader ≡ false) ⊎ (get_or printed_0.0.seen 0 0 ≡ 50))
rising_example = rising printed_0.1

-- The reader takes its shared lock while the writer is about to store under the exclusive one.
both_inside : (s : State) × Reach s × (s.writer ≡ w_store 0) × (s.reader ≡ r_load)
both_inside = (
  _,
  later (later (later (later start (clear refl)) (count 0 refl (omega arith))) (w_locked 0 refl))
      (r_locked refl),
  refl,
  refl,
)
