-- ===== src/ChatServer/Registry/Remove.antt =====
-- What DISCONNECT leaves in the array of clients.
use open_source_project.Prelude.{
  ℕ, zero, suc, ◌+◌, ◌≤◌, ◌<◌, ◌≡◌, ◌≢◌, refl, some, List, [], ◌∷◌, arith, length, get_or,
  get_elem?, set, length-set, get_or-set_self, get_or-set_ne, ◌∙◌, ℕ_discrete, dec_lt,
}
use open_source_project.ChatServer.Registry.{shift}

pub get_elem?-eq-get_or :
    (xs : List ℕ) (i : ℕ) → i < length xs → get_elem? xs i ≡ some (get_or xs i 0)
get_elem?-eq-get_or [] i h = absurd (omega arith)
get_elem?-eq-get_or (x ∷ xs) zero h = refl
get_elem?-eq-get_or (x ∷ xs) (suc i) h = get_elem?-eq-get_or xs i (omega arith)

-- After the loop from index `k`, entries up to `k` are as before, and each later one is its
-- successor's.
abbrev pub Shifted : List ℕ → List ℕ → ℕ → ℕ → Type 0
Shifted old new k cnt =
    (length new ≡ length old)
    × ((j : ℕ) → j ≤ k → get_or new j 0 ≡ get_or old j 0)
    × ((j : ℕ) → k < j → j < cnt → get_or new j 0 ≡ get_or old (j + 1) 0)
    × ((j : ℕ) → cnt ≤ j → get_or new j 0 ≡ get_or old j 0)

pub shift_stop : (list : List ℕ) (cnt n i : ℕ) → cnt ≤ i + 1 → shift list cnt n i ≡ some list
unfolding shift
shift_stop list cnt zero i h = refl
shift_stop list cnt (suc n) i h = ground arith

shift_round :
    (list : List ℕ) (cnt n i : ℕ)
    → i + 1 < cnt
    → cnt < length list
    → shift list cnt (suc n) i ≡ shift (set list (i + 1) (get_or list (i + 1 + 1) 0)) cnt n (i + 1)
unfolding shift
shift_round list cnt n i h fits = ground (arith, get_elem?-eq-get_or list (i + 1 + 1))

module _ (list : List ℕ) (cnt i : ℕ) (inside : i + 1 < cnt) (fits : cnt < length list) where
  abbrev moved : List ℕ
  moved = set list (i + 1) (get_or list (i + 1 + 1) 0)

  moved_here : get_or moved (i + 1) 0 ≡ get_or list (i + 1 + 1) 0
  moved_here = get_or-set_self list (i + 1) (get_or list (i + 1 + 1) 0) 0 (omega arith)

  moved_else : (j : ℕ) → i + 1 ≢ j → get_or moved j 0 ≡ get_or list j 0
  moved_else j = get_or-set_ne list (i + 1) j (get_or list (i + 1 + 1) 0) 0

  moved-length : length moved ≡ length list
  moved-length = length-set list (i + 1) (get_or list (i + 1 + 1) 0)

  Shifted-moved : (new : List ℕ) → Shifted moved new (i + 1) cnt → Shifted list new i cnt
  Shifted-moved new (len, before, after, beyond) = (
    len ∙ moved-length,
    λ j le. before j (omega arith) ∙ moved_else j (omega arith),
    λ j lt lt'. elim (ℕ_discrete j (i + 1)) [
      | yes e ↦ rw e (before (i + 1) (omega arith) ∙ moved_here)
      | no ne ↦ after j (omega arith) lt' ∙ moved_else (j + 1) (omega arith)
    ],
    λ j le. beyond j le ∙ moved_else j (omega arith),
  )

-- With enough rounds the loop ends without a fault.
pub shift_lem :
    (n : ℕ) (list : List ℕ) (cnt i : ℕ)
    → i < cnt
    → cnt < length list
    → cnt ≤ i + 1 + n
    → (new : List ℕ) × (shift list cnt n i ≡ some new) × Shifted list new i cnt
shift_lem zero list cnt i lt fits enough = (
  list,
  shift_stop list cnt 0 i (omega arith),
  (refl, λ j le. refl, λ j lt' lt''. absurd (omega arith), λ j le. refl),
)
shift_lem (suc n) list cnt i lt fits enough = elim (dec_lt (i + 1) cnt) [
  | yes more ↦
      let (new, runs, ok) =
        shift_lem n (moved list cnt i more fits) cnt (i + 1) more
          (rw (moved-length list cnt i more fits) fits) (omega arith) in
      (new, shift_round list cnt n i more fits ∙ runs, Shifted-moved list cnt i more fits new ok)
  | no done ↦ (
    list,
    shift_stop list cnt (suc n) i (omega arith),
    (refl, λ j le. refl, λ j lt' lt''. absurd (omega arith), λ j le. refl),
  )
]
