-- ===== src/ChatServer/Auth/Accounts.antt =====
-- The user file against a list of accounts: what `process_auth` promises.
use open_source_project.Prelude.{
  ◌<◌, ◌≡◌, inl, inr, refl, sym, true, false, Option, none, some, List, [], ◌∷◌, ◌++◌, append_assoc,
  append-nil, arith, if◌then◌else◌, Option-cases, length, words, words_from, is_space, IsWord,
  words-append_blank, All, All-append, Bytes, codes, str_eq, str_eq_refl,
}
use open_source_project.Prelude.Int.{ℤ, pos, negsuc}
use open_source_project.ChatServer.Auth.{scan_users, entry, process_auth}

pub record Account : Type 0 where
  pub id : Bytes
  pub pw : Bytes

-- A name or password that survives the file: a word of fewer than 20 bytes.
abbrev pub IsField : Bytes → Type 0
IsField w = IsWord is_space w × (length w < 20)

abbrev pub IsAccount : Account → Type 0
IsAccount a = IsField a.id × IsField a.pw

-- The file that holds the accounts.
abbrev pub render : List Account → Bytes
render [] = []
render (a ∷ as') = entry a.id a.pw ++ render as'

-- The password of the first account with the name.
abbrev pub password : List Account → Bytes → Option Bytes
password [] id = none
password (a ∷ as') id = if str_eq a.id id then some a.pw else password as' id

abbrev fields : List Account → List Bytes
fields [] = []
fields (a ∷ as') = a.id ∷ a.pw ∷ fields as'

entry-append : (id pw rest : Bytes) → entry id pw ++ rest ≡ id ++ (32 ∷ (pw ++ (10 ∷ rest)))
entry-append id pw rest = simp append_assoc

words-render : (as' : List Account) → All IsAccount as' → words is_space (render as') ≡ fields as'
words-render [] h = unfold words_from in refl
words-render (a ∷ as') (((wi, _), (wp, _)), h) = rw (
  entry-append a.id a.pw (render as'),
  words-append_blank is_space a.id (a.pw ++ (10 ∷ render as')) 32 wi refl,
  words-append_blank is_space a.pw (render as') 10 wp refl,
  words-render as' h,
)

scan_found :
    (as' : List Account) (garbage id : Bytes) {w : Bytes}
    → All IsAccount as'
    → password as' id ≡ some w
    → scan_users (fields as') garbage id ≡ some (true, w)
unfolding scan_users
scan_found [] garbage id h e = cc
scan_found (a ∷ as') garbage id {w} (((_, i), (_, p)), h) e =
    ground (arith, scan_found as' a.pw id {w = w} h)

scan_missing :
    (as' : List Account) (garbage id : Bytes)
    → All IsAccount as'
    → password as' id ≡ none
    → (w : Bytes) × (scan_users (fields as') garbage id ≡ some (false, w))
unfolding scan_users
scan_missing [] garbage id h e = (garbage, refl)
scan_missing (a ∷ as') garbage id (((_, i), (_, p)), h) e =
    let (w, r) = scan_missing as' a.pw id h (ground arith) in (w, ground arith)

render-append :
    (xs : List Account) (a : Account) → render (xs ++ (a ∷ [])) ≡ render xs ++ entry a.id a.pw
render-append [] a = append-nil (entry a.id a.pw)
render-append (x ∷ xs) a =
    rw (render-append xs a) (sym (append_assoc (entry x.id x.pw) (render xs) (entry a.id a.pw)))

-- The promise: a registration adds an account unless the name is taken (-1); any other request is a
-- login, which fails with -2 for an unknown name and with -1 for another password, and succeeds with 0.
abbrev pub answer : Option Bytes → Bytes → Bytes → ℤ
answer none mode pw = if str_eq mode (codes "REGISTER") then pos 0 else negsuc 1
answer (some w) mode pw =
    if str_eq mode (codes "REGISTER") then negsuc 0 else (if str_eq w pw then pos 0 else negsuc 0)

abbrev pub accounts_after : Option Bytes → List Account → Bytes → Account → List Account
accounts_after none as' mode a = if str_eq mode (codes "REGISTER") then as' ++ (a ∷ []) else as'
accounts_after (some w) as' mode a = as'

-- On the file of any list of accounts `process_auth` gives the promised answer, and leaves the file of
-- the promised accounts.
pub process_auth_lem :
    (as' : List Account) (mode id pw garbage : Bytes)
    → All IsAccount as'
    → process_auth (some (render as')) mode id pw garbage
      ≡ some (
        answer (password as' id) mode pw,
        render (accounts_after (password as' id) as' mode (record { id = id; pw = pw })),
      )
unfolding process_auth
process_auth_lem as' mode id pw garbage h = elim (Option-cases (password as' id)) [
  | inl missing ↦
      let (w, scanned) = scan_missing as' garbage id h missing in
      rw (words-render as' h, scanned, missing)
        (ground (arith, render-append as' (record { id = id; pw = pw })))
  | inr (w, found) ↦
      rw (words-render as' h, scan_found as' garbage id h found, found) (ground arith)
]

password-append :
    (as' : List Account) (a : Account)
    → password as' a.id ≡ none
    → password (as' ++ (a ∷ [])) a.id ≡ some a.pw
password-append [] a e = rw (str_eq_refl a.id)
password-append (x ∷ xs) a e = ground (arith, password-append xs a)

-- A name that is not taken can be registered, which writes a file. After that a login
-- with the name succeeds exactly with that password, and a second registration is refused.
pub login-register :
    (as' : List Account) (a : Account) (pw g g' g'' : Bytes)
    → All IsAccount as'
    → IsAccount a
    → password as' a.id ≡ none
    → (file : Bytes) × (process_auth (some (render as')) (codes "REGISTER") a.id a.pw g
        ≡ some (pos 0, file))
      × (process_auth (some file) (codes "LOGIN") a.id pw g'
          ≡ some ((if str_eq a.pw pw then pos 0 else negsuc 0), file))
      × (process_auth (some file) (codes "REGISTER") a.id pw g'' ≡ some (negsuc 0, file))
unfolding str_eq
login-register as' a pw g g' g'' h ok free =
    let all' = All-append IsAccount as' (a ∷ []) h (ok, tt) in
    let now = password-append as' a free in
    (
      render (as' ++ (a ∷ [])),
      rw (process_auth_lem as' (codes "REGISTER") a.id a.pw g h, free),
      rw (process_auth_lem (as' ++ (a ∷ [])) (codes "LOGIN") a.id pw g' all', now),
      rw (process_auth_lem (as' ++ (a ∷ [])) (codes "REGISTER") a.id pw g'' all', now),
    )
