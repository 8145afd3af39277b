-- ===== src/ChatServer/Auth.antt =====
-- project2/gui_server.c, `process_auth`: the user file, and the two requests on it.
pub mod Accounts
use open_source_project.Prelude.{
  ℕ, zero, suc, ◌+◌, ◌-◌, ◌*◌, ◌/◌, ◌%◌, ◌^◌, ◌≤◌, ◌<◌, ◌≡◌, ◌≢◌, ◌↔◌, ◌⊎◌, inl, inr, refl, sym, ap,
  ◌∙◌, Bool, true, false, ◌&&◌, ◌||◌, not, Option, none, some, List, [], ◌∷◌, ◌++◌, map,
  append_assoc, append-nil, arith, dec_lt, ℕ_discrete, ltb, leb, ◌==◌, ==_iff, if◌then◌else◌,
  Bool-cases, Option-cases, length, get_elem?, get_or, set, take, drop, replicate, length-append,
  length-set, get_or-set_self, get_or-set_ne, get_elem?-set_self, get_elem?-set_ne, keep, words,
  words_from, is_space, IsWord, words-append_blank, words_last, All, All-append, Bytes, codes,
  str_eq, str_eq_iff, str_eq_sound, str_eq_refl, starts_with, cstr, NoNul, cstr-append_nul,
  cstr_of_NoNul,
}
use open_source_project.Prelude.Int.{ℤ, pos, negsuc}
use open_source_project.ChatServer.Registry.{◌>>=◌}

-- Bytes that `%s` may store into `file_id[20]` and `file_pw[20]`.
abbrev pub fits_20 : Bytes → Bool
fits_20 w = ltb (length w) 20

-- The loop of `fscanf(fp, "%s %s", file_id, file_pw) != EOF` over the words of the file. `file_pw` is
-- what stands in that array. A word that does not fit its array is undefined behaviour. A lone last
-- word is one conversion, which is not EOF and leaves `file_pw` alone. The result is `found` with the
-- final `file_pw`.
unfoldable pub scan_users : List Bytes → Bytes → Bytes → Option (Bool × Bytes)
scan_users [] file_pw id = some (false, file_pw)
scan_users (u ∷ []) file_pw id = if fits_20 u then some (str_eq u id, file_pw) else none
scan_users (u ∷ w ∷ us) file_pw id =
    let rest = scan_users us w id in
    if fits_20 u && fits_20 w then (if str_eq u id then some (true, w) else rest) else none

-- `fprintf(fp, "%s %s\n", id, pw)`
abbrev pub entry : Bytes → Bytes → Bytes
entry id pw = id ++ (32 ∷ (pw ++ (10 ∷ [])))

-- `process_auth`: its result and the content of users.txt after it. A missing file (`none`) is created
-- empty. `garbage` is what stands in `file_pw` at first.
unfoldable pub process_auth : Option Bytes → Bytes → Bytes → Bytes → Bytes → Option (ℤ × Bytes)
process_auth users mode id pw garbage =
    let file : Bytes = elim users [ none ↦ [] | some f ↦ f ] in
    scan_users (words is_space file) garbage id >>= λ r.
    if str_eq mode (codes "REGISTER")
    then (if r.0 then some (negsuc 0, file) else some (pos 0, file ++ entry id pw))
    else (if r.0
        then (if str_eq r.1 pw then some (pos 0, file) else some (negsuc 0, file))
        else some (negsuc 1, file))
