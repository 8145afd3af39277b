-- ===== src/Shell/Parse.antt =====
-- `parse_args` of project1/myshell.c and `getargs` of lab2/ch8/simplesh.c. A buffer is its bytes from
-- the first on; an argument is an index into it, and its text runs up to the next NUL.
pub mod Words
use open_source_project.Prelude.{
  ℕ, zero, suc, ◌+◌, ◌-◌, ◌*◌, ◌/◌, ◌%◌, ◌^◌, ◌≤◌, ◌<◌, ◌≡◌, ◌≢◌, ◌↔◌, ◌⊎◌, inl, inr, refl, sym, ap,
  ◌∙◌, Bool, true, false, ◌&&◌, ◌||◌, not, Option, none, some, List, [], ◌∷◌, ◌++◌, map,
  append_assoc, append-nil, arith, dec_lt, ℕ_discrete, ltb, leb, ◌==◌, ==_iff, if◌then◌else◌,
  Bool-cases, Option-cases, length, get_elem?, get_or, set, take, drop, replicate, length-append,
  length-set, get_or-set_self, get_or-set_ne, get_elem?-set_self, get_elem?-set_ne, keep, words,
  words_from, is_space, IsWord, words-append_blank, words_last, All, All-append, Bytes, codes,
  str_eq, str_eq_iff, str_eq_sound, str_eq_refl, starts_with, cstr, NoNul, cstr-append_nul,
  cstr_of_NoNul,
}

-- `c == ' ' || c == '\t'`
abbrev pub is_blank : ℕ → Bool
is_blank c = c == 32 || c == 9

-- The buffer from some index on, after the loop, and the indices that it stores into `args`.
pub record Cut : Type 0 where
  pub buffer : List ℕ
  pub args : List ℕ

abbrev pub keep_byte : ℕ → Cut → Cut
keep_byte c r = record r { buffer = c ∷ r.buffer }

abbrev pub start_arg : ℕ → ℕ → Cut → Cut
start_arg c i r = record { buffer = c ∷ r.buffer; args = i ∷ r.args }

-- The loop of `parse_args` at index `i`.
pub parse_from : List ℕ → ℕ → Bool → Cut
parse_from [] i in_word = record { buffer = []; args = [] }
parse_from (c ∷ s) i in_word =
    let stop : Cut = record { buffer = c ∷ s; args = [] } in
    let blank = keep_byte (if in_word then 0 else c) (parse_from s (i + 1) false) in
    let word = (if in_word then keep_byte c else start_arg c i) (parse_from s (i + 1) true) in
    if c == 0 then stop else if is_blank c then blank else word

-- The loops of `getargs` at index `i`: `in_word` in the inner one, which leaves a blank or the NUL to the
-- outer one.
pub getargs_from : List ℕ → ℕ → Bool → Cut
getargs_from [] i in_word = record { buffer = []; args = [] }
getargs_from (c ∷ s) i in_word =
    let stop : Cut = record { buffer = c ∷ s; args = [] } in
    let blank = keep_byte 0 (getargs_from s (i + 1) false) in
    let word = (if in_word then keep_byte c else start_arg c i) (getargs_from s (i + 1) true) in
    if c == 0 then stop else if is_blank c then blank else word

-- The texts that the arguments point to.
abbrev pub arg_texts : Cut → List Bytes
arg_texts r = map (λ o. cstr (drop o r.buffer)) r.args

-- On the buffer of a text: the texts of `args`, or undefined behaviour if these and the NULL behind
-- them do not fit the array of `n` entries.
unfoldable pub parse_args : ℕ → Bytes → Option (List Bytes)
unfolding parse_from
parse_args n text =
    let r = parse_from (text ++ (0 ∷ [])) 0 false in
    if ltb (length r.args) n then some (arg_texts r) else none

unfoldable pub getargs : ℕ → Bytes → Option (List Bytes)
unfolding getargs_from
getargs n text =
    let r = getargs_from (text ++ (0 ∷ [])) 0 false in
    if ltb (length r.args) n then some (arg_texts r) else none

two_words : parse_args 64 (codes " ls\t-l  ") ≡ some (codes "ls" ∷ codes "-l" ∷ [])
unfolding parse_args cstr
two_words = refl
