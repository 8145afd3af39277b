-- ===== src/Shell/Parse/Words.antt =====
-- Both parsers of Shell.Parse against the words of the line.
use open_source_project.Prelude.{
  ℕ, suc, ◌+◌, ◌≡◌, ◌≢◌, inl, inr, refl, sym, ap, ◌∙◌, Bool, true, false, Option, none, some, List,
  [], ◌∷◌, ◌++◌, map, append_assoc, append-nil, arith, ltb, ◌==◌, if◌then◌else◌, Bool-cases, length,
  drop, length-append, words, words_from, Bytes, cstr, NoNul,
}
use open_source_project.Shell.Parse.{
  is_blank, Cut, keep_byte, start_arg, parse_from, getargs_from, arg_texts, parse_args, getargs,
}

drop-length : (pre s : List ℕ) → drop (length pre) (pre ++ s) ≡ s
drop-length [] s = refl
drop-length (c ∷ pre) s = drop-length pre s

-- The texts of the arguments in a buffer that starts with `pre`.
abbrev texts : List ℕ → Cut → List Bytes
texts pre r = map (λ o. cstr (drop o (pre ++ r.buffer))) r.args

texts_keep :
    (pre : List ℕ) (c : ℕ) (r : Cut) → texts pre (keep_byte c r) ≡ texts (pre ++ (c ∷ [])) r
texts_keep pre c r = rw (append_assoc pre (c ∷ []) r.buffer)

texts_start :
    (pre : List ℕ) (c i : ℕ) (r : Cut)
    → length pre ≡ i
    → texts pre (start_arg c i r) ≡ cstr (c ∷ r.buffer) ∷ texts (pre ++ (c ∷ [])) r
texts_start pre c i r e =
    rw (append_assoc pre (c ∷ []) r.buffer, ← e, drop-length pre (c ∷ r.buffer))

-- The common form of the two loops: `zap` is what a blank becomes.
cut_from : (Bool → ℕ → ℕ) → List ℕ → ℕ → Bool → Cut
cut_from zap [] i in_word = record { buffer = []; args = [] }
cut_from zap (c ∷ s) i in_word =
    let stop : Cut = record { buffer = c ∷ s; args = [] } in
    let blank = keep_byte (zap in_word c) (cut_from zap s (i + 1) false) in
    let word = (if in_word then keep_byte c else start_arg c i) (cut_from zap s (i + 1) true) in
    if c == 0 then stop else if is_blank c then blank else word

parse_from-cut :
    (s : List ℕ) (i : ℕ) (w : Bool) → parse_from s i w ≡ cut_from (λ v c. if v then 0 else c) s i w
unfolding parse_from cut_from
parse_from-cut [] i w = refl
parse_from-cut (c ∷ s) i w = rw (parse_from-cut s (i + 1) false, parse_from-cut s (i + 1) true)

getargs_from-cut : (s : List ℕ) (i : ℕ) (w : Bool) → getargs_from s i w ≡ cut_from (λ v c. 0) s i w
unfolding getargs_from cut_from
getargs_from-cut [] i w = refl
getargs_from-cut (c ∷ s) i w =
    rw (getargs_from-cut s (i + 1) false, getargs_from-cut s (i + 1) true)

module _ (zap : Bool → ℕ → ℕ) (zaps : (c : ℕ) → zap true c ≡ 0) where
  abbrev cut : Bytes → ℕ → Bool → Cut
  cut s = cut_from zap (s ++ (0 ∷ []))

  cut_blank :
      (c : ℕ) (s : Bytes) (i : ℕ) (w : Bool)
      → c ≢ 0
      → is_blank c ≡ true
      → cut (c ∷ s) i w ≡ keep_byte (zap w c) (cut s (i + 1) false)
  unfolding cut_from
  cut_blank c s i w ne b = let z : (c == 0) ≡ false = ground arith in rw (z, b)

  cut_word :
      (c : ℕ) (s : Bytes) (i : ℕ) (w : Bool)
      → c ≢ 0
      → is_blank c ≡ false
      → cut (c ∷ s) i w ≡ (if w then keep_byte c else start_arg c i) (cut s (i + 1) true)
  unfolding cut_from
  cut_word c s i w ne b = let z : (c == 0) ≡ false = ground arith in rw (z, b)

  abbrev Outside : Bytes → Type 0
  Outside s = (pre : Bytes) (i : ℕ) → length pre ≡ i → words is_blank s ≡ texts pre (cut s i false)

  abbrev Inside : Bytes → Type 0
  Inside s =
      (pre cur : Bytes) (x i : ℕ)
      → length pre ≡ i
      → words_from is_blank (x ∷ cur) s
        ≡ ((x ∷ cur) ++ cstr (cut s i true).buffer) ∷ texts pre (cut s i true)

  next_length : (pre : Bytes) (c i : ℕ) → length pre ≡ i → length (pre ++ (c ∷ [])) ≡ i + 1
  next_length pre c i e = omega (arith, length-append {0} pre (c ∷ []))

  Outside-step : (c : ℕ) (s : Bytes) → c ≢ 0 → Outside s → Inside s → Outside (c ∷ s)
  unfolding words_from cstr
  Outside-step c s ne out ins pre i e = elim (Bool-cases (is_blank c)) [
    | inl b ↦
        rw (b, cut_blank c s i false ne b, texts_keep pre (zap false c) (cut s (i + 1) false))
          (out (pre ++ (zap false c ∷ [])) (i + 1) (next_length pre (zap false c) i e))
    | inr b ↦
        let z : (c == 0) ≡ false = ground arith in
        rw (b, cut_word c s i false ne b)
          (ins (pre ++ (c ∷ [])) [] c (i + 1) (next_length pre c i e)
            ∙ (rw z at (sym (texts_start pre c i (cut s (i + 1) true) e))))
  ]

  Inside-step : (c : ℕ) (s : Bytes) → c ≢ 0 → Outside s → Inside s → Inside (c ∷ s)
  unfolding words_from cstr
  Inside-step c s ne out ins pre cur x i e = elim (Bool-cases (is_blank c)) [
    | inl b ↦ rw (
      b,
      cut_blank c s i true ne b,
      zaps c,
      texts_keep pre 0 (cut s (i + 1) false),
      append-nil cur,
      out (pre ++ (0 ∷ [])) (i + 1) (next_length pre 0 i e),
    )
    | inr b ↦
        let z : (c == 0) ≡ false = ground arith in
        rw
          (
            b,
            cut_word c s i true ne b,
            z,
            texts_keep pre c (cut s (i + 1) true),
            ← append_assoc cur (c ∷ []) (cstr (cut s (i + 1) true).buffer),
          )
          (ins (pre ++ (c ∷ [])) (cur ++ (c ∷ [])) x (i + 1) (next_length pre c i e))
  ]

  both : (s : Bytes) → NoNul s → Outside s × Inside s
  unfolding words_from cstr cut_from
  both [] h = (λ pre i e. refl, λ pre cur x i e. rw (append-nil cur))
  both (c ∷ s) (ne, h) =
      let (out, ins) = both s h in (Outside-step c s ne out ins, Inside-step c s ne out ins)

length-map {ℓ κ} :
    {A : Type ℓ} {B : Type κ} (f : A → B) (xs : List A) → length (map f xs) ≡ length xs
length-map f [] = refl
length-map f (x ∷ xs) = ap suc (length-map f xs)

capped : ℕ → List Bytes → Option (List Bytes)
capped n ws = if ltb (length ws) n then some ws else none

capped-texts :
    (n : ℕ) (r : Cut) (ws : List Bytes)
    → ws ≡ arg_texts r
    → (if ltb (length r.args) n then some (arg_texts r) else none) ≡ capped n ws
unfolding capped
capped-texts n r ws e = rw (e, length-map (λ o. cstr (drop o r.buffer)) r.args)

-- The texts of the arguments that `parse_args` of myshell.c leaves in the buffer are the words of the
-- line, in order, if these and the NULL fit the array; else it writes past the array.
pub parse_args-words :
    (n : ℕ) (text : Bytes)
    → NoNul text
    → parse_args n text
      ≡ (if ltb (length (words is_blank text)) n then some (words is_blank text) else none)
unfolding parse_args capped
parse_args-words n text h =
    capped-texts n (parse_from (text ++ (0 ∷ [])) 0 false) (words is_blank text) (
      rw (parse_from-cut (text ++ (0 ∷ [])) 0 false)
        ((both (λ v c. if v then 0 else c) (λ c. refl) text h).0 [] 0 refl))

-- `getargs` of simplesh.c, which overwrites every blank, finds the same arguments as `parse_args` of
-- myshell.c, which overwrites only the first blank behind a word.
pub getargs-parse_args : (n : ℕ) (text : Bytes) → NoNul text → getargs n text ≡ parse_args n text
unfolding getargs capped
getargs-parse_args n text h =
    capped-texts n (getargs_from (text ++ (0 ∷ [])) 0 false) (words is_blank text) (
      rw (getargs_from-cut (text ++ (0 ∷ [])) 0 false)
        ((both (λ v c. 0) (λ c. refl) text h).0 [] 0 refl))
    ∙ sym (parse_args-words n text h)
