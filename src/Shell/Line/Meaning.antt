-- ===== src/Shell/Line/Meaning.antt =====
-- What one line means to the shell of project1/myshell.c.
use open_source_project.Prelude.{
  ℕ, zero, suc, ◌<◌, ◌≡◌, ◌≢◌, ◌⊎◌, inl, inr, refl, sym, ap, ◌∙◌, Bool, true, false, none, some,
  List, [], ◌∷◌, ◌++◌, append_assoc, arith, ltb, ◌==◌, Bool-cases, length, replicate, length-append,
  words, All, Bytes, codes, str_eq, str_eq_sound, NoNul,
}
use mathlib.Core.List.{reverse, reverse-append, reverse-reverse, reverse-cons}
use open_source_project.Shell.Parse.{is_blank}
use open_source_project.Shell.Parse.Words.{parse_args-words}
use open_source_project.Shell.Line.{
  max_arg_len, Simple, trim_back, strip_back, strip_amp, redirect, dispatch, run_simple, split_pipe,
  handle_line,
}

-- The parts of a command line: an argument, or a redirection with its file.
pub data Item : Type 0 where
  word : Bytes → Item
  input : Bytes → Item
  output : Bytes → Item

abbrev pub IsItem : Item → Type 0
IsItem (word a) = (str_eq a (codes "<") ≡ false) × (str_eq a (codes ">") ≡ false)
IsItem _ = Unit

abbrev pub flatten : List Item → List Bytes
flatten [] = []
flatten (word a ∷ is') = a ∷ flatten is'
flatten (input f ∷ is') = codes "<" ∷ f ∷ flatten is'
flatten (output f ∷ is') = codes ">" ∷ f ∷ flatten is'

-- The arguments in order; of several files for one redirection the last one counts.
abbrev pub collect : List Item → Simple → Simple
collect [] r = r
collect (word a ∷ is') r = collect is' (record r { args = r.args ++ (a ∷ []) })
collect (input f ∷ is') r = collect is' (record r { infile = some f })
collect (output f ∷ is') r = collect is' (record r { outfile = some f })

redirect_word :
    (a : Bytes) (ws : List Bytes) (r : Simple)
    → IsItem (word a)
    → redirect (a ∷ ws) r ≡ redirect ws (record r { args = r.args ++ (a ∷ []) })
unfolding redirect
redirect_word a [] r (x, y) = rw (x, y)
redirect_word a (b ∷ ws) r (x, y) = rw (x, y)

redirect_input :
    (f : Bytes) (ws : List Bytes) (r : Simple)
    → redirect (codes "<" ∷ f ∷ ws) r ≡ redirect ws (record r { infile = some f })
unfolding redirect str_eq
redirect_input f ws r = refl

redirect_output :
    (f : Bytes) (ws : List Bytes) (r : Simple)
    → redirect (codes ">" ∷ f ∷ ws) r ≡ redirect ws (record r { outfile = some f })
unfolding redirect str_eq
redirect_output f ws r = refl

redirect-flatten :
    (is' : List Item) (r : Simple)
    → All IsItem is'
    → redirect (flatten is') r ≡ some (collect is' r)
unfolding str_eq
redirect-flatten [] r h = unfold redirect in refl
redirect-flatten (word a ∷ is') r (h, hs) =
    redirect_word a (flatten is') r h
    ∙ redirect-flatten is' (record r { args = r.args ++ (a ∷ []) }) hs
redirect-flatten (input f ∷ is') r (h, hs) =
    redirect_input f (flatten is') r ∙ redirect-flatten is' (record r { infile = some f }) hs
redirect-flatten (output f ∷ is') r (h, hs) =
    redirect_output f (flatten is') r ∙ redirect-flatten is' (record r { outfile = some f }) hs

-- A line whose words are arguments and redirections with their files, fewer than 64 in all, is run as
-- the command of these arguments, with the last file of either redirection.
pub run_simple_lem :
    (is_bg : Bool) (text : Bytes) (is' : List Item)
    → NoNul text
    → words is_blank text ≡ flatten is'
    → All IsItem is'
    → length (flatten is') < max_arg_len
    → run_simple is_bg text
      ≡ some (dispatch is_bg (collect is' (record { infile = none; outfile = none; args = [] })))
unfolding run_simple
run_simple_lem is_bg text is' clean e h short =
    let fits : ltb (length (flatten is')) max_arg_len ≡ true = ground arith in
    rw (parse_args-words max_arg_len text clean, e, fits, redirect-flatten is' _ h)

redirect_dangling :
    (is' : List Item) (op : Bytes) (r : Simple)
    → All IsItem is'
    → (op ≡ codes "<") ⊎ (op ≡ codes ">")
    → redirect (flatten is' ++ (op ∷ [])) r ≡ none
unfolding str_eq
redirect_dangling [] op r h (inl e) = unfold redirect in rw e
redirect_dangling [] op r h (inr e) = unfold redirect in rw e
redirect_dangling (word a ∷ is') op r (h, hs) o =
    redirect_word a (flatten is' ++ (op ∷ [])) r h
    ∙ redirect_dangling is' op (record r { args = r.args ++ (a ∷ []) }) hs o
redirect_dangling (input f ∷ is') op r (h, hs) o =
    redirect_input f (flatten is' ++ (op ∷ [])) r
    ∙ redirect_dangling is' op (record r { infile = some f }) hs o
redirect_dangling (output f ∷ is') op r (h, hs) o =
    redirect_output f (flatten is' ++ (op ∷ [])) r
    ∙ redirect_dangling is' op (record r { outfile = some f }) hs o

-- A line that ends with a redirection sign and no file makes the loop step over the NULL and read what
-- lies behind the stored arguments.
pub run_simple_dangling :
    (is_bg : Bool) (text op : Bytes) (is' : List Item)
    → NoNul text
    → words is_blank text ≡ flatten is' ++ (op ∷ [])
    → All IsItem is'
    → (op ≡ codes "<") ⊎ (op ≡ codes ">")
    → run_simple is_bg text ≡ none
unfolding run_simple
run_simple_dangling is_bg text op is' clean e h o =
    elim (Bool-cases (ltb (length (flatten is' ++ (op ∷ []))) max_arg_len)) [
      | inl fits ↦
          rw (parse_args-words max_arg_len text clean, e, fits, redirect_dangling is' op _ h o)
      | inr over ↦ rw (parse_args-words max_arg_len text clean, e, over)
    ]

-- `n` spaces.
abbrev pub spaces : ℕ → Bytes
spaces n = replicate n 32

trim_back-spaces : (n : ℕ) (s : Bytes) → trim_back (spaces n ++ s) ≡ trim_back s
unfolding trim_back
trim_back-spaces zero s = refl
trim_back-spaces (suc n) s = trim_back-spaces n s

trim_back_stop : (c : ℕ) (s : Bytes) → c ≢ 32 → trim_back (c ∷ s) ≡ c ∷ s
unfolding trim_back
trim_back_stop c s ne = ground arith

replicate_snoc : (n : ℕ) → spaces n ++ (32 ∷ []) ≡ 32 ∷ spaces n
replicate_snoc zero = refl
replicate_snoc (suc n) = ap (λ t. 32 ∷ t) (replicate_snoc n)

reverse-replicate : (n : ℕ) → reverse (spaces n) ≡ spaces n
reverse-replicate zero = refl
reverse-replicate (suc n) =
    reverse-append (32 ∷ []) (spaces n)
    ∙ ap (λ t. t ++ (32 ∷ [])) (reverse-replicate n)
    ∙ replicate_snoc n

backwards :
    (text : Bytes) (c n : ℕ)
    → reverse (text ++ ((c ∷ []) ++ (spaces n ++ codes "&")))
      ≡ 38 ∷ (spaces n ++ (c ∷ reverse text))
backwards text c n =
    reverse-append text ((c ∷ []) ++ (spaces n ++ codes "&"))
    ∙ ap (λ t. t ++ reverse text) (reverse-cons c (spaces n ++ codes "&"))
    ∙ ap (λ t. (t ++ (c ∷ [])) ++ reverse text)
        (reverse-append (spaces n) (codes "&") ∙ ap (λ t. 38 ∷ t) (reverse-replicate n))
    ∙ ap (λ t. 38 ∷ t) (append_assoc (spaces n) (c ∷ []) (reverse text))

reverse_cons : (c : ℕ) (text : Bytes) → reverse (c ∷ reverse text) ≡ text ++ (c ∷ [])
reverse_cons c text =
    reverse-append (c ∷ []) (reverse text) ∙ ap (λ t. t ++ (c ∷ [])) (reverse-reverse text)

-- A final & asks for the background; with the spaces before it, it is taken off the command.
pub strip_amp_lem :
    (text : Bytes) (c n : ℕ)
    → c ≢ 32
    → strip_amp (text ++ ((c ∷ []) ++ (spaces n ++ codes "&"))) ≡ (true, text ++ (c ∷ []))
unfolding strip_amp strip_back
strip_amp_lem text c n ne =
    rw
      (
        backwards text c n,
        trim_back-spaces n (c ∷ reverse text),
        trim_back_stop c (reverse text) ne,
      )
      (ap (λ (t : Bytes). (true, t)) (reverse_cons c text))

strip_amp_exit : (strip_amp (codes "exit")).0 ≡ false
unfolding strip_amp strip_back
strip_amp_exit = refl

not_exit :
    (text : Bytes) (c n : ℕ)
    → c ≢ 32
    → str_eq (text ++ ((c ∷ []) ++ (spaces n ++ codes "&"))) (codes "exit") ≡ false
not_exit text c n ne =
    elim (Bool-cases (str_eq (text ++ ((c ∷ []) ++ (spaces n ++ codes "&"))) (codes "exit"))) [
      | inl e ↦
          absurd (
            clash
              (sym (strip_amp_lem text c n ne) ∙ ap strip_amp (str_eq_sound _ (codes "exit") e)))
      | inr e ↦ e
    ]
  where
    clash : (true, text ++ (c ∷ [])) ≡ strip_amp (codes "exit") → ⊥
    clash e = let f : true ≡ false = ap (λ (p : Bool × Bytes). p.0) e ∙ strip_amp_exit in cc

-- A line with no pipe sign that ends with &, and spaces before it, runs the command before the spaces
-- in the background.
pub handle_line_background :
    (text : Bytes) (c n : ℕ)
    → c ≢ 32
    → split_pipe (text ++ (c ∷ [])) ≡ none
    → handle_line (some (text ++ ((c ∷ []) ++ (spaces n ++ codes "&"))))
      ≡ run_simple true (text ++ (c ∷ []))
unfolding handle_line
handle_line_background text c n ne plain =
    let long : (length (text ++ ((c ∷ []) ++ (spaces n ++ codes "&"))) == 0) ≡ false =
      ground (arith, length-append {0} text ((c ∷ []) ++ (spaces n ++ codes "&"))) in
    rw (long, not_exit text c n ne, strip_amp_lem text c n ne, plain)
      (rw (strip_amp_lem text c n ne))
