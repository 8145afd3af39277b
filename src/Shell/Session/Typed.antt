-- ===== src/Shell/Session/Typed.antt =====
-- project1/myshell.c and commands.c: from the line that is typed to what it does to the file system.
use mathlib.Core.Path.{subst}
use mathlib.Core.List.{reverse, reverse-reverse, reverse-cons}
use open_source_project.Prelude.{
  ℕ, suc, ◌<◌, ◌≡◌, ◌≢◌, inl, inr, refl, sym, ap, ◌∙◌, true, false, ◌||◌, none, some, List, [], ◌∷◌,
  ◌++◌, map, append_assoc, append-nil, arith, ◌==◌, if◌then◌else◌, Bool-cases, length, words,
  words_from, All, All-append, Bytes, codes, str_eq, str_eq_sound, NoNul,
}
use open_source_project.Commands.Args.{
  confirm_action, confirm_action_lem, scan_one_lem, has, others, last?,
}
use open_source_project.Commands.Files.{Kernel, Io, cmd_rm, rm_file}
use open_source_project.Commands.Files.Confirm.{world-cmd_rm}
use open_source_project.Shell.Parse.{is_blank}
use open_source_project.Shell.Line.{
  Simple, Builtin, rm, builtin, max_arg_len, builtin_of, dispatch, dispatch_args, split_pipe,
  strip_amp, strip_back, handle_line,
}
use open_source_project.Shell.Line.Meaning.{word, IsItem, flatten, collect, run_simple_lem}
use open_source_project.Shell.Session.{Outside, and_then, run_builtin, continue, session}

-- A line with no pipe sign and no &.
pub record IsPlain (line : Bytes) : Type 0 where
  pub no_nul : NoNul line
  pub no_newline : All (λ c. c ≢ 10) line
  pub no_pipe : All (λ c. c ≢ b'|') line
  pub no_amp : All (λ c. c ≢ b'&') line

pub split_pipe-none : (s : Bytes) → All (λ c. c ≢ b'|') s → split_pipe s ≡ none
unfolding split_pipe
split_pipe-none [] h = refl
split_pipe-none (c ∷ s) (hc, h) =
    let z : (c == b'|') ≡ false = ground arith in rw (split_pipe-none s h, z) refl

All-reverse : (s : Bytes) → All (λ c. c ≢ b'&') s → All (λ c. c ≢ b'&') (reverse s)
All-reverse [] h = tt
All-reverse (c ∷ s) (hc, h) =
    rw (reverse-cons c s)
      (All-append (λ x. x ≢ b'&') (reverse s) (c ∷ []) (All-reverse s h) (hc, tt))

strip_back-no_amp : (s : Bytes) → All (λ c. c ≢ b'&') s → strip_back s ≡ (false, reverse s)
unfolding strip_back
strip_back-no_amp [] h = refl
strip_back-no_amp (c ∷ s) (hc, h) = let z : (c == b'&') ≡ false = ground arith in rw z refl

pub strip_amp-no_amp : (s : Bytes) → All (λ c. c ≢ b'&') s → strip_amp s ≡ (false, s)
unfolding strip_amp
strip_amp-no_amp s h =
    strip_back-no_amp (reverse s) (All-reverse s h)
    ∙ ap (λ (t : Bytes). (false, t)) (reverse-reverse s)

-- Words that are no redirection signs.
abbrev pub Plain : List Bytes → Type 0
Plain = All (λ a. (str_eq a (codes "<") ≡ false) × (str_eq a (codes ">") ≡ false))

flatten-words : (as' : List Bytes) → flatten (map word as') ≡ as'
flatten-words [] = refl
flatten-words (a ∷ as') = ap (λ l. a ∷ l) (flatten-words as')

IsItem-words : (as' : List Bytes) → Plain as' → All IsItem (map word as')
IsItem-words [] h = tt
IsItem-words (a ∷ as') (ha, h) = (ha, IsItem-words as' h)

collect-words :
    (as' : List Bytes) (r : Simple) → collect (map word as') r ≡ record r { args = r.args ++ as' }
collect-words [] r = ap (λ as''. record r { args = as'' }) (sym (append-nil r.args))
collect-words (a ∷ as') r =
    collect-words as' (record r { args = r.args ++ (a ∷ []) })
    ∙ ap (λ as''. record r { args = as'' }) (append_assoc r.args (a ∷ []) as')

-- The line `exit` has no built-in command.
not_exit :
    (line a : Bytes) (as' : List Bytes) (b : Builtin)
    → words is_blank line ≡ a ∷ as'
    → builtin_of a ≡ some b
    → str_eq line (codes "exit") ≡ false
unfolding words_from builtin_of str_eq
not_exit line a as' b e is_b = elim (Bool-cases (str_eq line (codes "exit"))) [
  | inr n ↦ n
  | inl y ↦
      (let e' : codes "exit" ∷ [] ≡ a ∷ as' =
          ap (words is_blank) (sym (str_eq_sound line (codes "exit") y)) ∙ e in
        let f : codes "exit" ≡ a = cc in
        let g : builtin_of (codes "exit") ≡ some b = ap builtin_of f ∙ is_b in absurd (none_some g))
]
  where
    none_some : none ≡ some b → ⊥
    none_some g = cc

pub not_empty :
    (line a : Bytes) (as' : List Bytes) → words is_blank line ≡ a ∷ as' → (length line == 0) ≡ false
unfolding words_from
not_empty [] a as' e = absurd (cc)
not_empty (c ∷ line) a as' e = ground arith

dispatch_builtin :
    (a : Bytes) (as' : List Bytes) (b : Builtin)
    → builtin_of a ≡ some b
    → dispatch false (record { infile = none; outfile = none; args = a ∷ as' })
      ≡ builtin b (a ∷ as')
unfolding dispatch dispatch_args
dispatch_builtin a as' b is_b = rw (is_b, dispatch, dispatch_args) refl

-- A line of plain words of which the first one is the name of a built-in command.
handle_builtin :
    (line a : Bytes) (as' : List Bytes) (b : Builtin)
    → IsPlain line
    → words is_blank line ≡ a ∷ as'
    → Plain (a ∷ as')
    → length (a ∷ as') < max_arg_len
    → builtin_of a ≡ some b
    → handle_line (some line) ≡ some (builtin b (a ∷ as'))
unfolding handle_line dispatch
handle_builtin line a as' b p e plain short is_b =
    rw
      (
        not_empty line a as' e,
        not_exit line a as' b e is_b,
        strip_amp-no_amp line p.no_amp,
        split_pipe-none line p.no_pipe,
      )
      (rw (strip_amp-no_amp line p.no_amp) refl)
    ∙ run_simple_lem false line (map word (a ∷ as')) p.no_nul (e ∙ sym (flatten-words (a ∷ as')))
        (IsItem-words (a ∷ as') plain)
        (subst (λ l. length l < max_arg_len) (sym (flatten-words (a ∷ as'))) short)
    ∙ ap some (
        ap (dispatch false)
          (collect-words (a ∷ as') (record { infile = none; outfile = none; args = [] }))
        ∙ dispatch_builtin a as' b is_b)

module _ (k : Kernel) (o : Outside k) (rounds : ℕ) where
  -- Such a line at the prompt calls the command's function with the words behind its name, and the
  -- function reads on behind the line.
  pub session_builtin :
      (f : ℕ) (io : Io k) (line rest a : Bytes) (as' : List Bytes) (b : Builtin)
      → io.stdin ≡ line ++ (10 ∷ rest)
      → IsPlain line
      → words is_blank line ≡ a ∷ as'
      → Plain (a ∷ as')
      → length (a ∷ as') < max_arg_len
      → builtin_of a ≡ some b
      → session k o rounds (suc f) io
        ≡ and_then
            (run_builtin k o rounds b as' (record io { stdin = rest }))
            (session k o rounds f)
  unfolding session continue
  session_builtin f io line rest a as' b typed p e plain short is_b =
      let e1 : o.readline io.stdin ≡ some (line, rest) =
        ap o.readline typed ∙ o.readline_line line rest p.no_newline in
      rw (e1, handle_builtin line a as' b p e plain short is_b, session) refl

  stdin-cmd_rm :
      (args : List Bytes) (io : Io k) (file : Bytes)
      → has (codes "-i") args ≡ true
      → last? (others (codes "-i") args) none ≡ some file
      → (cmd_rm k args io).stdin ≡ (confirm_action io.stdin).1
  unfolding cmd_rm rm_file
  stdin-cmd_rm args io file flag last =
      rw (scan_one_lem (codes "-i") args false none, flag, last) (ground arith)

  -- `rm` with -i among its arguments, typed at the prompt with an answer on the next line, removes the
  -- last argument that is not -i when the answer begins with y or Y and leaves the system alone
  -- otherwise; the shell goes on with what was typed behind the answer.
  pub typed_rm :
      (f : ℕ) (io : Io k) (line answer rest file : Bytes) (c : ℕ) (args : List Bytes)
      → io.stdin ≡ line ++ (10 ∷ (c ∷ (answer ++ (10 ∷ rest))))
      → IsPlain line
      → words is_blank line ≡ codes "rm" ∷ args
      → Plain args
      → length (codes "rm" ∷ args) < max_arg_len
      → All (λ d. d ≢ 10) answer
      → has (codes "-i") args ≡ true
      → last? (others (codes "-i") args) none ≡ some file
      → (io' : Io k) × (session k o rounds (suc f) io ≡ session k o rounds f io')
        × (io'.stdin ≡ rest)
        × (io'.world ≡ (if c == b'y' || c == b'Y' then (k.unlink file io.world).1 else io.world))
  unfolding builtin_of str_eq run_builtin
  typed_rm f io line answer rest file c args typed p e plain short one_line flag last =
      let io1 : Io k = record io { stdin = c ∷ (answer ++ (10 ∷ rest)) } in
      let asked = confirm_action_lem c answer rest one_line in
      (
        cmd_rm k args io1,
        session_builtin f io line (c ∷ (answer ++ (10 ∷ rest))) (codes "rm") args rm typed p e
            ((refl, refl), plain) short refl,
        stdin-cmd_rm args io1 file flag last ∙ ap (λ q. q.1) asked,
        world-cmd_rm k args io1 ∙ rw (flag, last, asked) (ground arith),
      )
