-- ===== src/WebServer/Request.antt =====
-- lab3/7/cgiserver.c: how the server reads the request line of a query.
use mathlib.Core.Path.{subst}
use open_source_project.Prelude.{
  ℕ, ◌+◌, ◌<◌, ◌≡◌, ◌≢◌, inl, inr, refl, sym, ap, ◌∙◌, Bool, true, false, ◌&&◌, not, some, List, [],
  ◌∷◌, ◌++◌, append_assoc, arith, ltb, ◌==◌, Bool-cases, length, length-append, words, is_space,
  IsWord, words-append_blank, All, All-append, Bytes, codes, str_eq, str_eq_sound, NoNul,
}
use open_source_project.Prelude.Decimal.{print_int, IsInt, print_int-All, length-print_int}
use open_source_project.Prelude.Int.{ℤ}
use open_source_project.Prelude.Strings.{strstr, strstr_complete}
use open_source_project.WebServer.{scan_line, index_of, split_query}
use open_source_project.WebServer.Query.{query, split_query_lem}

-- A request of a browser for the CGI program `stem`.cgi.
abbrev pub file_name : Bytes → ℤ → ℤ → Bytes
file_name stem a b = codes "/" ++ (stem ++ (codes ".cgi?" ++ query a b))

abbrev pub request : Bytes → ℤ → ℤ → Bytes → Bytes
request stem a b rest =
    codes "GET " ++ (file_name stem a b ++ (codes " HTTP/1.1" ++ (13 ∷ 10 ∷ rest)))

scan_line_lem :
    (buf m f : Bytes) (more : List Bytes)
    → words is_space buf ≡ m ∷ f ∷ more
    → ltb (length m) 10 && ltb (length f) 100 ≡ true
    → scan_line buf ≡ some (m, f)
unfolding scan_line
scan_line_lem buf m f more e lt = rw (e, lt, scan_line)

ltb_of_lt : (m n : ℕ) → m < n → ltb m n ≡ true
ltb_of_lt m n h = ground arith

index_of_long : (x : Bytes) → 1 < length x → index_of x ≡ x
index_of_long x h = elim (Bool-cases (str_eq x (codes "/"))) [
  | inr e ↦ rw e refl
  | inl e ↦ absurd (omega (arith, ap length (str_eq_sound x (codes "/") e)))
]

abbrev no_zero : Bytes → Bool
no_zero [] = true
no_zero (c ∷ s) = not (c == 0) && no_zero s

NoNul-append : (s t : Bytes) → no_zero s ≡ true → NoNul t → NoNul (s ++ t)
NoNul-append [] t e h = h
NoNul-append (c ∷ s) t e h = ((λ q. ground arith), NoNul-append s t (ground arith) h)

module _ (stem rest : Bytes) (a b : ℤ) (word : All (λ c. is_space c ≡ false) stem)
    (no_query : All (λ c. (c == b'?') ≡ false) stem) (clean : NoNul stem) where
  All-query :
      (P : ℕ → Type 0)
      → ((d : ℕ) → d < 10 → P (48 + d))
      → P b'-'
      → P b'a'
      → P b'b'
      → P b'='
      → P b'&'
      → All P (query a b)
  All-query P d m pa pb pe pp = (
    pa,
    (
      pe,
      All-append P (print_int a) (codes "&b=" ++ print_int b) (print_int-All P d a m)
          (pp, (pb, (pe, print_int-All P d b m))),
    ),
  )

  file_name-IsWord : IsWord is_space (file_name stem a b)
  file_name-IsWord = (
    (λ e. absurd cc),
    (
      refl,
      All-append (λ c. is_space c ≡ false) stem (codes ".cgi?" ++ query a b) word
          (
            refl,
            (
              refl,
              (
                refl,
                (
                  refl,
                  (
                    refl,
                    All-query (λ c. is_space c ≡ false) (λ d h. ground arith) refl refl refl refl
                        refl,
                  ),
                ),
              ),
            ),
          ),
    ),
  )

  length-file_name : IsInt a → IsInt b → length stem < 60 → length (file_name stem a b) < 100
  length-file_name ha hb h = omega (
    arith,
    length-append stem (codes ".cgi?" ++ query a b),
    length-append (print_int a) (codes "&b=" ++ print_int b),
    length-print_int a ha,
    length-print_int b hb,
  )

  -- The request up to the name, the name, and what follows.
  request-append :
      request stem a b rest
      ≡ codes "GET /"
        ++ (stem ++ (codes ".cgi?" ++ (query a b ++ (codes " HTTP/1.1" ++ (13 ∷ 10 ∷ rest)))))
  request-append =
      ap (λ t. codes "GET /" ++ t)
        (append_assoc stem (codes ".cgi?" ++ query a b) (codes " HTTP/1.1" ++ (13 ∷ 10 ∷ rest)))

  pub request-NoNul : NoNul rest → NoNul (request stem a b rest)
  request-NoNul h = subst NoNul (sym request-append) (
      NoNul-append (codes "GET /") _ refl (
        All-append (λ c. c ≢ 0) stem
          (codes ".cgi?" ++ (query a b ++ (codes " HTTP/1.1" ++ (13 ∷ 10 ∷ rest)))) clean
          (NoNul-append (codes ".cgi?") (query a b ++ (codes " HTTP/1.1" ++ (13 ∷ 10 ∷ [] ++ rest)))
            refl
            (All-append (λ c. c ≢ 0) (query a b) (codes " HTTP/1.1" ++ (13 ∷ 10 ∷ [] ++ rest))
              (All-query (λ c. c ≢ 0) (λ d lt. λ e. omega arith) (λ e. omega arith)
                (λ e. omega arith) (λ e. omega arith) (λ e. omega arith) (λ e. omega arith))
              (NoNul-append (codes " HTTP/1.1" ++ (13 ∷ 10 ∷ [])) rest refl h)))))

  pub scan_line-request :
      IsInt a
      → IsInt b
      → length stem < 60
      → scan_line (request stem a b rest) ≡ some (codes "GET", file_name stem a b)
  scan_line-request ha hb h =
      let t = codes "HTTP/1.1" ++ (13 ∷ 10 ∷ rest) in
      let e1 =
        words-append_blank is_space (codes "GET") (file_name stem a b ++ (32 ∷ t)) 32
          ((λ e. absurd cc), (refl, (refl, (refl, tt)))) refl in
      let e2 = words-append_blank is_space (file_name stem a b) t 32 file_name-IsWord refl in
      let lt : length (file_name stem a b) < 100 = length-file_name ha hb h in
      scan_line_lem (request stem a b rest) (codes "GET") (file_name stem a b) (words is_space t)
        (e1 ∙ ap (λ w. codes "GET" ∷ w) e2)
        (rw ((ltb_of_lt (length (file_name stem a b)) 100 lt)) refl)

  pub strstr-file_name : strstr (file_name stem a b) (codes ".cgi") ≡ true
  strstr-file_name = strstr_complete (codes "/" ++ stem) (codes ".cgi") (codes "?" ++ query a b)

  pub split_query-file_name :
      split_query (file_name stem a b) ≡ (codes "/" ++ (stem ++ codes ".cgi"), some (query a b))
  split_query-file_name =
      ap (λ t. split_query (codes "/" ++ t))
        (sym (append_assoc stem (codes ".cgi") (codes "?" ++ query a b)))
      ∙ split_query_lem (codes "/" ++ (stem ++ codes ".cgi")) (query a b) (
        refl,
        All-append (λ c. (c == b'?') ≡ false) stem (codes ".cgi") no_query
            (refl, (refl, (refl, (refl, tt)))),
      )

  pub index_of-file_name : index_of (file_name stem a b) ≡ file_name stem a b
  index_of-file_name =
      index_of_long (file_name stem a b)
        (omega (arith, length-append stem (codes ".cgi?" ++ query a b)))
