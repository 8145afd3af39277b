-- ===== src/WebServer/Adder.antt =====
-- lab3/7: a sum that a browser asks for, through the server and the CGI program.
use open_source_project.Prelude.{
  ℕ, ◌+◌, arith, ◌<◌, ◌≡◌, refl, ap, ◌∙◌, true, false, Option, none, some, [], ◌∷◌, ◌++◌, ◌==◌,
  length, drop, is_space, All, Bytes, codes, str_eq, cstr, NoNul, cstr_of_NoNul,
}
use open_source_project.Prelude.Decimal.{print_nat, print_int, IsInt}
use open_source_project.Prelude.Int.{ℤ, pos, negsuc}
use open_source_project.Prelude.Strings.{strstr}
use open_source_project.WebServer.{
  behind, Cgi, run_cgi, scan_line, index_of, split_query, ok_line, start_cgi, handle_request, ◌+ℤ◌,
  is_int, test_add,
}
use open_source_project.WebServer.Query.{query, calculate-query, page_of, test_add_get}
use open_source_project.WebServer.Request.{
  file_name, request, request-NoNul, scan_line-request, strstr-file_name, split_query-file_name,
  index_of-file_name,
}

-- The sum, by the parts of the numbers above and below 0.
abbrev above : ℤ → ℕ
above (pos n) = n
above (negsuc n) = 0

abbrev below : ℤ → ℕ
below (pos n) = 0
below (negsuc n) = n + 1

abbrev pub IsSum : ℤ → ℤ → ℤ → Type 0
IsSum a b sum = above sum + below a + below b ≡ below sum + above a + above b

IsSum-add : (a b : ℤ) → IsSum a b (a +ℤ b)
IsSum-add (pos a) (pos b) = omega arith
IsSum-add (negsuc a) (negsuc b) = omega arith
IsSum-add (pos a) (negsuc b) = ground arith
IsSum-add (negsuc a) (pos b) = ground arith

-- The line of the page.
abbrev pub sum_line : ℤ → ℤ → ℤ → Bytes
sum_line a b sum =
    codes "<h2>Calculation: "
    ++ (print_int a
        ++ (codes " + " ++ (print_int b ++ (codes " = " ++ (print_int sum ++ codes "</h2>")))))

-- What the program is started with.
abbrev pub started : Bytes → ℤ → ℤ → Option Bytes → Cgi
started stem a b len = record {
  program = stem ++ codes ".cgi";
  request_method = codes "GET";
  content_length = len;
  query_string = some (query a b);
  stdin = [];
}

-- What a program of the name `f` is started with for a request without a body of its own.
abbrev get_cgi : Bytes → Option Bytes → Cgi
get_cgi f body = record {
  program = drop 1 (split_query f).0;
  request_method = codes "GET";
  content_length = elim body [ none ↦ none | some b ↦ some (print_nat (length b)) ];
  query_string = (split_query f).1;
  stdin = [];
}

start_cgi_get :
    (f : Bytes) (body : Option Bytes)
    → start_cgi (codes "GET") f body ≡ run_cgi ok_line (get_cgi f body)
unfolding start_cgi str_eq
start_cgi_get f body = refl

handle_request_cgi :
    (c : ℕ) (got f : Bytes) (files : Bytes → Option Bytes)
    → cstr (c ∷ got) ≡ c ∷ got
    → scan_line (c ∷ got) ≡ some (codes "GET", f)
    → index_of f ≡ f
    → strstr f (codes ".cgi") ≡ true
    → handle_request files (c ∷ got)
      ≡ some (run_cgi ok_line (get_cgi f (behind (c ∷ got) (13 ∷ 10 ∷ 13 ∷ 10 ∷ []))))
unfolding handle_request
handle_request_cgi c got f files e1 e2 e3 e4 =
    rw (e1, e2, e3, e4, start_cgi_get f (behind (c ∷ got) (13 ∷ 10 ∷ 13 ∷ 10 ∷ [])))

module _ (stem rest : Bytes) (a b : ℤ) (word : All (λ c. is_space c ≡ false) stem)
    (no_query : All (λ c. (c == b'?') ≡ false) stem) (clean : NoNul stem) where
  module _ (files : Bytes → Option Bytes) (clean_rest : NoNul rest) (short : length stem < 60)
      (ha : IsInt a) (hb : IsInt b) (hs : is_int (a +ℤ b) ≡ true) where
    -- A GET request for a CGI program whose name has no blank, no ? and less than 60 bytes, with two
    -- numbers of type int as a and b, starts that program with the query and no input; and test_add then
    -- answers with the two numbers and their sum, where that is an int.
    pub handle_request-test_add :
        (len : Option Bytes) × (handle_request files (request stem a b rest)
          ≡ some (run_cgi ok_line (started stem a b len)))
        × ((sum : ℤ) × IsSum a b sum
            × (test_add (codes "GET") (some (query a b)) []
                ≡ some (page_of (query a b) (sum_line a b sum))))
    handle_request-test_add = (
      (get_cgi (file_name stem a b)
          (behind (request stem a b rest) (13 ∷ 10 ∷ 13 ∷ 10 ∷ []))).content_length,
      handle_request_cgi b'G' (drop 1 (request stem a b rest)) (file_name stem a b) files
            (cstr_of_NoNul (request stem a b rest)
              (request-NoNul stem rest a b word no_query clean clean_rest))
            (scan_line-request stem rest a b word no_query clean ha hb short)
            (index_of-file_name stem rest a b word no_query clean)
            (strstr-file_name stem rest a b word no_query clean)
          ∙ ap
              (λ p. some (
                run_cgi ok_line (record {
                  program = drop 1 p.0;
                  request_method = codes "GET";
                  content_length =
                      (get_cgi (file_name stem a b)
                        (behind (request stem a b rest) (13 ∷ 10 ∷ 13 ∷ 10 ∷ []))).content_length;
                  query_string = p.1;
                  stdin = [];
                })))
              (split_query-file_name stem rest a b word no_query clean),
      (
        a +ℤ b,
        IsSum-add a b,
        test_add_get (query a b) (sum_line a b (a +ℤ b)) (calculate-query a b ha hb hs),
      ),
    )
