-- ===== src/WebServer.antt =====
-- lab3/7: the web server's handle_request (cgiserver.c) and the CGI program test_add.c. The processes
-- and files are a parameter.
mod Tests
pub mod Query
pub mod Request
pub mod Adder
pub mod Children
use open_source_project.Prelude.{
  ℕ, zero, suc, ◌+◌, ◌-◌, ◌*◌, ◌/◌, ◌%◌, ◌^◌, ◌≤◌, ◌<◌, ◌≡◌, ◌≢◌, ◌↔◌, ◌⊎◌, inl, inr, refl, sym, ap,
  ◌∙◌, Bool, true, false, ◌&&◌, ◌||◌, not, Option, none, some, List, [], ◌∷◌, ◌++◌, map,
  append_assoc, append-nil, arith, dec_lt, ℕ_discrete, ltb, leb, ◌==◌, ==_iff, if◌then◌else◌,
  Bool-cases, Option-cases, length, get_elem?, get_or, set, take, drop, replicate, length-append,
  length-set, get_or-set_self, get_or-set_ne, get_elem?-set_self, get_elem?-set_ne, keep, words,
  words_from, is_space, IsWord, words-append_blank, words_last, All, All-append, Bytes, codes,
  str_eq, str_eq_iff, str_eq_sound, str_eq_refl, starts_with, cstr, NoNul, cstr-append_nul,
  cstr_of_NoNul,
}
use open_source_project.Prelude.Decimal.{print_nat, print_int, atoi}
use open_source_project.Prelude.Int.{ℤ, pos, negsuc}
use open_source_project.Prelude.Strings.{fgets, strstr}
use open_source_project.ChatServer.Registry.{◌>>=◌}

-- `strstr`, and the text behind the first place where `p` stands.
unfoldable pub behind : Bytes → Bytes → Option Bytes
behind [] p = if starts_with [] p then some [] else none
behind (c ∷ s) p = if starts_with (c ∷ s) p then some (drop (length p) (c ∷ s)) else behind s p

-- What the server gives to a CGI program, and the program's name.
pub record Cgi : Type 0 where
  pub program : Bytes
  pub request_method : Bytes
  pub content_length : Option Bytes
  pub query_string : Option Bytes
  pub stdin : Bytes

-- What is sent: text of the server's own with a file or the output of a program behind it.
pub data Response : Type 0 where
  nothing : Response
  run_cgi : Bytes → Cgi → Response
  page : Bytes → Bytes → Response
  not_found : Bytes → Response

-- The two words that `sscanf` reads, where they fit into method[10] and file_name[100]; a request
-- with fewer words leaves an array that nothing wrote.
unfoldable pub scan_line : Bytes → Option (Bytes × Bytes)
scan_line buf = elim (words is_space buf) [
  | [] ↦ none
  | method ∷ more ↦ elim more [
    | [] ↦ none
    | file_name ∷ rest ↦
        if ltb (length method) 10 && ltb (length file_name) 100
        then some (method, file_name)
        else none
  ]
]

-- `if (strcmp(file_name, "/") == 0) strcpy(file_name, "/index.html");`
abbrev pub index_of : Bytes → Bytes
index_of file_name = if str_eq file_name (codes "/") then codes "/index.html" else file_name

-- The text before the first ?, and the text behind it.
unfoldable pub split_query : Bytes → Bytes × Option Bytes
split_query [] = ([], none)
split_query (c ∷ s) =
    let (path, query) = split_query s in if c == b'?' then ([], some s) else (c ∷ path, query)

-- The first 17, 44 and 36 bytes of the literals; the last one sends its NUL too.
abbrev ok_line : Bytes
ok_line = codes "HTTP/1.1 200 OK" ++ (13 ∷ 10 ∷ [])

abbrev page_head : Bytes
page_head = ok_line ++ (codes "Content-Type: text/html" ++ (13 ∷ 10 ∷ 13 ∷ 10 ∷ []))

abbrev error_page : Bytes
error_page = codes "HTTP/1.1 404 Not Found" ++ (13 ∷ 10 ∷ 13 ∷ 10 ∷ (codes "404 Error" ++ (0 ∷ [])))

-- The CGI program with its environment and its input, for the body of the request.
unfoldable pub start_cgi : Bytes → Bytes → Option Bytes → Response
unfolding split_query
start_cgi method file_name body =
    let (path, query) = split_query file_name in
    let given = if str_eq method (codes "POST") then elim body [ none ↦ [] | some b ↦ b ] else [] in
    run_cgi ok_line (record {
      program = drop 1 path;
      request_method = method;
      content_length = elim body [ none ↦ none | some b ↦ some (print_nat (length b)) ];
      query_string = query;
      stdin = given;
    })

-- A static page, out of the files that open.
unfoldable pub static_page : (Bytes → Option Bytes) → Bytes → Response
static_page files file_name = elim (files (codes "." ++ file_name)) [
  | none ↦ not_found error_page
  | some content ↦ page page_head content
]

-- `got` is what `read` gives, at most 2047 bytes; none where an array overflows or was not written.
unfoldable pub handle_request : (Bytes → Option Bytes) → Bytes → Option Response
unfolding scan_line start_cgi static_page behind
handle_request files [] = some nothing
handle_request files (c ∷ got) =
    let buf = cstr (c ∷ got) in
    let body = behind buf (13 ∷ 10 ∷ 13 ∷ 10 ∷ []) in
    scan_line buf >>= λ r.
    let file_name = index_of r.1 in
    if strstr file_name (codes ".cgi")
    then some (start_cgi r.0 file_name body)
    else some (static_page files file_name)

-- `a + b`, where an `int` holds it.
abbrev pub ◌+ℤ◌ : ℤ → ℤ → ℤ

infixl 20 ◌+ℤ◌
pos a +ℤ pos b = pos (a + b)
negsuc a +ℤ negsuc b = negsuc (a + b + 1)
pos a +ℤ negsuc b = if leb (b + 1) a then pos (a - (b + 1)) else negsuc (b - a)
negsuc a +ℤ pos b = if leb (a + 1) b then pos (b - (a + 1)) else negsuc (a - b)

abbrev pub is_int : ℤ → Bool
is_int (pos n) = ltb n (2 ^ 31)
is_int (negsuc n) = ltb n (2 ^ 31)

abbrev pub calculation : ℤ → ℤ → Bytes
calculation a b =
    codes "<h2>Calculation: "
    ++ (print_int a
        ++ (codes " + " ++ (print_int b ++ (codes " = " ++ (print_int (a +ℤ b) ++ codes "</h2>")))))

-- The calculation for a query; nothing where it has no a= or no b=, none where a number or the sum is
-- no `int`.
unfoldable pub calculate : Bytes → Option Bytes
unfolding behind
calculate query = elim (behind query (codes "a=")) [
  | none ↦ some []
  | some ptr_a ↦ elim (behind query (codes "b=")) [
    | none ↦ some []
    | some ptr_b ↦ atoi ptr_a >>= λ a.
        atoi ptr_b >>= λ b. if is_int (a +ℤ b) then some (calculation a b) else none
  ]
]

abbrev pub calculate_if : Option Bytes → Option Bytes
calculate_if none = some []
calculate_if (some query) = calculate query

-- The line about the data, and the query.
unfoldable pub read_query : Bytes → Option Bytes → Bytes → Bytes × Option Bytes
read_query method query_string stdin =
    let post_data = cstr (fgets 1023 stdin).0 in
    if str_eq method (codes "GET")
    then elim query_string [
      | none ↦ ([], none)
      | some q ↦ (codes "<p>GET Data: " ++ (q ++ codes "</p>"), some q)
    ]
    else if str_eq method (codes "POST")
    then (elim stdin [
      | [] ↦ ([], none)
      | c ∷ rest ↦ (codes "<p>POST Data: " ++ (post_data ++ codes "</p>"), some post_data)
    ])
    else ([], none)

-- `main` of test_add.c for a method that is set.
unfoldable pub test_add : Bytes → Option Bytes → Bytes → Option Bytes
unfolding read_query calculate
test_add method query_string stdin =
    let (data_line, query) = read_query method query_string stdin in
    calculate_if query >>= λ result. some (
      codes "Content-type: text/html"
      ++ (13
          ∷ 10
          ∷ 13
          ∷ 10
          ∷ (codes "<html><body><h1>CGI Result</h1><p>Method: "
              ++ (method ++ (codes "</p>" ++ (data_line ++ (result ++ codes "</body></html>")))))))
