-- ===== src/WebServer/Query.antt =====
-- lab3/7/test_add.c: the query with two numbers, and the program's answer to it.
use open_source_project.ChatServer.Registry.{◌>>=◌}
use open_source_project.Prelude.{
  ℕ, ◌≡◌, refl, sym, ap, ◌∙◌, true, false, some, [], ◌∷◌, ◌++◌, append-nil, arith, ◌==◌, All, Bytes,
  codes, str_eq, starts_with,
}
use open_source_project.Prelude.Decimal.{print_int, atoi, atoi-print_int, IsInt, print_int-All}
use open_source_project.Prelude.Int.{ℤ}
use open_source_project.WebServer.{
  behind, split_query, ◌+ℤ◌, is_int, calculation, calculate, read_query, test_add,
}

-- The query that a form with two numbers sends.
abbrev pub query : ℤ → ℤ → Bytes
query a b = codes "a=" ++ (print_int a ++ (codes "&b=" ++ print_int b))

behind_skip :
    (c : ℕ) (p w rest : Bytes)
    → All (λ x. (x == c) ≡ false) w
    → behind (w ++ rest) (c ∷ p) ≡ behind rest (c ∷ p)
unfolding behind starts_with
behind_skip c p [] rest h = refl
behind_skip c p (x ∷ w) rest (hx, h) = rw hx (behind_skip c p w rest h)

behind_b : (a b : ℤ) → behind (query a b) (codes "b=") ≡ some (print_int b)
unfolding behind starts_with
behind_b a b =
    behind_skip b'b' (codes "=") (print_int a) (codes "&b=" ++ print_int b)
      (print_int-All (λ x. (x == b'b') ≡ false) (λ d h. ground arith) a refl)

behind_a :
    (a b : ℤ) → behind (query a b) (codes "a=") ≡ some (print_int a ++ (codes "&b=" ++ print_int b))
unfolding behind starts_with
behind_a a b = refl

calculate_lem :
    (q s t : Bytes) (a b : ℤ)
    → behind q (codes "a=") ≡ some s
    → behind q (codes "b=") ≡ some t
    → atoi s ≡ some a
    → atoi t ≡ some b
    → is_int (a +ℤ b) ≡ true
    → calculate q ≡ some (calculation a b)
unfolding calculate
calculate_lem q s t a b e1 e2 e3 e4 e5 = rw (e1, e2, e3, e4, e5, calculate)

pub calculate-query :
    (a b : ℤ)
    → IsInt a
    → IsInt b
    → is_int (a +ℤ b) ≡ true
    → calculate (query a b) ≡ some (calculation a b)
calculate-query a b ha hb hs =
    calculate_lem (query a b) (print_int a ++ (codes "&b=" ++ print_int b)) (print_int b) a b
      (behind_a a b) (behind_b a b) (atoi-print_int a (codes "&b=" ++ print_int b) ha refl)
      (ap atoi (sym (append-nil (print_int b))) ∙ atoi-print_int b [] hb tt) hs

pub split_query_lem :
    (path q : Bytes)
    → All (λ x. (x == b'?') ≡ false) path
    → split_query (path ++ (b'?' ∷ q)) ≡ (path, some q)
unfolding split_query
split_query_lem [] q h = refl
split_query_lem (c ∷ path) q (hc, h) = rw (hc, split_query_lem path q h)

-- The page for a query of the method GET, for the text that the calculation gives.
abbrev pub page_of : Bytes → Bytes → Bytes
page_of q r =
    codes "Content-type: text/html"
    ++ (13
        ∷ 10
        ∷ 13
        ∷ 10
        ∷ (codes "<html><body><h1>CGI Result</h1><p>Method: "
            ++ (codes "GET"
                ++ (codes "</p>"
                    ++ ((codes "<p>GET Data: " ++ (q ++ codes "</p>"))
                        ++ (r ++ codes "</body></html>"))))))

pub test_add_get :
    (q r : Bytes) → calculate q ≡ some r → test_add (codes "GET") (some q) [] ≡ some (page_of q r)
unfolding test_add read_query str_eq
test_add_get q r e = ap (λ o. o >>= λ x. some (page_of q x)) e
