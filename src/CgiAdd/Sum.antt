-- ===== src/CgiAdd/Sum.antt =====
-- http/wwwroot/cgi/cgi_add.c run by http/httpd.c.
use network_code.Base.{
  ℕ, zero, suc, ◌+◌, ◌-◌, ◌^◌, ◌<◌, ◌≡◌, ◌≢◌, refl, ap, ◌∙◌, pos, some, List, [], ◌∷◌, ◌++◌, ◌==◌,
  length, codes, print_int, print_nat, replicate, Bool, true, false, not, arith, append_assoc,
  length-append, map, to_lower,
}
use network_code.Base.Decimal.{all, atoi-print_nat_alone, c_str-print_nat_nul, print_nat-all}
use network_code.Base.Strings.{str_eq_comm}
use network_code.Httpd.Cgi.{cgi_env}
use network_code.Httpd.Request.{is_get, is_post}
use network_code.Httpd.Request.Line.{is_post-not_get}
use network_code.CgiAdd.{
  ends, faults, getenv, find_amp, add_int, show_sum, exec_calc, read_data, post_array, page_start,
  main,
}

abbrev no_amp : ℕ → Bool
no_amp c = not (c == b'&')

find_amp-append :
    (n : ℕ) (before after : List ℕ)
    → all no_amp before ≡ true
    → length before < n
    → find_amp n (before ++ b'&' ∷ after) ≡ some (before, after)
unfolding find_amp
find_amp-append zero before after h lt = absurd (omega arith)
find_amp-append (suc n) [] after h lt = refl
find_amp-append (suc n) (c ∷ before) after h lt = ground (arith, find_amp-append n before after)

pub read_data-all : (ch : ℕ) (input : List ℕ) → read_data (length input) ch input ≡ input
unfolding read_data
read_data-all ch [] = refl
read_data-all ch (c ∷ input) = ap (λ (l : List ℕ). c ∷ l) (read_data-all c input)

-- In the environment that the server makes for a GET request the program faults on every query that
-- is not empty: it reads CONTENT_LENGTH, which the server sets for POST only.
get_faults :
    (m : List ℕ) (c : ℕ) (query : List ℕ) (ch : ℕ) (input : List ℕ)
    → is_get m ≡ true
    → c ≢ 0
    → length (c ∷ query) < 1024
    → main (cgi_env m (c ∷ query) (pos 0)) ch input ≡ faults
unfolding main exec_calc getenv
get_faults m c query ch input g ne fits =
    ground (arith, g, str_eq_comm (codes "get") (map to_lower m))

-- The form that is posted: two numbers.
abbrev pub form : ℕ → ℕ → List ℕ
form a b = (codes "v1=" ++ print_nat a) ++ b'&' ∷ (codes "v2=" ++ print_nat b)

-- What is written for it.
abbrev pub sum_lines : ℕ → ℕ → List ℕ
sum_lines a b =
    (codes "v1=" ++ print_nat a)
    ++ (codes "<br/>\n"
        ++ ((codes "v2=" ++ print_nat b)
            ++ (codes "<br/>\n<p>v1+v2=" ++ (print_nat (a + b) ++ codes "<br/>\n"))))

add_int_small : (a b : ℕ) → a + b < 2 ^ 31 → add_int (pos a) (pos b) ≡ pos (a + b)
add_int_small a b h = ground arith

show_sum-form :
    (a b : ℕ) (t : List ℕ)
    → a + b < 2 ^ 31
    → show_sum (codes "v1=" ++ print_nat a) ((codes "v2=" ++ print_nat b) ++ 0 ∷ t) ≡ sum_lines a b
unfolding show_sum print_int
show_sum-form a b t h = rw (
  c_str-print_nat_nul a ((codes "v2=" ++ print_nat b) ++ 0 ∷ t),
  c_str-print_nat_nul b t,
  atoi-print_nat_alone a (omega arith),
  atoi-print_nat_alone b (omega arith),
  add_int_small a b h,
)

form-no_amp : (a : ℕ) → all no_amp (codes "v1=" ++ print_nat a) ≡ true
form-no_amp a = print_nat-all no_amp a (λ d h. ground arith)

-- The array after the form: zeros, at least one.
pub zeros : (n : ℕ) → n < 1024 → (t : List ℕ) × (replicate (1024 - n) 0 ≡ 0 ∷ t)
zeros n h = more (1024 - n) (omega arith)
  where
    more : (k : ℕ) → 0 < k → (t : List ℕ) × (replicate k 0 ≡ 0 ∷ t)
    more zero h = absurd (omega arith)
    more (suc k) h = (replicate k 0, refl)

form_array :
    (a b : ℕ) (t : List ℕ)
    → form a b ++ t ≡ (codes "v1=" ++ print_nat a) ++ b'&' ∷ ((codes "v2=" ++ print_nat b) ++ t)
form_array a b t = append_assoc (codes "v1=" ++ print_nat a) (b'&' ∷ (codes "v2=" ++ print_nat b)) t

length-form : (a b : ℕ) → length (codes "v1=" ++ print_nat a) < length (form a b)
length-form a b =
    omega
      (arith, length-append {0} (codes "v1=" ++ print_nat a) (b'&' ∷ (codes "v2=" ++ print_nat b)))

found_amp :
    (a b : ℕ) (t : List ℕ)
    → find_amp (length (form a b)) (form a b ++ t)
      ≡ some (codes "v1=" ++ print_nat a, (codes "v2=" ++ print_nat b) ++ t)
found_amp a b t =
    ap (find_amp (length (form a b))) (form_array a b t)
    ∙ find_amp-append (length (form a b)) (codes "v1=" ++ print_nat a)
        ((codes "v2=" ++ print_nat b) ++ t) (form-no_amp a) (length-form a b)

module _ (a b : ℕ) (env : List (List ℕ)) (t out : List ℕ) (small : a + b < 2 ^ 31) where
  calc_form :
      getenv (codes "CONTENT_LENGTH") env ≡ some (print_nat (length (form a b)))
      → length (form a b) < 1024
      → exec_calc env (form a b ++ 0 ∷ t) out ≡ ends 0 (out ++ sum_lines a b)
  unfolding exec_calc
  calc_form e fits = ground (
    arith,
    e,
    atoi-print_nat_alone (length (form a b)),
    found_amp a b (0 ∷ t),
    show_sum-form a b t small,
  )

module _ (m query : List ℕ) (ch a b : ℕ) where
  abbrev post_env : List (List ℕ)
  post_env = cgi_env m query (pos (length (form a b)))

  env_length :
      is_get m ≡ false
      → getenv (codes "CONTENT_LENGTH") post_env ≡ some (print_nat (length (form a b)))
  unfolding getenv print_int
  env_length g = rw g

  calc_array :
      is_get m ≡ false
      → a + b < 2 ^ 31
      → length (form a b) < 1024
      → exec_calc post_env (post_array (form a b)) page_start ≡ ends 0 (page_start ++ sum_lines a b)
  calc_array g small fits =
      let (t, e) = zeros (length (form a b)) fits in
      ap (λ (z : List ℕ). exec_calc post_env (form a b ++ z) page_start) e
      ∙ calc_form a b post_env t page_start small (env_length g) fits

  env_method : getenv (codes "REQUEST_METHOD") post_env ≡ some m
  unfolding getenv
  env_method = refl

  -- In the environment and with the input that the server gives it for a POST request, the program
  -- writes the page with the two fields and their sum, and ends with code 0: for every form of two
  -- numbers whose sum is below 2 ^ 31, and whose text fits the array.
  pub post_adds :
      is_post m ≡ true
      → a + b < 2 ^ 31
      → length (form a b) < 1024
      → main post_env ch (form a b)
        ≡ ends 0 ((page_start ++ sum_lines a b) ++ codes "</body><br/>\n</html><br/>\n")
  unfolding main
  post_adds p small fits = ground (
    arith,
    env_method,
    is_post-not_get m p,
    str_eq_comm (codes "get") (map to_lower m),
    env_length (is_post-not_get m p),
    atoi-print_nat_alone (length (form a b)),
    read_data-all ch (form a b),
    calc_array (is_post-not_get m p) small fits,
  )
