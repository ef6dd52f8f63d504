-- ===== src/Httpd/Request/Line.antt =====
-- Whole request lines of http/httpd.c, and what `HandleSock` makes of them.
use network_code.Base.{
  ℕ, ◌≤◌, ◌<◌, ◌≡◌, refl, true, false, none, some, List, [], ◌∷◌, ◌++◌, append_assoc, arith, length,
}
use network_code.Httpd.Line.Chop.{plain}
use network_code.Httpd.Request.{request_words, local_path, parse_request, is_get, is_post}
use network_code.Httpd.Request.Words.{
  is_word, no_query, request_words-line, split_query-plain, split_query-append,
}

-- No method is both.
pub is_post-not_get : (m : List ℕ) → is_post m ≡ true → is_get m ≡ false
is_post-not_get [] h = cc
is_post-not_get (c ∷ m) h = ground arith

-- A request line without its end: method, URL, and what follows.
abbrev pub request_line : List ℕ → ℕ → List ℕ → List ℕ → List ℕ
request_line m c u version = m ++ 32 ∷ ((c ∷ u) ++ 32 ∷ version)

plain-append : (xs ys : List ℕ) → plain xs ≡ true → plain ys ≡ true → plain (xs ++ ys) ≡ true
plain-append [] ys p q = q
plain-append (x ∷ xs) ys p q = ground (arith, plain-append xs ys)

plain-word : (s : List ℕ) → is_word s ≡ true → plain s ≡ true
plain-word [] w = refl
plain-word (c ∷ s) w = ground (arith, plain-word s)

-- What is asked of a request line: two words that fit their arrays, and the whole in `buf`.
pub record IsRequest (m : List ℕ) (c : ℕ) (u version : List ℕ) : Type 0 where
  pub method_word : is_word m ≡ true
  pub method_fits : length m ≤ 254
  pub url_word : is_word (c ∷ u) ≡ true
  pub url_fits : length (c ∷ u) ≤ 254
  pub one_line : plain version ≡ true
  pub line_fits : length (request_line m c u version) < 1024

module _ {m : List ℕ} {c : ℕ} {u version : List ℕ} (q : IsRequest m c u version) where
  open q use {method_word, method_fits, url_word, url_fits, one_line}

  pub plain-request_line : plain (request_line m c u version) ≡ true
  plain-request_line =
      plain-append m (32 ∷ ((c ∷ u) ++ 32 ∷ version)) (plain-word m method_word)
        (plain-append (c ∷ u) (32 ∷ version) (plain-word (c ∷ u) url_word) one_line)

  pub words_of_request : request_words (request_line m c u version ++ 10 ∷ []) ≡ (m, c ∷ u)
  words_of_request =
      rw
        (
          append_assoc m (32 ∷ ((c ∷ u) ++ 32 ∷ version)) (10 ∷ []),
          append_assoc (c ∷ u) (32 ∷ version) (10 ∷ []),
        )
        (request_words-line m c u (version ++ 10 ∷ []) method_word method_fits url_word url_fits)

  -- A GET request without a query.
  pub parse_get_plain :
      is_get m ≡ true
      → no_query (c ∷ u) ≡ true
      → parse_request (request_line m c u version ++ 10 ∷ [])
        ≡ some
            (record { method = m; url = c ∷ u; query = []; cgi = false; path = local_path (c ∷ u) })
  unfolding parse_request
  parse_get_plain g n = rw (words_of_request, g, split_query-plain (c ∷ u) n)

  pub parse_post :
      is_post m ≡ true
      → parse_request (request_line m c u version ++ 10 ∷ [])
        ≡ some (record {
          method = m;
          url = c ∷ u;
          query = c ∷ u;
          cgi = true;
          path = local_path (c ∷ u);
        })
  unfolding parse_request
  parse_post p = rw (words_of_request, p, is_post-not_get m p)

  pub parse_other :
      is_get m ≡ false
      → is_post m ≡ false
      → parse_request (request_line m c u version ++ 10 ∷ []) ≡ none
  unfolding parse_request
  parse_other g p = rw (words_of_request, g, p)

  -- A GET request with a query behind the first '?'.
  pub parse_get_query :
      (before after : List ℕ)
      → is_get m ≡ true
      → no_query before ≡ true
      → c ∷ u ≡ before ++ b'?' ∷ after
      → parse_request (request_line m c u version ++ 10 ∷ [])
        ≡ some (record {
          method = m;
          url = before;
          query = after;
          cgi = true;
          path = local_path before;
        })
  unfolding parse_request
  parse_get_query before after g n e =
      rw (words_of_request, g, e, split_query-append before after n)
