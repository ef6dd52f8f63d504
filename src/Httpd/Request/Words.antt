-- ===== src/Httpd/Request/Words.antt =====
-- The words of a request line of http/httpd.c, the query, and the room in the arrays.
use network_code.Base.{
  ℕ, zero, suc, ◌+◌, ◌-◌, ◌≤◌, ◌<◌, ◌≡◌, refl, Bool, true, false, not, ◌&&◌, some, List, [], ◌∷◌,
  ◌++◌, append_assoc, arith, ◌==◌, if◌then◌else◌, length, length-append, c_str, is_space, replicate,
  codes,
}
use network_code.Httpd.Request.{
  buf_array, copy_method, skip_blanks, copy_url, request_words, split_query, local_path, Request,
  parse_request,
}

-- A word of the request line: no blanks and no NUL, at most 254 bytes.
abbrev pub is_word : List ℕ → Bool
is_word [] = true
is_word (c ∷ s) = not (is_space c) && not (c == 0) && is_word s

copy_method-word :
    (room : ℕ) (m cs : List ℕ)
    → is_word m ≡ true
    → length m ≤ room
    → copy_method room (m ++ 32 ∷ cs) ≡ (m, 32 ∷ cs)
unfolding copy_method
copy_method-word zero [] cs w le = refl
copy_method-word zero (c ∷ m) cs w le = absurd (omega arith)
copy_method-word (suc room) [] cs w le = refl
copy_method-word (suc room) (c ∷ m) cs w le = ground (arith, copy_method-word room m cs)

skip_blanks-word :
    (c : ℕ) (u cs : List ℕ)
    → is_space c ≡ false
    → skip_blanks (32 ∷ (c ∷ u) ++ 32 ∷ cs) ≡ (c ∷ u) ++ 32 ∷ cs
unfolding skip_blanks
skip_blanks-word c [] cs w = ground arith
skip_blanks-word c (d ∷ u) cs w = ground arith

copy_url-word :
    (room : ℕ) (u cs : List ℕ)
    → is_word u ≡ true
    → length u ≤ room
    → copy_url room (u ++ 32 ∷ cs) ≡ u
unfolding copy_url
copy_url-word zero [] cs w le = refl
copy_url-word zero (c ∷ u) cs w le = absurd (omega arith)
copy_url-word (suc room) [] [] w le = refl
copy_url-word (suc room) [] (d ∷ cs) w le = refl
copy_url-word (suc room) (c ∷ []) cs w le = ground (arith, copy_url-word room [] cs)
copy_url-word (suc room) (c ∷ d ∷ u) cs w le = ground (arith, copy_url-word room (d ∷ u) cs)

c_str-word : (s : List ℕ) → is_word s ≡ true → c_str s ≡ s
c_str-word [] w = refl
c_str-word (c ∷ s) w = ground (arith, c_str-word s)

abbrev padding : List ℕ → ℕ → List ℕ → List ℕ → List ℕ
padding m c u rest = replicate (1025 - length (m ++ 32 ∷ ((c ∷ u) ++ 32 ∷ rest))) 0

-- Of a line `method url rest`, whose first two words have no blank and no NUL and at most 254
-- bytes each, the loops of `HandleSock` return exactly the two words.
pub request_words-line :
    (m : List ℕ) (c : ℕ) (u rest : List ℕ)
    → is_word m ≡ true
    → length m ≤ 254
    → is_word (c ∷ u) ≡ true
    → length (c ∷ u) ≤ 254
    → request_words (m ++ 32 ∷ ((c ∷ u) ++ 32 ∷ rest)) ≡ (m, c ∷ u)
unfolding request_words
request_words-line m c u rest wm lm wu lu = rw (
  append_assoc m (32 ∷ ((c ∷ u) ++ 32 ∷ rest)) (padding m c u rest),
  copy_method-word 254 m (((c ∷ u) ++ 32 ∷ rest) ++ padding m c u rest) wm lm,
  append_assoc (c ∷ u) (32 ∷ rest) (padding m c u rest),
  skip_blanks-word c u (rest ++ padding m c u rest) (ground arith),
  copy_url-word 254 (c ∷ u) (rest ++ padding m c u rest) wu lu,
  c_str-word m wm,
  c_str-word (c ∷ u) wu,
)

-- The bytes hold no '?'.
abbrev pub no_query : List ℕ → Bool
no_query [] = true
no_query (c ∷ s) = not (c == b'?') && no_query s

-- The query loop finds exactly the first '?': what it leaves in the URL has none, and either the
-- URL was that text, '?' and the query, or it had no '?' and is unchanged.
pub split_query_lem :
    (url : List ℕ)
    → let (before, after, found) = split_query url in
      (no_query before ≡ true)
      × (url ≡ (if found then before ++ b'?' ∷ after else before))
      × (found ≡ not (no_query url))
unfolding split_query
split_query_lem [] = (refl, refl, refl)
split_query_lem (c ∷ url) = ground (arith, split_query_lem url)

length-c_str : (s : List ℕ) → length (c_str s) ≤ length s
length-c_str [] = omega arith
length-c_str (c ∷ s) = ground (arith, length-c_str s)

length-copy_method : (room : ℕ) (cs : List ℕ) → length (copy_method room cs).0 ≤ room
unfolding copy_method
length-copy_method zero cs = omega arith
length-copy_method (suc room) [] = omega arith
length-copy_method (suc room) (c ∷ cs) = ground (arith, length-copy_method room cs)

length-copy_url : (room : ℕ) (cs : List ℕ) → length (copy_url room cs) ≤ room
unfolding copy_url
length-copy_url zero cs = omega arith
length-copy_url (suc room) [] = omega arith
length-copy_url (suc room) (c ∷ []) = omega arith
length-copy_url (suc room) (c ∷ d ∷ cs) = ground (arith, length-copy_url room (d ∷ cs))

length-split_query :
    (url : List ℕ)
    → let (before, after, found) = split_query url in
      (length before ≤ length url) × (length after ≤ length url)
unfolding split_query
length-split_query [] = omega arith
length-split_query (c ∷ url) = ground (arith, length-split_query url)

length-request_words :
    (line : List ℕ) → (length (request_words line).0 ≤ 254) × (length (request_words line).1 ≤ 254)
unfolding request_words
length-request_words line =
    let method : List ℕ = (copy_method 254 (buf_array line)).0 in
    let rest : List ℕ = skip_blanks (copy_method 254 (buf_array line)).1 in
    omega (
      arith,
      length-c_str method,
      length-copy_method 254 (buf_array line),
      length-c_str (copy_url 254 rest),
      length-copy_url 254 rest,
    )

length-local_path : (url : List ℕ) → length (local_path url) ≤ length url + 17
unfolding local_path
length-local_path url = ground (arith, length-append {0} url (codes "index.html"))

-- Whatever the request line, method, URL and query fit in their arrays of 255 bytes, and the path
-- leaves room in its 1024 bytes for "/index.html" and the NUL, which `HandleSock` may append.
pub parse_request_fits :
    (line : List ℕ) {r : Request}
    → parse_request line ≡ some r
    → (length r.method < 255)
      × (length r.url < 255)
      × (length r.query < 255)
      × (length r.path + 12 ≤ 1024)
unfolding parse_request
parse_request_fits line e =
    let url : List ℕ = (request_words line).1 in
    ground (
      arith,
      length-request_words line,
      length-split_query url,
      length-local_path url,
      length-local_path (split_query url).0,
    )

pub split_query-plain : (url : List ℕ) → no_query url ≡ true → split_query url ≡ (url, [], false)
unfolding split_query
split_query-plain [] n = refl
split_query-plain (c ∷ url) n = ground (arith, split_query-plain url)

pub split_query-append :
    (before after : List ℕ)
    → no_query before ≡ true
    → split_query (before ++ b'?' ∷ after) ≡ (before, after, true)
unfolding split_query
split_query-append [] after n = refl
split_query-append (c ∷ before) after n = ground (arith, split_query-append before after)
