-- ===== src/Httpd/Request.antt =====
-- The request line in `HandleSock` of http/httpd.c: method, URL, query and path.
pub mod Words
pub mod Line
use network_code.Base.{
  ℕ, zero, suc, ◌+◌, ◌-◌, ◌≡◌, refl, Bool, true, false, not, ◌&&◌, ◌||◌, Option, none, some, List,
  [], ◌∷◌, ◌++◌, ltb, ◌==◌, if◌then◌else◌, length, replicate, str_eq, case_eq, c_str, codes,
  is_space,
}

-- The array `buf` of BUF_SIZE + 1 bytes after `get_line`: it was zero, and holds the line.
abbrev pub buf_array : List ℕ → List ℕ
buf_array line = line ++ replicate (1025 - length line) 0

-- The loop that copies the method: the list is `buf` from index `j` on, the number is the room left
-- (`sizeof(method) - 1 - i`). The result is what was copied and the rest of `buf`.
unfoldable pub copy_method : ℕ → List ℕ → List ℕ × List ℕ
copy_method zero cs = ([], cs)
copy_method (suc room) [] = ([], [])
copy_method (suc room) (c ∷ cs) =
    let (word, rest) = copy_method room cs in if is_space c then ([], c ∷ cs) else (c ∷ word, rest)

-- The loop over blanks: it stops before the last byte of `buf` (`j < sizeof(buf) - 1`).
unfoldable pub skip_blanks : List ℕ → List ℕ
skip_blanks [] = []
skip_blanks (c ∷ []) = c ∷ []
skip_blanks (c ∷ d ∷ cs) = if is_space c then skip_blanks (d ∷ cs) else c ∷ d ∷ cs

-- The loop that copies the URL, with `sizeof(url) - 1` bytes of room.
unfoldable pub copy_url : ℕ → List ℕ → List ℕ
copy_url zero cs = []
copy_url (suc room) [] = []
copy_url (suc room) (c ∷ []) = []
copy_url (suc room) (c ∷ d ∷ cs) = if is_space c then [] else c ∷ copy_url room (d ∷ cs)

-- The strings in `method` and `url` (arrays of 255 bytes) after the three loops.
unfoldable pub request_words : List ℕ → List ℕ × List ℕ
request_words line =
    let (method, rest) = copy_method 254 (buf_array line) in
    (c_str method, c_str (copy_url 254 (skip_blanks rest)))

-- The loop of the GET branch: the URL is cut at the first '?'. The result is the string left in
-- `url`, the string at `query`, and whether a '?' was found (`cgi = 1`).
unfoldable pub split_query : List ℕ → List ℕ × List ℕ × Bool
split_query [] = ([], [], false)
split_query (c ∷ url) =
    let (path, query, cgi) = split_query url in
    if c == b'?' then ([], url, true) else (c ∷ path, query, cgi)

abbrev pub is_get : List ℕ → Bool
is_get method = case_eq method (codes "GET")

abbrev pub is_post : List ℕ → Bool
is_post method = case_eq method (codes "POST")

abbrev ends_in_slash : List ℕ → Bool
ends_in_slash [] = false
ends_in_slash (c ∷ []) = c == b'/'
ends_in_slash (c ∷ d ∷ s) = ends_in_slash (d ∷ s)

-- `sprintf(path, "wwwroot%s", url)`, with "index.html" behind a final '/'.
unfoldable pub local_path : List ℕ → List ℕ
local_path url =
    let path = codes "wwwroot" ++ url in
    if ends_in_slash path then path ++ codes "index.html" else path

-- What the request line decides: `url` after the cut, `query`, `cgi` and `path`. For POST `query`
-- still points at the URL.
pub record Request : Type 0 where
  pub method : List ℕ
  pub url : List ℕ
  pub query : List ℕ
  pub cgi : Bool
  pub path : List ℕ

-- `none` for a method that is neither GET nor POST.
unfoldable pub parse_request : List ℕ → Option Request
parse_request line =
    let (method, url) = request_words line in
    let (before, after, found) = split_query url in
    if is_get method
    then some (record {
      method = method;
      url = before;
      query = after;
      cgi = found;
      path = local_path before;
    })
    else if is_post method
    then some
        (record { method = method; url = url; query = url; cgi = true; path = local_path url })
    else none

parse_get :
    parse_request (codes "get /a/?x=1 HTTP/1.0\n")
    ≡ some (record {
      method = codes "get";
      url = codes "/a/";
      query = codes "x=1";
      cgi = true;
      path = codes "wwwroot/a/index.html";
    })
unfolding parse_request request_words copy_method skip_blanks copy_url split_query local_path
parse_get = refl
