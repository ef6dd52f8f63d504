-- ===== src/Httpd/Cgi.antt =====
-- `excu_cgi` of http/httpd.c: a program answers the request.
pub mod Post
use network_code.Base.{
  ℕ, zero, suc, ◌-◌, ℤ, pos, negsuc, rounds, Bool, true, false, not, ◌&&◌, Option, none, some, List,
  [], ◌∷◌, ◌++◌, ltb, if◌then◌else◌, length, take, drop, codes, c_str, case_eq, atoi, print_int,
  ◌≡◌, refl,
}
use network_code.Httpd.Socket.{
  Arrival, Received, got, closed, failed, recv, Conn, M, ◌>>=◌, ◌>>◌, return, send,
}
use network_code.Httpd.Line.{get_line, is_blank, buf_size, clean_hander}
use network_code.Httpd.Request.{is_get, is_post}
use network_code.Httpd.Host.{Host}
use network_code.Httpd.Reply.{ok_header, echo_code}

abbrev length_field : List ℕ
length_field = codes "Content-Length: "

-- The value of `clength` after a header line: `strncasecmp` over 16 bytes, then `atoi(buf + 16)`.
unfoldable pub content_length : List ℕ → ℤ → ℤ
content_length buf clength =
    if case_eq (take 16 (c_str buf)) length_field then atoi (c_str (drop 16 buf)) else clength

-- `while (readnum > 0 && strcmp("\n", buf))`, with fuel for the lines.
unfoldable pub post_loop : ℕ → ℕ → List ℕ → ℤ → M ℤ
post_loop zero fuel buf clength = λ _. none
post_loop (suc n) fuel buf clength =
    if ltb 0 (length buf) && not (is_blank buf)
    then (do
      buf' ← get_line fuel (buf_size - 1)
      post_loop n fuel buf' (content_length buf clength))
    else return clength

-- The header of a POST request: the length that it announces.
unfoldable pub post_header : ℕ → M ℤ
unfolding post_loop
post_header fuel = do buf ← get_line fuel (buf_size - 1); post_loop fuel fuel buf (pos 0)

-- `ch` after `recv(sock, &ch, 1, 0)`, and the input left.
abbrev next_char : ℕ → Received → ℕ × List Arrival
next_char ch (got c rest) = (c, rest)
next_char ch closed = (ch, [])
next_char ch (failed rest) = (ch, rest)

-- The loop that copies the body to the program: a `recv` that gives nothing repeats the last byte.
unfoldable pub forward : ℕ → ℕ → List Arrival → List ℕ × List Arrival
forward zero ch inp = ([], inp)
forward (suc n) ch inp =
    let (ch', rest) = next_char ch (recv inp) in
    let (bs, left) = forward n ch' rest in (ch' ∷ bs, left)

-- The strings that the child puts into its environment.
abbrev pub cgi_env : List ℕ → List ℕ → ℤ → List (List ℕ)
cgi_env method query clength =
    (codes "REQUEST_METHOD=" ++ method)
    ∷ (if is_get method
        then codes "QUERY_STRING=" ++ query
        else codes "CONTENT_LENGTH=" ++ print_int clength)
    ∷ []

-- The message of a child whose `execl` failed, in UTF-8; its standard output is the pipe.
abbrev pub exec_message : List ℕ
exec_message =
    0xe6 ∷ 0x89 ∷ 0xa7 ∷ 0xe8 ∷ 0xa1 ∷ 0x8c ∷ 0xe7 ∷ 0xa8 ∷ 0x8b ∷ 0xe5 ∷ 0xba ∷ 0x8f ∷ 0xe5 ∷ 0xa4
    ∷ 0xb1 ∷ 0xe8 ∷ 0xb4 ∷ 0xa5 ∷ 10 ∷ []

abbrev pub child_output : Option (List ℕ) → List ℕ
child_output none = exec_message
child_output (some out) = out

-- Parent and child: the body goes to the program, and all that it writes goes to the socket.
unfoldable pub serve_child : Host → List ℕ → List ℕ → List ℕ → ℤ → M ℤ
unfolding forward
serve_child h path method query clength conn =
    let (body, rest) : List ℕ × List Arrival =
      (if is_post method then forward (rounds clength) 0 conn.incoming else ([], conn.incoming)) in
    let output : List ℕ = child_output (h.exec path (cgi_env method query clength) body) in
    some (pos 0, record conn { incoming = rest; sent = conn.sent ++ output })

-- From the status line on: the pipes, the fork, and the two processes.
unfoldable pub run_cgi : Host → List ℕ → List ℕ → List ℕ → ℤ → M ℤ
run_cgi h path method query clength = do
  send ok_header
  (if not h.pipe_in
      then return (negsuc 0)
      else if not h.pipe_out
      then return (negsuc 0)
      else if not h.fork
      then return (negsuc 0)
      else serve_child h path method query clength)

abbrev pub is_zero : ℤ → Bool
is_zero (pos zero) = true
is_zero (pos (suc n)) = false
is_zero (negsuc n) = false

unfoldable pub excu_cgi : ℕ → Host → List ℕ → List ℕ → List ℕ → M ℤ
excu_cgi fuel h path method query =
    if is_get method then (do clean_hander fuel; run_cgi h path method query (pos 0)) else (do
      clength ← post_header fuel
      (if is_zero clength
          then (do echo_code fuel h; return (negsuc 0))
          else run_cgi h path method query clength))
