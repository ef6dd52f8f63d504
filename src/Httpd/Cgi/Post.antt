-- ===== src/Httpd/Cgi/Post.antt =====
-- The header and the body of a POST request in `excu_cgi` of http/httpd.c.
use network_code.Base.{
  ℕ, zero, suc, ◌+◌, ◌-◌, ◌^◌, ◌≤◌, ◌<◌, ◌≡◌, refl, ℤ, pos, true, some, List, [], ◌∷◌, ◌++◌, arith,
  length, length-append, codes, print_nat, replicate,
}
use network_code.Base.Decimal.{atoi-print_nat, c_str-print_nat}
use network_code.Httpd.Socket.{arrive, Conn}
use network_code.Httpd.Line.{buf_size}
use network_code.Httpd.Line.Chop.{chop-line, get_line-chop}
use network_code.Httpd.Line.Header.{
  is_header_line, all_header_lines, header_bytes, is_blank-line, length-header_bytes,
}
use network_code.Httpd.Cgi.{content_length, post_loop, post_header, forward}

-- The length that the lines of a header announce, if `z` was announced before them: the last
-- Content-Length line counts.
abbrev pub announced : ℤ → List (List ℕ) → ℤ
announced z [] = z
announced z (w ∷ ws) = announced (content_length (w ++ 10 ∷ []) z) ws

post_loop-blank :
    (n fuel : ℕ) (z : ℤ) (conn : Conn) → 0 < n → post_loop n fuel (10 ∷ []) z conn ≡ some (z, conn)
unfolding post_loop
post_loop-blank zero fuel z conn h = absurd (omega arith)
post_loop-blank (suc n) fuel z conn h = refl

-- The loop with the line `w` in the buffer and `ws` still to be read.
post_loop-header :
    (n fuel : ℕ) (z : ℤ) (w : List ℕ) (ws : List (List ℕ)) (body : List ℕ) (conn : Conn)
    → is_header_line w ≡ true
    → all_header_lines ws ≡ true
    → length (header_bytes ws body) < fuel
    → length ws + 1 < n
    → post_loop n fuel (w ++ 10 ∷ []) z (record conn { incoming = arrive (header_bytes ws body) })
      ≡ some (announced z (w ∷ ws), record conn { incoming = arrive body })
unfolding post_loop
post_loop-header zero fuel z w ws body conn h hs lt ln = absurd (omega arith)
post_loop-header (suc n) fuel z w [] body conn h hs lt ln = ground (
  arith,
  is_blank-line w h,
  length-append {0} w (10 ∷ []),
  get_line-chop fuel (buf_size - 1) (13 ∷ 10 ∷ body) conn,
  chop-line 1022 [] body,
  post_loop-blank n fuel (content_length (w ++ 10 ∷ []) z) (record conn { incoming = arrive body }),
)
post_loop-header (suc n) fuel z w (w' ∷ ws) body conn h hs lt ln = ground (
  arith,
  is_blank-line w h,
  length-append {0} w (10 ∷ []),
  get_line-chop fuel (buf_size - 1) (w' ++ 13 ∷ 10 ∷ header_bytes ws body) conn,
  chop-line 1022 w' (header_bytes ws body),
  length-append {0} w' (13 ∷ 10 ∷ header_bytes ws body),
  post_loop-header n fuel (content_length (w ++ 10 ∷ []) z) w' ws body conn,
)

-- On a header of lines that fit the buffer the POST branch returns the number that the last
-- Content-Length line announces (0, if there is none), and leaves exactly the body.
pub post_header-announced :
    (fuel : ℕ) (ws : List (List ℕ)) (body : List ℕ) (conn : Conn)
    → all_header_lines ws ≡ true
    → length (header_bytes ws body) < fuel
    → post_header fuel (record conn { incoming = arrive (header_bytes ws body) })
      ≡ some (announced (pos 0) ws, record conn { incoming = arrive body })
unfolding post_header
post_header-announced fuel [] body conn hs lt = ground (
  arith,
  get_line-chop fuel (buf_size - 1) (13 ∷ 10 ∷ body) conn,
  chop-line 1022 [] body,
  post_loop-blank fuel fuel (pos 0) (record conn { incoming = arrive body }),
)
post_header-announced fuel (w ∷ ws) body conn hs lt = ground (
  arith,
  get_line-chop fuel (buf_size - 1) (w ++ 13 ∷ 10 ∷ header_bytes ws body) conn,
  chop-line 1022 w (header_bytes ws body),
  length-append {0} w (13 ∷ 10 ∷ header_bytes ws body),
  length-header_bytes ws body,
  post_loop-header fuel fuel (pos 0) w ws body conn,
)

-- A Content-Length line with a number below 2 ^ 31 announces that number.
content_length-print :
    (n : ℕ) (z : ℤ)
    → n < 2 ^ 31
    → content_length (codes "Content-Length: " ++ (print_nat n ++ 10 ∷ [])) z ≡ pos n
unfolding content_length
content_length-print n z h =
    rw (c_str-print_nat n (10 ∷ []) refl, atoi-print_nat n (10 ∷ []) h refl)

-- The program gets exactly the announced number of bytes, in order, and the rest stays unread.
pub forward-arrive :
    (ch : ℕ) (body rest : List ℕ)
    → forward (length body) ch (arrive (body ++ rest)) ≡ (body, arrive rest)
unfolding forward
forward-arrive ch [] rest = refl
forward-arrive ch (b ∷ body) rest = ground (arith, forward-arrive b body rest)

abbrev last_or : ℕ → List ℕ → ℕ
last_or ch [] = ch
last_or ch (b ∷ bs) = last_or b bs

forward-closed : (k ch : ℕ) → forward k ch [] ≡ (replicate k ch, [])
unfolding forward
forward-closed zero ch = refl
forward-closed (suc k) ch = ground (arith, forward-closed k ch)

-- If the peer closes before it has sent `k` bytes, the last byte is repeated up to that number (a
-- NUL, if none came): the program gets `k` bytes in any case.
forward-short :
    (k ch : ℕ) (body : List ℕ)
    → length body ≤ k
    → forward k ch (arrive body) ≡ (body ++ replicate (k - length body) (last_or ch body), [])
unfolding forward
forward-short zero ch [] h = refl
forward-short zero ch (b ∷ body) h = absurd (omega arith)
forward-short (suc k) ch [] h = ground (arith, forward-closed k ch)
forward-short (suc k) ch (b ∷ body) h = ground (arith, forward-short k b body)
