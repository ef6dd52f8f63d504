-- ===== src/Httpd/Line/Header.antt =====
-- `clean_hander` of http/httpd.c on the header of a request.
use network_code.Base.{
  ℕ, zero, suc, ◌+◌, ◌-◌, ◌<◌, ◌≡◌, refl, Bool, true, false, not, ◌&&◌, none, some, List, [], ◌∷◌,
  ◌++◌, arith, ltb, ◌==◌, length, length-append,
}
use network_code.Httpd.Socket.{arrive, Conn}
use network_code.Httpd.Line.{buf_size, is_blank, clean_loop, clean_hander}
use network_code.Httpd.Line.Chop.{
  chop-line, chop-full, plain, get_line-chop, get_line_never_returns, bytes_of,
}

-- A header line that fits the buffer: not empty, without CR and LF, at most 1021 bytes.
abbrev pub is_header_line : List ℕ → Bool
is_header_line w = plain w && not (length w == 0) && ltb (length w) (buf_size - 2)

abbrev pub all_header_lines : List (List ℕ) → Bool
all_header_lines [] = true
all_header_lines (w ∷ ws) = is_header_line w && all_header_lines ws

-- The header as it is sent: each line with CRLF, then an empty line.
abbrev pub header_bytes : List (List ℕ) → List ℕ → List ℕ
header_bytes [] body = 13 ∷ 10 ∷ body
header_bytes (w ∷ ws) body = w ++ 13 ∷ 10 ∷ header_bytes ws body

pub is_blank-line : (w : List ℕ) → is_header_line w ≡ true → is_blank (w ++ 10 ∷ []) ≡ false
is_blank-line [] h = cc
is_blank-line (b ∷ w) h = ground arith

pub length-header_bytes :
    (ws : List (List ℕ)) (body : List ℕ) → length ws + length body < length (header_bytes ws body)
length-header_bytes [] body = omega arith
length-header_bytes (w ∷ ws) body =
    omega (arith, length-header_bytes ws body, length-append {0} w (13 ∷ 10 ∷ header_bytes ws body))

clean_loop-header :
    (n fuel : ℕ) (ws : List (List ℕ)) (body : List ℕ) (conn : Conn)
    → all_header_lines ws ≡ true
    → length (header_bytes ws body) < fuel
    → length ws < n
    → clean_loop n fuel (record conn { incoming = arrive (header_bytes ws body) })
      ≡ some (tt, record conn { incoming = arrive body })
unfolding clean_loop
clean_loop-header zero fuel ws body conn h lt ln = absurd (omega arith)
clean_loop-header (suc n) fuel [] body conn h lt ln =
    ground (arith, get_line-chop fuel (buf_size - 1) (13 ∷ 10 ∷ body) conn, chop-line 1022 [] body)
clean_loop-header (suc n) fuel (w ∷ ws) body conn h lt ln = ground (
  arith,
  get_line-chop fuel (buf_size - 1) (w ++ 13 ∷ 10 ∷ header_bytes ws body) conn,
  chop-line 1022 w (header_bytes ws body),
  is_blank-line w,
  length-append {0} w (13 ∷ 10 ∷ header_bytes ws body),
  length-append {0} w (10 ∷ []),
  clean_loop-header n fuel ws body conn,
)

-- On a header of lines that fit the buffer, `clean_hander` returns, and leaves exactly the body.
pub clean_hander-header :
    (fuel : ℕ) (ws : List (List ℕ)) (body : List ℕ) (conn : Conn)
    → all_header_lines ws ≡ true
    → length (header_bytes ws body) < fuel
    → clean_hander fuel (record conn { incoming = arrive (header_bytes ws body) })
      ≡ some (tt, record conn { incoming = arrive body })
unfolding clean_hander
clean_hander-header fuel ws body conn h lt =
    clean_loop-header fuel fuel ws body conn h lt (omega (arith, length-header_bytes ws body))

-- Where fewer than 1022 bytes are left and no line ends among them, `clean_hander` never returns,
-- with any amount of fuel.
pub clean_hander_never_returns :
    (fuel : ℕ) (conn : Conn)
    → plain (bytes_of conn.incoming) ≡ true
    → length (bytes_of conn.incoming) < 1022
    → clean_hander fuel conn ≡ none
unfolding clean_hander
clean_hander_never_returns zero conn pl lt = refl
clean_hander_never_returns (suc fuel) conn pl lt =
    ground (arith, get_line_never_returns (suc fuel) (buf_size - 1) conn)

is_blank-full : (w : List ℕ) → plain w ≡ true → length w ≡ 1022 → is_blank w ≡ false
is_blank-full [] pl e = absurd (omega arith)
is_blank-full (b ∷ w) pl e = ground arith

-- A header line of exactly 1022 bytes ends the header: `clean_hander` returns behind it, and all
-- that follows, the later header lines too, is left as if it were the body.
clean_hander_splits :
    (fuel : ℕ) (w rest : List ℕ) (conn : Conn)
    → plain w ≡ true
    → length w ≡ 1022
    → length (w ++ 13 ∷ 10 ∷ rest) < fuel
    → clean_hander fuel (record conn { incoming = arrive (w ++ 13 ∷ 10 ∷ rest) })
      ≡ some (tt, record conn { incoming = arrive rest })
unfolding clean_hander
clean_hander_splits zero w rest conn pl e lt = absurd (omega arith)
clean_hander_splits (suc zero) w rest conn pl e lt =
    absurd (omega (arith, length-append {0} w (13 ∷ 10 ∷ rest)))
clean_hander_splits (suc (suc fuel)) w rest conn pl e lt = ground (
  arith,
  get_line-chop (suc (suc fuel)) (buf_size - 1) (w ++ 13 ∷ 10 ∷ rest) conn,
  chop-full 1022 w (13 ∷ 10 ∷ rest),
  is_blank-full w,
  length-append {0} w (13 ∷ 10 ∷ rest),
  get_line-chop (suc (suc fuel)) (buf_size - 1) (13 ∷ 10 ∷ rest) conn,
  chop-line 1022 [] rest,
)
