-- ===== src/Httpd/Line.antt =====
-- `get_line` and `clean_hander` of http/httpd.c.
pub mod Chop
pub mod Header
use network_code.Base.{
  ℕ, zero, suc, ◌+◌, ◌-◌, ◌≡◌, refl, Bool, true, false, not, ◌&&◌, Option, none, some, List, [],
  ◌∷◌, ◌++◌, ltb, ◌==◌, if◌then◌else◌, length, str_eq, c_str,
}
use network_code.Httpd.Socket.{
  Arrival, Received, got, closed, failed, recv, peek, Conn, M, ◌>>=◌, ◌>>◌, return,
}

-- The input after a `recv` whose result is not read.
abbrev discard : Received → List Arrival
discard (got c rest) = rest
discard closed = []
discard (failed rest) = rest

-- After a '\r': a following '\n' is consumed, and the character becomes '\n' in any case.
unfoldable pub after_return : List Arrival → List Arrival
after_return inp = elim (peek inp) [
  | got c rest ↦ if c == 10 then discard (recv inp) else rest
  | closed ↦ inp
  | failed rest ↦ rest
]

-- The character stored and the input left, for a character received.
abbrev pub stored : ℕ → List Arrival → ℕ × List Arrival
stored c rest = if c == 13 then (10, after_return rest) else (c, rest)

-- The loop of `get_line`: `c` is the last character, `buf` the characters stored, `i` their number.
-- A call of `recv` that gives nothing leaves the loop where it was.
unfoldable pub line_loop : ℕ → ℕ → List Arrival → ℕ → List ℕ → Option (List ℕ × List Arrival)
unfolding after_return
line_loop zero size inp c buf = none
line_loop (suc fuel) size inp c buf =
    let next : Option (List ℕ × List Arrival) = elim (recv inp) [
      | got b rest ↦
          let (c', rest') = stored b rest in line_loop fuel size rest' c' (buf ++ (c' ∷ []))
      | closed ↦ line_loop fuel size inp c buf
      | failed rest ↦ line_loop fuel size rest c buf
    ] in
    if ltb (length buf) (size - 1) && not (c == 10) then next else some (buf, inp)

-- The result is the array before the final NUL; its length is the number that `get_line` returns.
unfoldable pub get_line : ℕ → ℕ → M (List ℕ)
unfolding line_loop
get_line fuel size conn = elim (line_loop fuel size conn.incoming 0 []) [
  | none ↦ none
  | some (buf, rest) ↦ some (buf, record conn { incoming = rest })
]

-- BUF_SIZE
abbrev pub buf_size : ℕ
buf_size = 1024

abbrev pub is_blank : List ℕ → Bool
is_blank buf = str_eq (10 ∷ []) (c_str buf)

-- `do ret = get_line(...); while (ret != 1 && strcmp("\n", buf))`, with fuel for the lines.
unfoldable pub clean_loop : ℕ → ℕ → M (Unit {0})
unfolding get_line
clean_loop zero fuel = λ _. none
clean_loop (suc n) fuel = do
  buf ← get_line fuel (buf_size - 1)
  (if not (length buf == 1) && not (is_blank buf) then clean_loop n fuel else return tt)

unfoldable pub clean_hander : ℕ → M (Unit {0})
unfolding clean_loop
clean_hander fuel = clean_loop fuel fuel
