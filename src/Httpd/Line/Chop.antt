-- ===== src/Httpd/Line/Chop.antt =====
-- What `get_line` of http/httpd.c does to a stream of bytes, as a recursion on the bytes.
use network_code.Base.{
  ℕ, zero, suc, ◌+◌, ◌-◌, ◌<◌, ◌≡◌, ◌≢◌, refl, sym, ap, Bool, true, not, ◌&&◌, Option, none, some,
  List, [], ◌∷◌, ◌++◌, append_assoc, append-nil, arith, ◌==◌, if◌then◌else◌, length, length-append,
}
use network_code.Httpd.Socket.{Arrival, byte, fault, arrive, Conn}
use network_code.Httpd.Line.{after_return, line_loop, get_line}

-- A line feed at the head is left out.
abbrev pub drop_feed : List ℕ → List ℕ
drop_feed [] = []
drop_feed (c ∷ bs) = if c == 10 then bs else c ∷ bs

abbrev cons_line : ℕ → Option (List ℕ × List ℕ) → Option (List ℕ × List ℕ)
cons_line b none = none
cons_line b (some (line, rest)) = some (b ∷ line, rest)

-- At most `room` characters up to and with the first line end; CR and CRLF count as LF. `none` if
-- the bytes end before that.
unfoldable pub chop : ℕ → List ℕ → Option (List ℕ × List ℕ)
chop zero bs = some ([], bs)
chop (suc room) [] = none
chop (suc room) (b ∷ bs) =
    if b == 13
    then some (10 ∷ [], drop_feed bs)
    else if b == 10
    then some (10 ∷ [], bs)
    else cons_line b (chop room bs)

-- The bytes hold no line end.
abbrev pub plain : List ℕ → Bool
plain [] = true
plain (b ∷ bs) = not (b == 13) && not (b == 10) && plain bs

abbrev delivered : List ℕ → Option (List ℕ × List ℕ) → Option (List ℕ × List Arrival)
delivered buf none = none
delivered buf (some (line, rest)) = some (buf ++ line, arrive rest)

after_return-arrive : (bs : List ℕ) → after_return (arrive bs) ≡ arrive (drop_feed bs)
unfolding after_return
after_return-arrive [] = refl
after_return-arrive (b ∷ bs) = ground arith

line_loop-done :
    (fuel size : ℕ) (inp : List Arrival) (buf : List ℕ)
    → 0 < fuel
    → line_loop fuel size inp 10 buf ≡ some (buf, inp)
unfolding line_loop
line_loop-done zero size inp buf h = absurd (omega arith)
line_loop-done (suc fuel) size inp buf h = ground arith

delivered-cons_line :
    (buf : List ℕ) (b : ℕ) (r : Option (List ℕ × List ℕ))
    → delivered buf (cons_line b r) ≡ delivered (buf ++ (b ∷ [])) r
delivered-cons_line buf b none = refl
delivered-cons_line buf b (some (line, rest)) =
    ap (λ (l : List ℕ). some (l, arrive rest)) (sym (append_assoc buf (b ∷ []) line))

-- At the end of the input the loop stays where it is.
line_loop_stalls :
    (fuel size c : ℕ) (buf : List ℕ)
    → c ≢ 10
    → length buf < size - 1
    → line_loop fuel size [] c buf ≡ none
unfolding line_loop
line_loop_stalls zero size c buf ne lt = refl
line_loop_stalls (suc fuel) size c buf ne lt =
    ground (arith, line_loop_stalls fuel size c buf ne lt)

line_loop-chop :
    (fuel size room : ℕ) (bs : List ℕ) (c : ℕ) (buf : List ℕ)
    → c ≢ 10
    → length bs < fuel
    → length buf + room ≡ size - 1
    → line_loop fuel size (arrive bs) c buf ≡ delivered buf (chop room bs)
unfolding chop line_loop
line_loop-chop zero size room bs c buf ne lt eq = absurd (omega arith)
line_loop-chop (suc fuel) size zero bs c buf ne lt eq = ground (arith, append-nil buf)
line_loop-chop (suc fuel) size (suc room) [] c buf ne lt eq =
    ground (arith, line_loop_stalls fuel size c buf ne)
line_loop-chop (suc fuel) size (suc room) (b ∷ bs) c buf ne lt eq = ground (
  arith,
  line_loop-done fuel size (arrive (drop_feed bs)) (buf ++ (10 ∷ [])),
  line_loop-done fuel size (arrive bs) (buf ++ (10 ∷ [])),
  line_loop-chop fuel size room bs b (buf ++ (b ∷ [])),
  after_return-arrive bs,
  length-append buf (b ∷ []),
  delivered-cons_line buf b (chop room bs),
)

-- What a call of `get_line` returns on a stream of bytes.
abbrev pub line_read : Conn → Option (List ℕ × List ℕ) → Option (List ℕ × Conn)
line_read conn none = none
line_read conn (some (line, rest)) = some (line, record conn { incoming = arrive rest })

-- On a stream without failed calls, and with more fuel than there are bytes, `get_line` returns
-- exactly the first line of at most `size - 1` characters, its CR or CRLF read as LF, and leaves
-- exactly the bytes behind it; where the bytes end before that, it does not return.
pub get_line-chop :
    (fuel size : ℕ) (bs : List ℕ) (conn : Conn)
    → length bs < fuel
    → get_line fuel size (record conn { incoming = arrive bs })
      ≡ line_read conn (chop (size - 1) bs)
unfolding get_line
get_line-chop fuel size bs conn lt = ground (arith, line_loop-chop fuel size (size - 1) bs 0 [])

-- The bytes of an input, without the failed calls.
abbrev pub bytes_of : List Arrival → List ℕ
bytes_of [] = []
bytes_of (byte b ∷ inp) = b ∷ bytes_of inp
bytes_of (fault ∷ inp) = bytes_of inp

line_loop_never_returns :
    (fuel size : ℕ) (inp : List Arrival) (c : ℕ) (buf : List ℕ)
    → c ≢ 10
    → plain (bytes_of inp) ≡ true
    → length buf + length (bytes_of inp) < size - 1
    → line_loop fuel size inp c buf ≡ none
unfolding line_loop
line_loop_never_returns zero size inp c buf ne pl lt = refl
line_loop_never_returns (suc fuel) size [] c buf ne pl lt =
    line_loop_stalls (suc fuel) size c buf ne (omega arith)
line_loop_never_returns (suc fuel) size (fault ∷ inp) c buf ne pl lt =
    ground (arith, line_loop_never_returns fuel size inp c buf ne pl lt)
line_loop_never_returns (suc fuel) size (byte b ∷ inp) c buf ne pl lt =
    ground
      (arith, line_loop_never_returns fuel size inp b (buf ++ (b ∷ [])), length-append buf (b ∷ []))

-- A peer that closes before it has sent a line end or `size - 1` bytes holds `get_line` for ever:
-- no amount of fuel lets it return, whatever calls of `recv` fail on the way.
pub get_line_never_returns :
    (fuel size : ℕ) (conn : Conn)
    → plain (bytes_of conn.incoming) ≡ true
    → length (bytes_of conn.incoming) < size - 1
    → get_line fuel size conn ≡ none
unfolding get_line
get_line_never_returns fuel size conn pl lt =
    ground (arith, line_loop_never_returns fuel size conn.incoming 0 [])

-- A line with its end CRLF, within the room.
pub chop-line :
    (room : ℕ) (w rest : List ℕ)
    → plain w ≡ true
    → length w < room
    → chop room (w ++ 13 ∷ 10 ∷ rest) ≡ some (w ++ 10 ∷ [], rest)
unfolding chop
chop-line zero w rest pl lt = absurd (omega arith)
chop-line (suc room) [] rest pl lt = refl
chop-line (suc room) (b ∷ w) rest pl lt = ground (arith, chop-line room w rest)

-- A line without an end fills the room.
pub chop-full :
    (room : ℕ) (w rest : List ℕ)
    → plain w ≡ true
    → length w ≡ room
    → chop room (w ++ rest) ≡ some (w, rest)
unfolding chop
chop-full zero [] rest pl e = refl
chop-full zero (b ∷ w) rest pl e = absurd (omega arith)
chop-full (suc room) [] rest pl e = absurd (omega arith)
chop-full (suc room) (b ∷ w) rest pl e = ground (arith, chop-full room w rest)
