-- ===== src/Chat/Buffer.antt =====
-- The message buffer `tmpbuf` of chat/server.c, which all users share.
use network_code.Base.{
  ℕ, suc, ◌+◌, ◌%◌, ◌<◌, ◌≤◌, ◌≡◌, refl, sym, ap, ◌∙◌, Option, none, some, List, [], ◌∷◌, ◌++◌, ltb,
  if◌then◌else◌, arith, length, set, length-set, length-append, append_assoc,
}

-- Bytes written to an array from index `i` on; `none` is a write past its end.
unfoldable pub put_at : ℕ → List ℕ → List ℕ → Option (List ℕ)
put_at i [] buf = some buf
put_at i (b ∷ bs) buf =
    let rest = put_at (i + 1) bs (set buf i b) in if ltb i (length buf) then rest else none

-- What the first loop puts into `tmpbuf`: "User :" with its NUL, and at index 4 the character
-- `fds[j].fd + '0'` of the user that the message goes to.
abbrev pub label : ℕ → List ℕ
label fd = b'U' ∷ b's' ∷ b'e' ∷ b'r' ∷ ((fd + 48) % 256) ∷ b':' ∷ 0 ∷ []

abbrev pub then_put : ℕ → List ℕ → Option (List ℕ) → Option (List ℕ)
then_put i bs none = none
then_put i bs (some buf) = put_at i bs buf

-- The two loops over `k` and `t`: the message goes over the NUL of the label, and gets none.
unfoldable pub deliver : ℕ → List ℕ → List ℕ → Option (List ℕ)
deliver fd msg tmpbuf = then_put 6 msg (put_at 0 (label fd) tmpbuf)

set-append :
    (before : List ℕ) (o b : ℕ) (after : List ℕ)
    → set (before ++ o ∷ after) (length before) b ≡ before ++ b ∷ after
set-append [] o b after = refl
set-append (x ∷ before) o b after = ap (λ (l : List ℕ). x ∷ l) (set-append before o b after)

-- Within the array the bytes replace those that stood there.
put_at-inside :
    (before bs old after : List ℕ)
    → length bs ≡ length old
    → put_at (length before) bs (before ++ (old ++ after)) ≡ some (before ++ (bs ++ after))
unfolding put_at
put_at-inside before [] [] after e = refl
put_at-inside before [] (o ∷ old) after e = absurd (omega arith)
put_at-inside before (b ∷ bs) [] after e = absurd (omega arith)
put_at-inside before (b ∷ bs) (o ∷ old) after e = ground (
  arith,
  length-append before (o ∷ (old ++ after)),
  set-append before o b (old ++ after),
  put_at-inside (before ++ (b ∷ [])) bs old after,
  append_assoc before (b ∷ []) (old ++ after),
  append_assoc before (b ∷ []) (bs ++ after),
  length-append before (b ∷ []),
)

put_at-outside :
    (i : ℕ) (bs buf : List ℕ) → length buf < i + length bs → i ≤ length buf → put_at i bs buf ≡ none
unfolding put_at
put_at-outside i [] buf h le = absurd (omega arith)
put_at-outside i (b ∷ bs) buf h le =
    ground (arith, put_at-outside (i + 1) bs (set buf i b), length-set buf i b)

-- What a user is sent: "User", the character of the descriptor, and a colon.
abbrev pub heading : ℕ → List ℕ
heading fd = b'U' ∷ b's' ∷ b'e' ∷ b'r' ∷ ((fd + 48) % 256) ∷ b':' ∷ []

-- A message of at least one byte that fits: the buffer then holds the heading with the descriptor
-- of the receiver, the message, and behind it, without a NUL between, what stood there before.
deliver_keeps_tail :
    (fd : ℕ) (msg first later tail : List ℕ)
    → length first ≡ 7
    → length msg ≡ suc (length later)
    → deliver fd msg (first ++ (later ++ tail)) ≡ some (heading fd ++ (msg ++ tail))
unfolding deliver
deliver_keeps_tail fd msg first later tail e f =
    ap (then_put 6 msg) (put_at-inside [] (label fd) first (later ++ tail) (sym e))
    ∙ put_at-inside (heading fd) msg (0 ∷ later) tail f

-- A message of more than 1018 bytes is written past the 1024 bytes of the buffer.
deliver_overflows :
    (fd : ℕ) (msg first rest : List ℕ)
    → length first ≡ 7
    → length (first ++ rest) ≡ 1024
    → 1018 < length msg
    → deliver fd msg (first ++ rest) ≡ none
unfolding deliver
deliver_overflows fd msg first rest e f h =
    ap (then_put 6 msg) (put_at-inside [] (label fd) first rest (sym e))
    ∙ put_at-outside 6 msg (label fd ++ rest)
        (omega (arith, length-append first rest, length-append (label fd) rest))
        (omega (arith, length-append (label fd) rest))
