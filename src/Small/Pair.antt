-- ===== src/Small/Pair.antt =====
-- 服务器和客户端(1V1)/server.c: a server for one client after the other, and what its client sends.
use network_code.Base.{
  ℕ, zero, suc, ◌≡◌, refl, ap, ap₂, Bool, true, not, Option, none, some, List, [], ◌∷◌, ◌++◌,
  if◌then◌else◌, c_str, length, set, append_assoc, append-nil, ◌∙◌, arith, ◌&&◌,
}
use network_code.Base.Decimal.{no_nul, c_str-append_nul}
use network_code.Small.Reads.{Reads}
use network_code.Small.StartUp.{Kernel}
use network_code.Small.Talkers.{Talk, pair_loop, cut_last, silent}

-- Where the server stands: it waits, it has returned, or it has exited.
pub data ServerEnd : Type 0 where
  waits : ServerEnd
  returns : ℕ → ServerEnd
  exits : ℕ → ServerEnd

-- The lines shown, and what became of the connection: it is open, closed by the client, or broken.
pub data Left : Type 0 where
  still_open closed broken : Left

-- The inner loop.
unfoldable pub client_loop : Reads → List (List ℕ) → List (List ℕ) × Left
client_loop [] lines = (lines, still_open)
client_loop (none ∷ rs) lines = (lines, broken)
client_loop (some [] ∷ rs) lines = (lines, closed)
client_loop (some (c ∷ bytes) ∷ rs) lines =
    client_loop rs (lines ++ (c_str (cut_last c bytes) ∷ []))

abbrev pub after_client :
    (List (List ℕ) → List (List ℕ) × ServerEnd) → List (List ℕ) × Left → List (List ℕ) × ServerEnd
after_client next (lines, still_open) = (lines, waits)
after_client next (lines, closed) = next lines
after_client next (lines, broken) = (lines, exits 1)

-- The outer loop: each `accept` fails, or gives a client with what is read from it.
unfoldable pub server_loop : List (Option Reads) → List (List ℕ) → List (List ℕ) × ServerEnd
server_loop [] lines = (lines, waits)
server_loop (none ∷ clients) lines = (lines, returns 2)
server_loop (some rs ∷ clients) lines = after_client (server_loop clients) (client_loop rs lines)

-- `StartUp` and the loop: `exit(-1)`, `exit(-2)` and `exit(-3)` are the codes 255, 254 and 253.
unfoldable pub pair_start : Kernel → List (Option Reads) → List (List ℕ) × ServerEnd
pair_start k clients = elim k.socket [
  | none ↦ ([], exits 255)
  | some sock ↦
      if not k.bind
      then ([], exits 254)
      else if not k.listen
      then ([], exits 253)
      else server_loop clients []
]

-- `main` in the child or the parent, which waits for the child and returns.
unfoldable pub pair_main : ℕ → Bool → Kernel → List (Option Reads) → List (List ℕ) × ServerEnd
pair_main argc in_child k clients = elim argc [
  | suc (suc (suc zero)) ↦ if in_child then pair_start k clients else ([], returns 0)
  | _ ↦ ([], returns 3)
]

-- A line that is typed: a text and the line feed.
abbrev pub typed : List (List ℕ) → Reads
typed [] = []
typed (text ∷ texts) = some (text ++ (10 ∷ [])) ∷ typed texts

-- The reads of the server, if each is one call of `write`.
abbrev pub arriving : List (List ℕ) → Reads
arriving [] = some [] ∷ []
arriving (bytes ∷ rest) = some bytes ∷ arriving rest

abbrev pub all_no_nul : List (List ℕ) → Bool
all_no_nul [] = true
all_no_nul (text ∷ texts) = no_nul text && all_no_nul texts

-- Every text with a NUL in place of its line feed.
abbrev pub with_nul : List (List ℕ) → List (List ℕ)
with_nul [] = []
with_nul (text ∷ texts) = (text ++ (0 ∷ [])) ∷ with_nul texts

set-last : (text : List ℕ) (c : ℕ) → set (text ++ (c ∷ [])) (length text) 0 ≡ text ++ (0 ∷ [])
set-last [] c = refl
set-last (d ∷ text) c = ap (λ (l : List ℕ). d ∷ l) (set-last text c)

length-last : (text : List ℕ) (c : ℕ) → length (text ++ (c ∷ [])) ≡ suc (length text)
length-last [] c = refl
length-last (d ∷ text) c = ap suc (length-last text c)

cut_last-line :
    (d : ℕ) (text : List ℕ) (c : ℕ) → cut_last d (text ++ (c ∷ [])) ≡ (d ∷ text) ++ (0 ∷ [])
cut_last-line d text c =
    ap (λ (n : ℕ). set (d ∷ (text ++ (c ∷ []))) n 0) (length-last text c)
    ∙ ap (λ (l : List ℕ). d ∷ l) (set-last text c)

shown_line :
    (d : ℕ) (text : List ℕ) (c : ℕ)
    → no_nul (d ∷ text) ≡ true
    → c_str (cut_last d (text ++ (c ∷ []))) ≡ d ∷ text
shown_line d text c h = ap c_str (cut_last-line d text c) ∙ c_str-append_nul (d ∷ text) [] h

abbrev after_line : List ℕ → Talk → Talk
after_line text t = record t {
  sent = t.sent ++ ((text ++ (0 ∷ [])) ∷ []);
  shown = t.shown ++ (text ∷ []);
}

-- One line through either loop.
pair_line :
    (text : List ℕ) (rs : Reads) (t : Talk)
    → no_nul text ≡ true
    → pair_loop (some (text ++ (10 ∷ [])) ∷ rs) t ≡ pair_loop rs (after_line text t)
unfolding pair_loop
pair_line [] rs t h = refl
pair_line (d ∷ text) rs t h =
    ap₂
      (λ (bytes shown : List ℕ).
        pair_loop rs (record t { sent = t.sent ++ (bytes ∷ []); shown = t.shown ++ (shown ∷ []) }))
      (cut_last-line d text 10) (shown_line d text 10 h)

client_line :
    (text : List ℕ) (rs : Reads) (lines : List (List ℕ))
    → no_nul text ≡ true
    → client_loop (some (text ++ (0 ∷ [])) ∷ rs) lines ≡ client_loop rs (lines ++ (text ∷ []))
unfolding client_loop
client_line [] rs lines h = refl
client_line (d ∷ text) rs lines h =
    ap (λ (shown : List ℕ). client_loop rs (lines ++ (shown ∷ []))) (shown_line d text 0 h)

pair_loop-typed :
    (texts : List (List ℕ)) (t : Talk)
    → all_no_nul texts ≡ true
    → pair_loop (typed texts) t
      ≡ record t { sent = t.sent ++ with_nul texts; shown = t.shown ++ texts }
unfolding pair_loop
pair_loop-typed [] t h = rw (append-nil t.sent, append-nil t.shown) refl
pair_loop-typed (text ∷ texts) t h =
    pair_line text (typed texts) t (ground arith)
    ∙ pair_loop-typed texts (after_line text t) (ground arith)
    ∙ ap₂ (λ (sent shown : List (List ℕ)). record t { sent = sent; shown = shown })
        (append_assoc t.sent ((text ++ (0 ∷ [])) ∷ []) (with_nul texts))
        (append_assoc t.shown (text ∷ []) texts)

client_loop-typed :
    (texts lines : List (List ℕ))
    → all_no_nul texts ≡ true
    → client_loop (arriving (with_nul texts)) lines ≡ (lines ++ texts, closed)
unfolding client_loop
client_loop-typed [] lines h = rw (append-nil lines) refl
client_loop-typed (text ∷ texts) lines h =
    client_line text (arriving (with_nul texts)) lines (ground arith)
    ∙ client_loop-typed texts (lines ++ (text ∷ [])) (ground arith)
    ∙ ap (λ (l : List (List ℕ)). (l, closed)) (append_assoc lines (text ∷ []) texts)

-- Lines of text without NUL that are typed at the client are shown there as they are, and, where each
-- `write` arrives as one `read` and the client then closes, the server shows exactly these lines and
-- goes on to the next client.
lines_arrive :
    (texts lines : List (List ℕ)) (clients : List (Option Reads))
    → all_no_nul texts ≡ true
    → let t = pair_loop (typed texts) silent in
      (t.shown ≡ texts)
      × (server_loop (some (arriving t.sent) ∷ clients) lines
          ≡ server_loop clients (lines ++ texts))
unfolding server_loop
lines_arrive texts lines clients h =
    let e = pair_loop-typed texts silent h in
    (
      ap (λ (t : Talk). t.shown) e,
      ap (λ (t : Talk). after_client (server_loop clients) (client_loop (arriving t.sent) lines)) e
          ∙ ap (after_client (server_loop clients)) (client_loop-typed texts lines h),
    )
