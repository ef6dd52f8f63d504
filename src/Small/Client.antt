-- ===== src/Small/Client.antt =====
-- chat/client.c: what the user types goes to the server, what the server sends is shown.
use network_code.Base.{
  ℕ, zero, suc, ◌≡◌, Bool, false, not, Option, none, some, List, [], ◌∷◌, ◌++◌, if◌then◌else◌,
  c_str, arith, append-nil,
}

-- One return of `poll`: the flags POLLRDHUP and POLLIN of the socket, POLLIN of standard input, and
-- what the two calls of `read` would give (`none` for an error).
pub record Polled : Type 0 where
  pub hung_up : Bool
  pub readable : Bool
  pub typed : Bool
  pub from_server : Option (List ℕ)
  pub from_user : Option (List ℕ)

pub record Client : Type 0 where
  pub shown : List (List ℕ)
  pub sent : List ℕ

-- The loop goes on, or is left by `break`.
pub data Went : Type 0 where
  goes_on : Client → Went
  breaks : Client → Went

-- Standard input is read in the same round, behind the socket.
unfoldable pub from_input : Polled → Client → Went
from_input p s = if not p.typed then goes_on s else elim p.from_user [
  | none ↦ breaks s
  | some bytes ↦ goes_on (record s { sent = s.sent ++ bytes })
]

unfoldable pub client_round : Polled → Client → Went
client_round p s =
    if p.hung_up
    then breaks s
    else if p.readable
    then elim p.from_server [
      | none ↦ breaks s
      | some [] ↦ breaks s
      | some (c ∷ bytes) ↦ from_input p (record s { shown = s.shown ++ (c_str (c ∷ bytes) ∷ []) })
    ]
    else from_input p s

abbrev went_on : Went → (Client → Went) → Went
went_on (breaks s) k = breaks s
went_on (goes_on s) k = k s

-- `none` is an error of `poll`.
unfoldable pub client_loop : List (Option Polled) → Client → Went
client_loop [] s = goes_on s
client_loop (none ∷ ps) s = breaks s
client_loop (some p ∷ ps) s = went_on (client_round p s) (client_loop ps)

-- `main`: a code, and where it comes to its loop, what that leaves.
pub data Ended : Type 0 where
  exits : ℕ → Ended
  stays : Client → Ended

abbrev closed_after : Went → Ended
closed_after (goes_on s) = stays s
closed_after (breaks s) = exits 0

unfoldable pub client_main : ℕ → Bool → Bool → List (Option Polled) → Ended
client_main argc socket connect ps = elim argc [
  | suc (suc (suc zero)) ↦
      if not socket
      then exits 2
      else if not connect
      then exits 3
      else closed_after (client_loop ps (record { shown = []; sent = [] }))
  | _ ↦ exits 1
]

-- When standard input has ended, `poll` reports it in every round, `read` gives no bytes, and nothing
-- is left behind: without news of the server the client never leaves its loop.
end_of_input_spins :
    (ps : List (Option Polled)) (p : Polled) (s : Client)
    → p.hung_up ≡ false
    → p.readable ≡ false
    → p.from_user ≡ some []
    → client_loop (some p ∷ ps) s ≡ client_loop ps s
unfolding client_loop client_round from_input
end_of_input_spins ps p s h r u = ground (arith, append-nil s.sent)
