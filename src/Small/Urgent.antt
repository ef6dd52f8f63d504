-- ===== src/Small/Urgent.antt =====
-- OOB/server.c: a server for one client at a time, and its handler of urgent bytes.
use network_code.Base.{ℕ, ◌≡◌, refl, Option, none, some, List, [], ◌∷◌, ◌++◌, c_str, length, set}
use network_code.Small.Reads.{Reads}

-- The child process: it waits in `accept` or `recv`, returns 2 from `main`, or exits with 1.
pub data Child : Type 0 where
  waits : List (List ℕ) → Child
  returns : ℕ → List (List ℕ) → Child

-- The inner loop, then `rest` at the end of the stream.
unfoldable pub recv_loop : Reads → List (List ℕ) → (List (List ℕ) → Child) → Child
recv_loop [] shown rest = waits shown
recv_loop (none ∷ rs) shown rest = returns 1 shown
recv_loop (some [] ∷ rs) shown rest = rest shown
recv_loop (some (c ∷ bytes) ∷ rs) shown rest = recv_loop rs (shown ++ (c_str (c ∷ bytes) ∷ [])) rest

-- The outer loop: a connection is what its `recv` calls give, or a failed `accept`.
unfoldable pub accept_clients : List (Option Reads) → List (List ℕ) → Child
accept_clients [] shown = waits shown
accept_clients (none ∷ cs) shown = returns 2 shown
accept_clients (some rs ∷ cs) shown = recv_loop rs shown (accept_clients cs)

-- `SigURGRun`: what it shows of the array `buf`; `none` is a write before the array. `stale` stands
-- in the array behind what `recv` gave.
unfoldable pub sig_urg_run : List ℕ → List ℕ → Option (List ℕ)
sig_urg_run [] stale = none
sig_urg_run (c ∷ bytes) stale = some (c_str (set ((c ∷ bytes) ++ stale) (length bytes) 0))

-- Urgent data is one byte, and the handler writes the NUL over it: nothing is ever shown of it.
urgent_byte_hidden : (c : ℕ) (stale : List ℕ) → sig_urg_run (c ∷ []) stale ≡ some []
unfolding sig_urg_run
urgent_byte_hidden c stale = refl

-- One client whose `recv` fails ends the process for all that would come after it.
failed_recv_ends :
    (cs : List (Option Reads)) (rs : Reads) (shown : List (List ℕ))
    → accept_clients (some (none ∷ rs) ∷ cs) shown ≡ returns 1 shown
unfolding accept_clients recv_loop
failed_recv_ends cs rs shown = refl
