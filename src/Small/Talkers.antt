-- ===== src/Small/Talkers.antt =====
-- The clients of the small servers: 服务器和客户端(1V1)/client.c, pthreadServer/client.c, OOB/client.c
-- and UN/client.c, from the connected socket on.
use network_code.Base.{
  ℕ, zero, suc, ◌≡◌, refl, Bool, not, Option, none, some, List, [], ◌∷◌, ◌++◌, if◌then◌else◌, c_str,
  length, set,
}
use network_code.Small.Reads.{Reads}

-- Where a client stands after the calls in its list: it waits for the next, it has returned or exited
-- with a code, or it has written in front of an array.
pub data Ending : Type 0 where
  goes_on : Ending
  returns : ℕ → Ending
  exits : ℕ → Ending
  faults : Ending

-- What was sent, call by call, and the lines shown.
pub record Talk : Type 0 where
  pub sent : List (List ℕ)
  pub shown : List (List ℕ)
  pub ending : Ending

-- `buf[_s-1]='\0'`
abbrev pub cut_last : ℕ → List ℕ → List ℕ
cut_last c bytes = set (c ∷ bytes) (length bytes) 0

-- The loop of 服务器和客户端(1V1)/client.c.
unfoldable pub pair_loop : Reads → Talk → Talk
pair_loop [] t = t
pair_loop (none ∷ rs) t = record t { ending = exits 1 }
pair_loop (some [] ∷ rs) t = record t { ending = faults }
pair_loop (some (c ∷ bytes) ∷ rs) t = pair_loop rs (record t {
  sent = t.sent ++ (cut_last c bytes ∷ []);
  shown = t.shown ++ (c_str (cut_last c bytes) ∷ []);
})

-- The loop of OOB/client.c; with each line comes whether `send` succeeds.
unfoldable pub urgent_loop : List (Option (List ℕ) × Bool) → Talk → Talk
urgent_loop [] t = t
urgent_loop ((none, ok) ∷ rs) t = record t { ending = exits 1 }
urgent_loop ((some [], ok) ∷ rs) t = record t { ending = faults }
urgent_loop ((some (c ∷ bytes), ok) ∷ rs) t = urgent_loop rs (record t {
  sent = if ok then t.sent ++ (cut_last c bytes ∷ []) else t.sent;
  shown = t.shown ++ (c_str (cut_last c bytes) ∷ []);
})

-- The loop of pthreadServer/client.c; with each line comes what is read from the server. The test
-- `size = 0` sets `size`, and `data[-1]` is written.
unfoldable pub echo_loop : List (Option (List ℕ) × Option (List ℕ)) → Talk → Talk
echo_loop [] t = t
echo_loop ((none, answer) ∷ rs) t = record t { ending = exits 1 }
echo_loop ((some [], answer) ∷ rs) t = record t { ending = faults }
echo_loop ((some (c ∷ bytes), none) ∷ rs) t = record t {
  sent = t.sent ++ (cut_last c bytes ∷ []);
  ending = returns 0;
}
echo_loop ((some (c ∷ bytes), some answer) ∷ rs) t = record t {
  sent = t.sent ++ (cut_last c bytes ∷ []);
  ending = faults;
}

-- The loop of UN/client.c.
unfoldable pub local_loop : Reads → Talk → Talk
local_loop [] t = t
local_loop (none ∷ rs) t = record t { ending = returns 0 }
local_loop (some [] ∷ rs) t = record t { ending = returns 0 }
local_loop (some (c ∷ bytes) ∷ rs) t =
    local_loop rs (record t { sent = t.sent ++ ((c ∷ bytes) ∷ []) })

abbrev pub silent : Talk
silent = record { sent = []; shown = []; ending = goes_on }

abbrev pub ended : Ending → Talk
ended e = record silent { ending = e }

-- The `main` that the three network clients share, given the number of arguments, whether `socket`
-- and `connect` succeed, and the loop that follows.
unfoldable pub client_main : ℕ → Bool → Bool → Talk → Talk
client_main argc socket connect loop = elim argc [
  | suc (suc (suc zero)) ↦
      if not socket then ended (exits 1) else if not connect then ended (returns 2) else loop
  | _ ↦ ended (returns 3)
]

-- `main` of UN/client.c, started with the path of the socket.
unfoldable pub local_main : Bool → Bool → Talk → Talk
local_main socket connect loop =
    if not socket then ended (returns 1) else if not connect then ended (returns 2) else loop

-- The client of pthreadServer ends after its first line, whatever comes back, and never shows an echo.
echo_never_shown :
    (c : ℕ) (bytes : List ℕ) (answer : Option (List ℕ))
    (rs : List (Option (List ℕ) × Option (List ℕ)))
    → ((echo_loop ((some (c ∷ bytes), answer) ∷ rs) silent).shown ≡ [])
      × ((echo_loop ((some (c ∷ bytes), answer) ∷ rs) silent).sent ≡ cut_last c bytes ∷ [])
unfolding echo_loop
echo_never_shown c bytes none rs = (refl, refl)
echo_never_shown c bytes (some answer) rs = (refl, refl)
