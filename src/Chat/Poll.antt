-- ===== src/Chat/Poll.antt =====
-- The loops of `main` in chat/server.c: over the returns of `poll`, and over the slots after each.
use network_code.Base.{ℕ, zero, suc, ◌+◌, Option, none, some, List, [], ◌∷◌, ltb, if◌then◌else◌}
use network_code.Chat.Mask.{Mask}
use network_code.Chat.Server.{Slot, Server, Answer, Next, handle}

-- How the loop ends; `unfinished` where the fuel runs out, `outside` where a round is outside the
-- model of Chat.Server.
pub data Scan : Type 0 where
  done : Server → Scan
  outside : Scan
  unfinished : Scan

abbrev pub carry_on : Next → (ℕ → Server → Scan) → Scan
carry_on none k = outside
carry_on (some (i, s)) k = k i s

-- `for (i = …; i < user_count + 1; i++)`; the number of a round from the end names its answers.
unfoldable pub scan : ℕ → (ℕ → Answer) → ℕ → Server → Scan
scan zero answers i s = unfinished
scan (suc n) answers i s =
    let next = carry_on (handle (answers n) i s) (scan n answers) in
    if ltb i (s.user_count + 1) then next else done s

-- One return of `poll`: what it reports for each slot, and the answers in the rounds that follow.
pub record Polled : Type 0 where
  pub revents : ℕ → Mask
  pub answers : ℕ → Answer

-- `poll` writes the first `n` slots from index `i` on.
abbrev pub report : ℕ → ℕ → (ℕ → Mask) → List Slot → List Slot
report n i f [] = []
report zero i f (slot ∷ fds) = slot ∷ fds
report (suc n) i f (slot ∷ fds) = record slot { revents = f i } ∷ report n (i + 1) f fds

abbrev pub then_poll : Scan → (Server → Scan) → Scan
then_poll (done s) k = k s
then_poll outside k = outside
then_poll unfinished k = unfinished

-- `while (1)`, for the returns of `poll` in the list; `none` is an error. 18 rounds of fuel for each.
unfoldable pub poll_loop : List (Option Polled) → Server → Scan
poll_loop [] s = done s
poll_loop (none ∷ ps) s = done s
poll_loop (some p ∷ ps) s =
    then_poll (scan 18 p.answers 0 (record s { fds = report (s.user_count + 1) 0 p.revents s.fds }))
      (poll_loop ps)
