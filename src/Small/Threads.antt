-- ===== src/Small/Threads.antt =====
-- pthreadServer/tserver.c: one thread for each client.
use network_code.Base.{
  ℕ, ◌≡◌, refl, ◌∙◌, Bool, true, false, Option, none, some, List, [], ◌∷◌, ◌++◌, c_str, arith,
  append_assoc, append-nil,
}
use network_code.Small.Reads.{Reads, bytes_before_end, comes_to_end}

-- A client's thread: what it has written back, what it has shown, and whether it has returned.
pub record Echo : Type 0 where
  pub sent : List ℕ
  pub shown : List (List ℕ)
  pub left : Bool

-- `handleClient`, for the calls of `read` in the list.
unfoldable pub handle_client : Reads → Echo → Echo
handle_client [] s = s
handle_client (none ∷ rs) s = record s { left = true }
handle_client (some [] ∷ rs) s = record s { left = true }
handle_client (some (c ∷ bytes) ∷ rs) s =
    handle_client rs
      (record s { sent = s.sent ++ (c ∷ bytes); shown = s.shown ++ (c_str (c ∷ bytes) ∷ []) })

-- One thing that happens in `main`: `accept` fails, or gives a socket for which a thread is created;
-- or a created thread reads its argument.
pub data Event : Type 0 where
  refused : Event
  accepted : ℕ → Event
  begins : Event

-- `arg` is the one structure on the stack of `main` that every thread gets a pointer to.
pub record Clients : Type 0 where
  pub arg : Option ℕ
  pub serving : List ℕ

abbrev read_arg : Clients → Option ℕ → Clients
read_arg s none = s
read_arg s (some sock) = record s { serving = s.serving ++ (sock ∷ []) }

unfoldable pub main_event : Event → Clients → Clients
main_event refused s = s
main_event (accepted sock) s = record s { arg = some sock }
main_event begins s = read_arg s s.arg

unfoldable pub main_loop : List Event → Clients → Clients
main_loop [] s = s
main_loop (e ∷ es) s = main_loop es (main_event e s)

-- A thread writes back exactly the bytes that come before the first error or the end of the stream,
-- in order, however they are split over the calls, and returns if and only if there is such an end.
handle_client_echoes :
    (rs : Reads) (sent : List ℕ) (shown : List (List ℕ))
    → let s = handle_client rs (record { sent = sent; shown = shown; left = false }) in
      (s.sent ≡ sent ++ bytes_before_end rs) × (s.left ≡ comes_to_end rs)
unfolding handle_client bytes_before_end comes_to_end
handle_client_echoes [] sent shown = (ground (arith, append-nil sent), refl)
handle_client_echoes (none ∷ rs) sent shown = (ground (arith, append-nil sent), refl)
handle_client_echoes (some [] ∷ rs) sent shown = (ground (arith, append-nil sent), refl)
handle_client_echoes (some (c ∷ bytes) ∷ rs) sent shown =
    let (e, f) =
      handle_client_echoes rs (sent ++ (c ∷ bytes)) (shown ++ (c_str (c ∷ bytes) ∷ [])) in
    (e ∙ append_assoc sent (c ∷ bytes) (bytes_before_end rs), f)

-- Every client is accepted and its thread reads the argument before the next.
abbrev in_turn : List ℕ → List Event
in_turn [] = []
in_turn (sock ∷ socks) = accepted sock ∷ begins ∷ in_turn socks

-- Threads that begin in turn serve each socket once.
in_turn_serves :
    (socks serving : List ℕ) (arg : Option ℕ)
    → (main_loop (in_turn socks) (record { arg = arg; serving = serving })).serving
      ≡ serving ++ socks
unfolding main_loop main_event
in_turn_serves [] serving arg = ground (arith, append-nil serving)
in_turn_serves (sock ∷ socks) serving arg =
    in_turn_serves socks (serving ++ (sock ∷ [])) (some sock)
    ∙ append_assoc serving (sock ∷ []) socks

-- If a second client is accepted before the first thread has begun, both threads serve the second,
-- and the first socket is never served.
overtaken :
    (x y : ℕ) (s : Clients)
    → (main_loop (accepted x ∷ accepted y ∷ begins ∷ begins ∷ []) s).serving
      ≡ s.serving ++ (y ∷ y ∷ [])
unfolding main_loop main_event
overtaken x y s = append_assoc s.serving (y ∷ []) (y ∷ [])
