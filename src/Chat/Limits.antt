-- ===== src/Chat/Limits.antt =====
-- Where chat/server.c stays in its arrays, and where not.
use network_code.Base.{
  ℕ, zero, suc, ◌+◌, ◌<◌, ◌≤◌, ◌≡◌, refl, Option, none, some, List, [], ◌∷◌, ◌++◌, length, arith,
  get_elem?, codes, ◌⊎◌,
}
use network_code.Chat.Server.{
  User, Server, ◌>>=◌, new_slot, add_user, on_accept, read_buffer, on_read,
}
use network_code.Chat.Rounds.{Sized}

get_elem?-none {ℓ} : {A : Type ℓ} (xs : List A) (i : ℕ) → length xs ≤ i → get_elem? xs i ≡ none
get_elem?-none [] i h = refl
get_elem?-none (x ∷ xs) zero h = absurd (omega arith)
get_elem?-none (x ∷ xs) (suc i) h = get_elem?-none xs i (omega arith)

abbrev pub address_of : User → ℕ
address_of u = u.address

abbrev pub option_map : (User → ℕ) → Option User → Option ℕ
option_map f none = none
option_map f (some u) = some (f u)

-- `users` has five elements and is indexed by the descriptor: below the limit, a connection whose
-- descriptor is 5 or more is written outside the array.
accept_overflows :
    (read : Option (List ℕ)) (i connfd address : ℕ) (s : Server)
    → Sized s
    → s.user_count < 5
    → 5 ≤ connfd
    → on_accept (record { accept = some (connfd, address); read = read }) i s ≡ none
unfolding on_accept add_user
accept_overflows read i connfd address s z room big = ground (arith, get_elem?-none s.users connfd)

-- A user that ends its stream, as `read` reports it, makes the program write before the start of the
-- user's array; the user is not removed.
end_of_stream_faults :
    (accept : Option (ℕ × ℕ)) (i connfd : ℕ) (s : Server)
    → on_read (record { accept = accept; read = some [] }) i connfd s ≡ none
unfolding on_read read_buffer
end_of_stream_faults accept i connfd s = at_user (get_elem? s.users connfd)
  where
    at_user : (o : Option User) → ◌>>=◌ {B = ℕ × Server} o (λ u. none) ≡ none
    at_user none = refl
    at_user (some u) = refl

-- What a connection has done to a server, by the number of users: at the limit it got seven bytes of
-- the notice and was closed, and nothing else changed; below, it is the last of one user more.
abbrev pub Answered : ℕ → ℕ → Server → Server → Type 0
Answered connfd address s s' =
    ((5 ≤ s.user_count)
      × (s' ≡ record s {
        sent = s.sent ++ ((connfd, codes "clients") ∷ []);
        closed = s.closed ++ (connfd ∷ []);
      }))
    ⊎ ((s.user_count < 5)
        × (s'.user_count ≡ s.user_count + 1)
        × (get_elem? s'.fds s'.user_count ≡ some (new_slot connfd))
        × (option_map address_of (get_elem? s'.users connfd) ≡ some address)
        × (s'.sent ≡ s.sent)
        × (s'.closed ≡ s.closed))
