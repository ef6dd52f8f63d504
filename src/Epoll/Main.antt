-- ===== src/Epoll/Main.antt =====
-- `main` of epoll_server.c: the first registration, `epoll_wait` and the loop over the ready events.
use network_code.Base.{
  ℕ, zero, suc, Bool, true, false, not, Option, none, some, List, [], ◌∷◌, if◌then◌else◌,
}
use network_code.Epoll.{
  Events, Interest, Loop, Result, goes_on, exits, faults, update, Answer, handle,
}

-- The state when the loop begins: a buffer for the listening socket, registered with EPOLLIN.
abbrev pub start : ℕ → Loop
start listen_sock = record {
  listen_sock = listen_sock;
  heap = update (λ k. none) 0 (some (record { fd = listen_sock; buf = [] }));
  fresh = 1;
  interest =
      update (λ fd. none) listen_sock
        (some (record {
          ptr = 0;
          events = record { readable = true; writable = false; edge = false };
        }));
  ev_ptr = 0;
  sent = [];
  closed = [];
}

-- A descriptor that is ready, with what happened on it, and what the calls of its round give.
pub record Ready : Type 0 where
  pub fd : ℕ
  pub events : Events
  pub answer : Answer

-- What `epoll_wait` returns.
pub data Waited : Type 0 where
  timed_out : Waited
  failed : Waited
  ready : List Ready → Waited

-- An entry of `evs`: the pointer registered for the descriptor.
pub record Entry : Type 0 where
  pub ptr : ℕ
  pub events : Events
  pub answer : Answer

abbrev pub add_entry : Ready → Option Interest → List Entry → List Entry
add_entry r none es = es
add_entry r (some i) es = record { ptr = i.ptr; events = r.events; answer = r.answer } ∷ es

-- `evs` as the kernel fills it; a descriptor that is not registered is never ready.
unfoldable pub gather : (ℕ → Option Interest) → List Ready → List Entry
gather interest [] = []
gather interest (r ∷ rs) = add_entry r (interest r.fd) (gather interest rs)

abbrev pub and_then : Result → (Loop → Result) → Result
and_then (goes_on s) f = f s
and_then (exits n) f = exits n
and_then faults f = faults

unfoldable pub handle_all : List Entry → Loop → Result
handle_all [] s = goes_on s
handle_all (e ∷ es) s = and_then (handle e.answer e.ptr e.events s) (handle_all es)

unfoldable pub main_round : Waited → Loop → Result
main_round timed_out s = goes_on s
main_round failed s = exits 0
main_round (ready rs) s = handle_all (gather s.interest rs) s

unfoldable pub main_loop : List Waited → Loop → Result
main_loop [] s = goes_on s
main_loop (w ∷ ws) s = and_then (main_round w s) (main_loop ws)

-- `main`, given whether `epoll_create` and the first `epoll_ctl` succeed. (The usage line for a wrong
-- number of arguments lacks one of its own; only the code of that branch is modelled.)
unfoldable pub epoll_main : ℕ → ℕ → Bool → Bool → List Waited → Result
epoll_main argc listen_sock create ctl ws = elim argc [
  | suc (suc (suc zero)) ↦
      if not create then exits 2 else if not ctl then exits 3 else main_loop ws (start listen_sock)
  | _ ↦ exits 1
]
