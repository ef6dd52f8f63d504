-- ===== src/Epoll/Sharing.antt =====
-- The one pointer `ev.data.ptr` of epoll_server.c, shared by all clients.
use network_code.Base.{
  ℕ, ◌+◌, ◌-◌, ◌≡◌, ◌≢◌, refl, true, false, none, some, List, [], ◌∷◌, ◌++◌, arith, set, length,
}
use network_code.Epoll.{
  Epbuf, Events, Interest, Loop, goes_on, faults, update, Answer, on_accept, on_quit, on_bytes,
  on_read, handle,
}

-- A client that connects gets a buffer that names it, registered for it, and every other buffer and
-- registration stays; its buffer is then the shared one.
accept_registers :
    (a : Answer) (ptr confd : ℕ) (ev : Events) (s : Loop) (b : Epbuf)
    → s.heap ptr ≡ some b
    → b.fd ≡ s.listen_sock
    → ev.readable ≡ true
    → a.accept ≡ some confd
    → a.ctl ≡ true
    → (s' : Loop) × (handle a ptr ev s ≡ goes_on s')
      × (s'.heap s.fresh ≡ some (record { fd = confd; buf = [] }))
      × (s'.ev_ptr ≡ s.fresh)
      × ((k : ℕ) → k ≢ s.fresh → s'.heap k ≡ s.heap k)
      × ((fd : ℕ) → fd ≢ confd → s'.interest fd ≡ s.interest fd)
unfolding handle on_accept
accept_registers a ptr confd ev s b e l r acc ctl = (
  record s {
    heap = update s.heap s.fresh (some (record { fd = confd; buf = [] }));
    fresh = s.fresh + 1;
    ev_ptr = s.fresh;
    interest = update s.interest confd (
        some (record {
          ptr = s.fresh;
          events = record { readable = true; writable = false; edge = true };
        }));
  },
  ground (arith, e, l, r, acc, ctl),
  ground arith,
  refl,
  λ k ne. ground arith,
  λ fd ne. ground arith,
)

-- When a client sends bytes, the shared buffer, whoever it was made for, is made to name this client,
-- and this client is registered with it.
read_redirects :
    (a : Answer) (ptr c : ℕ) (bytes : List ℕ) (ev : Events) (s : Loop) (b shared : Epbuf)
    (old : Interest)
    → s.heap ptr ≡ some b
    → b.fd ≢ s.listen_sock
    → ev.readable ≡ true
    → a.read ≡ some (c ∷ bytes)
    → ptr ≢ s.ev_ptr
    → s.heap s.ev_ptr ≡ some shared
    → s.interest b.fd ≡ some old
    → a.ctl ≡ true
    → (s' : Loop) × (handle a ptr ev s ≡ goes_on s')
      × (s'.heap s.ev_ptr ≡ some (record shared { fd = b.fd }))
      × ((i : Interest) × (s'.interest b.fd ≡ some i) × (i.ptr ≡ s.ev_ptr))
unfolding handle on_read on_bytes
read_redirects a ptr c bytes ev s b shared old e l r rd ne sh reg ctl = (
  record s {
    heap =
        update
          (update s.heap ptr (some (record b { buf = set (c ∷ bytes) (length (c ∷ bytes) - 1) 0 })))
          s.ev_ptr (some (record shared { fd = b.fd }));
    interest = update s.interest b.fd (
        some (record {
          ptr = s.ev_ptr;
          events = record { readable = ev.readable; writable = true; edge = true };
        }));
  },
  ground arith,
  ground arith,
  (
    record {
      ptr = s.ev_ptr;
      events = record { readable = ev.readable; writable = true; edge = true };
    },
    ground arith,
    refl,
  ),
)

-- If the client that the shared buffer was made for leaves, the buffer is freed, and the next bytes
-- from any other client are a use of freed memory.
quit_then_read_faults :
    (a a' : Answer) (ptr c : ℕ) (bytes : List ℕ) (ev ev' : Events) (s : Loop) (b shared : Epbuf)
    → s.heap s.ev_ptr ≡ some shared
    → shared.fd ≢ s.listen_sock
    → ev.readable ≡ true
    → a.read ≡ some []
    → s.heap ptr ≡ some b
    → b.fd ≢ s.listen_sock
    → ptr ≢ s.ev_ptr
    → ev'.readable ≡ true
    → a'.read ≡ some (c ∷ bytes)
    → (s' : Loop) × (handle a s.ev_ptr ev s ≡ goes_on s') × (handle a' ptr ev' s' ≡ faults)
unfolding handle on_read on_quit on_bytes
quit_then_read_faults a a' ptr c bytes ev ev' s b shared sh ns r rd e nl ne r' rd' = (
  record s {
    heap = update s.heap s.ev_ptr none;
    interest = update s.interest shared.fd none;
    closed = s.closed ++ (shared.fd ∷ []);
  },
  ground arith,
  ground arith,
)
