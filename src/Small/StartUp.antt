-- ===== src/Small/StartUp.antt =====
-- `StartUp` of chat/server.c, epoll_server.c and OOB/server.c (the same text), and that of
-- pthreadServer/tserver.c.
use network_code.Base.{
  ℕ, ◌≡◌, Bool, true, false, not, ◌&&◌, Option, none, some, if◌then◌else◌, arith,
}

-- What the system calls return.
pub record Kernel : Type 0 where
  pub socket : Option ℕ
  pub setsockopt : Bool
  pub bind : Bool
  pub listen : Bool

-- The function returns a descriptor, or the process exits with a code.
pub data Started : Type 0 where
  listening : ℕ → Started
  exits : ℕ → Started

abbrev bound : Kernel → ℕ → Started
bound k sock = if not k.bind then exits 254 else if not k.listen then exits 253 else listening sock

-- `exit(-1)`, `exit(-2)` and `exit(-3)` are the codes 255, 254 and 253. A failed `setsockopt`
-- returns 4.
unfoldable pub start_up : Kernel → Started
start_up k =
    if not k.setsockopt
    then listening 4
    else elim k.socket [ none ↦ exits 255 | some sock ↦ bound k sock ]

-- The one of tserver.c does not read the result of `setsockopt`.
unfoldable pub start_threads : Kernel → Started
start_threads k = elim k.socket [
  | none ↦ exits 1
  | some sock ↦ if not k.bind then exits 2 else if not k.listen then exits 3 else listening sock
]

-- Since `setsockopt` fails on the descriptor -1, a failed `socket` never exits: the caller goes on
-- with the descriptor 4.
no_socket_is_four : (k : Kernel) → k.socket ≡ none → k.setsockopt ≡ false → start_up k ≡ listening 4
unfolding start_up
no_socket_is_four k e f = ground arith

-- Where every call succeeds both give the socket.
started_both :
    (k : Kernel) (sock : ℕ)
    → k.socket ≡ some sock
    → k.setsockopt && (k.bind && k.listen) ≡ true
    → (start_up k ≡ listening sock) × (start_threads k ≡ listening sock)
unfolding start_up start_threads
started_both k sock e ok = (ground arith, ground arith)
