-- ===== src/Httpd/Server.antt =====
-- `StartUp` of http/httpd.c, and `main` of http/main.c: the listening socket and the accept loop.
use network_code.Base.{
  ℕ, ◌≡◌, refl, Bool, true, false, not, ◌&&◌, Option, none, some, List, [], ◌∷◌, ◌++◌, arith,
  length, codes, drop, if◌then◌else◌, get_elem?, sym, ◌∙◌, append-nil, append_assoc,
}
use network_code.Httpd.Socket.{Arrival}
use network_code.Httpd.Line.Chop.{bytes_of}
use network_code.Httpd.Line.Header.{clean_hander_never_returns}
use network_code.Httpd.Host.{Host}
use network_code.Httpd.Reply.{echo_code}
use network_code.Httpd.Log.{
  Run, returned, exited, running, normal, fatal, warning, LogFile, log_entry, print_log,
}

-- What the system calls of `StartUp` return, and whether `write` to the log succeeds.
pub record Kernel : Type 0 where
  pub socket : Option ℕ
  pub bind : Bool
  pub listen : Bool
  pub write_ok : Bool
  -- what `recv` gives on the socket before any connection
  pub unconnected : List Arrival

infixl 5 ◌then_log◌
abbrev ◌then_log◌ {ℓ κ} : {A : Type ℓ} {B : Type κ} → Run A → (A → Run B) → Run B
returned a then_log k = k a
exited n then_log k = exited n
running then_log k = running

-- `echo_code(sock); exit(code)`
abbrev page_then_exit : {A : Type 0} → ℕ → Host → Kernel → ℕ → Run A
page_then_exit fuel h k code =
    elim (echo_code fuel h (record { incoming = k.unconnected; sent = []; is_open = true })) [
      | none ↦ running
      | some r ↦ exited code
    ]

unfoldable pub start_up : ℕ → Host → Kernel → LogFile → Run (ℕ × LogFile)
start_up fuel h k log = elim k.socket [
  | none ↦ print_log k.write_ok (codes "create sock error") fatal log then_log λ _. exited 1
  | some sock ↦
      if not k.bind
      then page_then_exit fuel h k 2
      else if not k.listen
      then page_then_exit fuel h k 3
      else (print_log k.write_ok (codes "Sock listend Success") normal log then_log λ log'.
          returned (sock, log'))
]

-- One round of the accept loop: `accept` fails, or gives a socket, for which `pthread_create` then
-- succeeds or not.
pub data Event : Type 0 where
  accept_failed : Event
  accepted : (sock : ℕ) → (created : Bool) → Event

-- `handed` holds the sockets given to a thread that runs `HandleSock`, `closed` those closed here.
pub record Server : Type 0 where
  pub log : LogFile
  pub handed : List ℕ
  pub closed : List ℕ

unfoldable pub accept_round : Bool → Event → Server → Run Server
accept_round write_ok accept_failed s =
    print_log write_ok (codes "Server con't accept client") warning s.log then_log λ log'.
    returned (record s { log = log' })
accept_round write_ok (accepted sock true) s =
    returned (record s { handed = s.handed ++ (sock ∷ []) })
accept_round write_ok (accepted sock false) s =
    print_log write_ok (codes "server can't create pthread") warning s.log then_log λ log'.
    returned (record s { log = log'; closed = s.closed ++ (sock ∷ []) })

-- `while (1)`, for the rounds that the list names.
unfoldable pub accept_loop : Bool → List Event → Server → Run Server
accept_loop write_ok [] s = returned s
accept_loop write_ok (e ∷ es) s =
    accept_round write_ok e s then_log λ s'. accept_loop write_ok es s'

-- `main` up to the loop: a wrong number of arguments only prints the usage. `none` is the abort of
-- `assert` or the fault of `atoi` on a null pointer.
unfoldable pub main_start : ℕ → Host → Kernel → LogFile → List (List ℕ) → Option (Run (ℕ × LogFile))
main_start fuel h k log argv = elim (get_elem? argv 1) [
  | none ↦ none
  | some ip ↦ elim (get_elem? argv 2) [ none ↦ none | some port ↦ some (start_up fuel h k log) ]
]

-- On a socket that is not connected no byte arrives, so after a failed `bind` or `listen` the
-- process does not exit: `echo_code` never returns, with any fuel.
start_up_never_exits :
    (fuel : ℕ) (h : Host) (k : Kernel) (log : LogFile) (sock : ℕ)
    → k.socket ≡ some sock
    → k.bind && k.listen ≡ false
    → bytes_of k.unconnected ≡ []
    → start_up fuel h k log ≡ running
unfolding start_up echo_code
start_up_never_exits fuel h k log sock e fails quiet = ground (
  arith,
  clean_hander_never_returns fuel (record { incoming = k.unconnected; sent = []; is_open = true }),
)

-- The sockets accepted, in order, for which a thread was created, or was not.
abbrev pub with_thread : Bool → List Event → List ℕ
with_thread wanted [] = []
with_thread wanted (accept_failed ∷ es) = with_thread wanted es
with_thread true (accepted sock true ∷ es) = sock ∷ with_thread true es
with_thread true (accepted sock false ∷ es) = with_thread true es
with_thread false (accepted sock true ∷ es) = with_thread false es
with_thread false (accepted sock false ∷ es) = sock ∷ with_thread false es

-- What the loop leaves, with a log file that can be written.
abbrev pub Served : List Event → Server → Run Server → Type 0
Served es s (returned s') =
    (s'.handed ≡ s.handed ++ with_thread true es) × (s'.closed ≡ s.closed ++ with_thread false es)
Served es s (exited n) = ⊥
Served es s running = ⊥

-- The log after the message of a failed `pthread_create`.
abbrev log_after : List ℕ → List ℕ
log_after log =
    let buf = log_entry (codes "server can't create pthread") warning in
    buf ++ drop (length buf) log

Served-handed :
    (sock : ℕ) (es : List Event) (log : LogFile) (handed closed : List ℕ) (r : Run Server)
    → Served es (record { log = log; handed = handed ++ (sock ∷ []); closed = closed }) r
    → Served (accepted sock true ∷ es) (record { log = log; handed = handed; closed = closed }) r
Served-handed sock es log handed closed (returned s') (e, f) =
    (e ∙ append_assoc handed (sock ∷ []) (with_thread true es), f)
Served-handed sock es log handed closed (exited n) h = h
Served-handed sock es log handed closed running h = h

Served-closed :
    (sock : ℕ) (es : List Event) (log : LogFile) (handed closed : List ℕ) (r : Run Server)
    → Served es (record { log = log; handed = handed; closed = closed ++ (sock ∷ []) }) r
    → Served (accepted sock false ∷ es) (record { log = log; handed = handed; closed = closed }) r
Served-closed sock es log handed closed (returned s') (e, f) =
    (e, f ∙ append_assoc closed (sock ∷ []) (with_thread false es))
Served-closed sock es log handed closed (exited n) h = h
Served-closed sock es log handed closed running h = h

-- With a log file that can be written the loop goes on whatever fails: every accepted socket is,
-- in order, handed to exactly one thread, or closed where no thread could be created.
accept_loop_lem :
    (es : List Event) (log handed closed : List ℕ)
    → let s : Server = record { log = some log; handed = handed; closed = closed } in
      Served es s (accept_loop true es s)
unfolding accept_loop accept_round print_log
accept_loop_lem [] log handed closed = (sym (append-nil handed), sym (append-nil closed))
accept_loop_lem (accept_failed ∷ es) log handed closed = accept_loop_lem es _ handed closed
accept_loop_lem (accepted sock true ∷ es) log handed closed =
    Served-handed sock es none handed closed _
      (accept_loop_lem es log (handed ++ (sock ∷ [])) closed)
accept_loop_lem (accepted sock false ∷ es) log handed closed =
    Served-closed sock es none handed closed _
      (accept_loop_lem es (log_after log) handed (closed ++ (sock ∷ [])))

-- Whether some `accept` or `pthread_create` fails.
abbrev pub has_failure : List Event → Bool
has_failure [] = false
has_failure (accept_failed ∷ es) = true
has_failure (accepted sock true ∷ es) = has_failure es
has_failure (accepted sock false ∷ es) = true

-- Without a log file that opens, the first failure of `accept` or `pthread_create` ends the server
-- with exit code 1; while there is none, it goes on.
accept_loop_no_log :
    (write_ok : Bool) (es : List Event) (handed closed : List ℕ)
    → accept_loop write_ok es (record { log = none; handed = handed; closed = closed }) ≡ (
        if has_failure es
        then exited 1
        else returned
            (record { log = none; handed = handed ++ with_thread true es; closed = closed }))
unfolding accept_loop accept_round print_log
accept_loop_no_log write_ok [] handed closed = rw (append-nil handed)
accept_loop_no_log write_ok (accept_failed ∷ es) handed closed = refl
accept_loop_no_log write_ok (accepted sock true ∷ es) handed closed = ground (
  arith,
  accept_loop_no_log write_ok es (handed ++ (sock ∷ [])) closed,
  append_assoc handed (sock ∷ []) (with_thread true es),
)
accept_loop_no_log write_ok (accepted sock false ∷ es) handed closed = refl
