-- ===== src/Httpd/Socket.antt =====
-- A connected socket as httpd.c sees it, and the state-passing style of its functions.
use network_code.Base.{ℕ, Bool, false, Option, none, some, List, [], ◌∷◌, ◌++◌, map}

-- What the kernel delivers to `recv`, in order: a byte, or one failed call. When the list is used
-- up the peer has closed, and every further `recv` returns 0.
pub data Arrival : Type 0 where
  byte : ℕ → Arrival
  fault : Arrival

-- The bytes of a peer without failed calls.
abbrev pub arrive : List ℕ → List Arrival
arrive bs = map byte bs

pub data Received : Type 0 where
  got : ℕ → List Arrival → Received
  closed : Received
  failed : List Arrival → Received

-- `recv(sock, &c, 1, 0)`
abbrev pub recv : List Arrival → Received
recv [] = closed
recv (byte c ∷ rest) = got c rest
recv (fault ∷ rest) = failed rest

-- `recv(sock, &c, 1, MSG_PEEK)`: the byte stays.
abbrev pub peek : List Arrival → Received
peek [] = closed
peek (byte c ∷ rest) = got c (byte c ∷ rest)
peek (fault ∷ rest) = failed rest

-- `sent` holds the bytes handed to the socket, in order; `is_open` falls with `close(sock)`.
pub record Conn : Type 0 where
  pub incoming : List Arrival
  pub sent : List ℕ
  pub is_open : Bool

-- A function on the socket: its result and the new state, or `none` if its fuel runs out.
abbrev pub M : Type 0 → Type 0
M A = Conn → Option (A × Conn)

infixl 5 ◌>>=◌ ◌>>◌
abbrev pub ◌>>=◌ : {A B : Type 0} → M A → (A → M B) → M B
◌>>=◌ m f c = elim (m c) [ none ↦ none | some (a, c') ↦ f a c' ]

abbrev pub ◌>>◌ : {A B : Type 0} → M A → M B → M B
◌>>◌ m k = m >>= λ _. k

abbrev pub return : {A : Type 0} → A → M A
return a c = some (a, c)

-- `write` and `send`, whose results the program does not read.
abbrev pub send : List ℕ → M (Unit {0})
send bs c = some (tt, record c { sent = c.sent ++ bs })

abbrev pub close : M (Unit {0})
close c = some (tt, record c { is_open = false })
