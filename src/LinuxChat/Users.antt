-- ===== src/LinuxChat/Users.antt =====
-- The `userlist` of LinuxChat/server/udpServer.cpp: a map in the order of its keys.
use network_code.Base.{
  ℕ, ◌<◌, ◌≡◌, refl, Option, none, some, List, [], ◌∷◌, ltb, ◌==◌, if◌then◌else◌, arith, Bool-cases,
  inl, inr, length, codes, str_eq, c_str,
}
use network_code.LinuxChat.Ring.{Message, Pool, put_data}
use network_code.LinuxChat.Outcome.{returned, lost}
use network_code.LinuxChat.Server.{
  Json, Remote, UdpServer, insert_user, erase_user, register, received, recv_data,
}

-- Every address is above `a`.
abbrev Above : ℕ → List Remote → Type 0
Above a [] = Unit {0}
Above a (v ∷ us) = (a < v.addr) × Above a us

abbrev pub Sorted : List Remote → Type 0
Sorted [] = Unit {0}
Sorted (u ∷ us) = Above u.addr us × Sorted us

-- The entry of an address.
abbrev pub find_user : ℕ → List Remote → Option Remote
find_user a [] = none
find_user a (v ∷ us) = if a == v.addr then some v else find_user a us

abbrev pub or_new : Remote → Option Remote → Remote
or_new u none = u
or_new u (some v) = v

Above-lt : (a b : ℕ) (us : List Remote) → a < b → Above b us → Above a us
Above-lt a b [] h v = tt
Above-lt a b (u ∷ us) h (lt, v) = (omega arith, Above-lt a b us h v)

find_user-Above : (a : ℕ) (us : List Remote) → Above a us → find_user a us ≡ none
find_user-Above a [] v = refl
find_user-Above a (u ∷ us) (lt, v) = ground (arith, find_user-Above a us)

insert_user-Above :
    (a : ℕ) (u : Remote) (us : List Remote) → a < u.addr → Above a us → Above a (insert_user u us)
unfolding insert_user
insert_user-Above a u [] h v = (h, tt)
insert_user-Above a u (w ∷ us) h (lt, v) = elim (Bool-cases (u.addr == w.addr)) [
  | inl e ↦ rw e (lt, v)
  | inr e ↦ elim (Bool-cases (ltb u.addr w.addr)) [
    | inl f ↦ rw (e, f) (h, (lt, v))
    | inr f ↦ rw (e, f) (lt, insert_user-Above a u us h v)
  ]
]

pub insert_user-Sorted : (u : Remote) (us : List Remote) → Sorted us → Sorted (insert_user u us)
unfolding insert_user
insert_user-Sorted u [] s = (tt, tt)
insert_user-Sorted u (w ∷ us) (v, s) = elim (Bool-cases (u.addr == w.addr)) [
  | inl e ↦ rw e (v, s)
  | inr e ↦ elim (Bool-cases (ltb u.addr w.addr)) [
    | inl f ↦ rw (e, f) ((ground arith, Above-lt u.addr w.addr us (ground arith) v), (v, s))
    | inr f ↦ rw (e, f) (insert_user-Above w.addr u us (ground arith) v, insert_user-Sorted u us s)
  ]
]

pub find_user-insert :
    (a : ℕ) (u : Remote) (us : List Remote)
    → Sorted us
    → find_user a (insert_user u us)
      ≡ (if a == u.addr then some (or_new u (find_user u.addr us)) else find_user a us)
unfolding insert_user
find_user-insert a u [] s = refl
find_user-insert a u (w ∷ us) (v, s) = ground (
  arith,
  find_user-insert a u us,
  find_user-Above w.addr us,
  find_user-Above u.addr us,
  Above-lt u.addr w.addr us,
)

erase_user-Above : (a b : ℕ) (us : List Remote) → Above b us → Above b (erase_user a us)
unfolding erase_user
erase_user-Above a b [] v = tt
erase_user-Above a b (w ∷ us) (lt, v) = elim (Bool-cases (a == w.addr)) [
  | inl e ↦ rw e v
  | inr e ↦ rw e (lt, erase_user-Above a b us v)
]

pub erase_user-Sorted : (a : ℕ) (us : List Remote) → Sorted us → Sorted (erase_user a us)
unfolding erase_user
erase_user-Sorted a [] s = tt
erase_user-Sorted a (w ∷ us) (v, s) = elim (Bool-cases (a == w.addr)) [
  | inl e ↦ rw e s
  | inr e ↦ rw e (erase_user-Above a w.addr us v, erase_user-Sorted a us s)
]

pub find_user-erase :
    (a b : ℕ) (us : List Remote)
    → Sorted us
    → find_user b (erase_user a us) ≡ (if b == a then none else find_user b us)
unfolding erase_user
find_user-erase a b [] s = ground arith
find_user-erase a b (w ∷ us) (v, s) =
    ground (arith, find_user-erase a b us, find_user-Above w.addr us)

pub register-Sorted :
    (cmd : Message) (u : Remote) (users : List Remote)
    → Sorted users
    → Sorted (register cmd u users)
unfolding register
register-Sorted cmd u users s =
    ground (arith, erase_user-Sorted u.addr users s, insert_user-Sorted u users s)

-- The entry of an address after a message.
abbrev pub entry_after : Message → Remote → ℕ → List Remote → Option Remote
entry_after cmd u a users =
    if a == u.addr
    then if str_eq cmd (codes "QUIT") then none else some (or_new u (find_user u.addr users))
    else find_user a users

pub find_user-register :
    (cmd : Message) (u : Remote) (a : ℕ) (users : List Remote)
    → Sorted users
    → find_user a (register cmd u users) ≡ entry_after cmd u a users
unfolding register
find_user-register cmd u a users s =
    ground (arith, find_user-erase u.addr a users s, find_user-insert a u users s)

pub recv_data-known :
    (json : Json) (remote : Remote) (b : ℕ) (bytes : List ℕ) (msg cmd : Message) (s : UdpServer)
    (pool : Pool)
    → length (b ∷ bytes) < 1024
    → json.field (codes "cmd") (c_str (b ∷ bytes)) ≡ some cmd
    → put_data (c_str (b ∷ bytes)) s.pool ≡ some pool
    → recv_data json (some (remote, b ∷ bytes)) msg s
      ≡ returned
          (c_str (b ∷ bytes), record s { userlist = register cmd remote s.userlist; pool = pool })
unfolding recv_data received
recv_data-known json remote b bytes msg cmd s pool fits e p = ground arith

-- After a datagram of at most 1023 bytes whose text has a command, if there is room in the ring: the
-- user list stays sorted without repetitions; QUIT has removed the sender and left all others; any
-- other command has entered the sender, unless an entry for its address, with whatever port, was there
-- already, and left all others; and the text has gone into the ring.
pub recv_data-registers :
    (json : Json) (remote : Remote) (b : ℕ) (bytes : List ℕ) (msg cmd : Message) (s : UdpServer)
    (pool : Pool) (a : ℕ)
    → length (b ∷ bytes) < 1024
    → json.field (codes "cmd") (c_str (b ∷ bytes)) ≡ some cmd
    → put_data (c_str (b ∷ bytes)) s.pool ≡ some pool
    → Sorted s.userlist
    → (s' : UdpServer) × (recv_data json (some (remote, b ∷ bytes)) msg s
        ≡ returned (c_str (b ∷ bytes), s'))
      × Sorted s'.userlist
      × (find_user a s'.userlist ≡ (
          if a == remote.addr
          then if str_eq cmd (codes "QUIT")
            then none
            else some (or_new remote (find_user remote.addr s.userlist))
          else find_user a s.userlist))
      × (s'.pool ≡ pool)
recv_data-registers json remote b bytes msg cmd s pool a fits e p sorted = (
  record s { userlist = register cmd remote s.userlist; pool = pool },
  recv_data-known json remote b bytes msg cmd s pool fits e p,
  register-Sorted cmd remote s.userlist sorted,
  find_user-register cmd remote a s.userlist sorted,
  refl,
)

-- A datagram that fills the array is written behind its end.
full_datagram_lost :
    (json : Json) (remote : Remote) (b : ℕ) (bytes : List ℕ) (msg : Message) (s : UdpServer)
    → length (b ∷ bytes) ≡ 1024
    → recv_data json (some (remote, b ∷ bytes)) msg s ≡ lost
unfolding recv_data received
full_datagram_lost json remote b bytes msg s e = ground arith
