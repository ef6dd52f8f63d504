-- ===== src/Chat/Server.antt =====
-- The state of chat/server.c, and one round of the inner loop of `main` for each kind of event.
-- `none` is an access outside an array or before its start.
use network_code.Base.{
  ℕ, zero, suc, ◌+◌, ◌-◌, Bool, true, false, not, ◌&&◌, Option, none, some, List, [], ◌∷◌, ◌++◌,
  ltb, leb, ◌==◌, if◌then◌else◌, codes, length, get_elem?, set, take, replicate, c_str,
}
use network_code.Chat.Mask.{
  Mask, pollin, pollout, pollerr, pollrdhup, bit, no_events, mask_or, want_write, want_read,
}
use network_code.Chat.Buffer.{deliver}

-- `struct pollfd`; a descriptor of -1 is `none`.
pub record Slot : Type 0 where
  pub fd : Option ℕ
  pub events : Mask
  pub revents : Mask

-- `client_data`. `write_buf` is the null pointer or points to `tmpbuf`.
pub record User : Type 0 where
  pub address : ℕ
  pub write_buf : Bool
  pub buf : List ℕ

-- FD 0 to 4 of `users`; `fds` with USER_LIMIT + 1 slots. `sent` holds what was written to which
-- descriptor, `closed` the descriptors closed.
pub record Server : Type 0 where
  pub listen_sock : ℕ
  pub fds : List Slot
  pub users : List User
  pub user_count : ℕ
  pub tmpbuf : List ℕ
  pub sent : List (ℕ × List ℕ)
  pub closed : List ℕ

abbrev pub user_limit : ℕ
user_limit = 5

abbrev pub buf_size : ℕ
buf_size = 1024

-- What the system calls of one round give: `accept` (a descriptor and an address), and `read`
-- (`none` for an error, no bytes at the end of the stream).
pub record Answer : Type 0 where
  pub accept : Option (ℕ × ℕ)
  pub read : Option (List ℕ)

infixl 5 ◌>>=◌
abbrev pub ◌>>=◌ {ℓ κ} : {A : Type ℓ} {B : Type κ} → Option A → (A → Option B) → Option B
none >>= f = none
some a >>= f = f a

module _ {ℓ} {A : Type ℓ} where
  -- An assignment to an element.
  unfoldable pub store : List A → ℕ → A → Option (List A)
  store xs i v = if ltb i (length xs) then some (set xs i v) else none

-- The index of the next round, and the state.
abbrev pub Next : Type 0
Next = Option (ℕ × Server)

abbrev pub is_fd : Option ℕ → ℕ → Bool
is_fd none n = false
is_fd (some m) n = m == n

abbrev pub new_slot : ℕ → Slot
new_slot connfd = record {
  fd = some connfd;
  events = mask_or (mask_or (bit pollin) (bit pollrdhup)) (bit pollerr);
  revents = no_events;
}

-- A new user, below the limit.
unfoldable pub add_user : ℕ → ℕ → ℕ → Server → Next
unfolding store
add_user i connfd address s = get_elem? s.users connfd >>= λ u.
    store s.users connfd (record u { address = address }) >>= λ users.
    store s.fds (s.user_count + 1) (new_slot connfd) >>= λ fds.
    some (i + 1, record s { fds = fds; users = users; user_count = s.user_count + 1 })

-- `sizeof(info) - 1` bytes of the notice, for the size of a pointer.
abbrev pub notice : List ℕ
notice = take 7 (codes "clients is limit..\n")

unfoldable pub on_accept : Answer → ℕ → Server → Next
on_accept a i s = elim a.accept [
  | none ↦ some (i + 1, s)
  | some (connfd, address) ↦
      if leb user_limit s.user_count
      then some (
        i + 1,
        record s { sent = s.sent ++ ((connfd, notice) ∷ []); closed = s.closed ++ (connfd ∷ []) },
      )
      else add_user i connfd address s
]

-- `users[fds[i].fd] = users[fds[user_count].fd]; fds[i] = fds[user_count]; i--; user_count--`.
-- Without users the count would become -1; that is outside the model too.
unfoldable pub drop_user : ℕ → Server → Next
unfolding store
drop_user i s =
    if s.user_count == 0
    then none
    else (get_elem? s.fds i >>= λ slot. slot.fd >>= λ fd. get_elem? s.fds s.user_count >>= λ last.
        last.fd >>= λ last_fd. get_elem? s.users last_fd >>= λ u. store s.users fd u >>= λ users.
        store s.fds i last >>= λ fds.
        some (i, record s { fds = fds; users = users; user_count = s.user_count - 1 }))

-- The peer has hung up: its descriptor is closed too.
unfoldable pub on_hangup : ℕ → ℕ → Server → Next
on_hangup i fd s = drop_user i (record s { closed = s.closed ++ (fd ∷ []) })

-- One round of the loop over `j`: nothing for the sender, the message for another user.
unfoldable pub pass_on : ℕ → List ℕ → ℕ → Server → Option Server
unfolding store
pass_on connfd msg j s = get_elem? s.fds j >>= λ slot.
    if is_fd slot.fd connfd
    then some s
    else (slot.fd >>= λ fd. deliver fd msg s.tmpbuf >>= λ tmpbuf. get_elem? s.users fd >>= λ u.
        store s.users fd (record u { write_buf = true }) >>= λ users.
        store s.fds j (record slot { events = want_write slot.events }) >>= λ fds.
        some (record s { fds = fds; users = users; tmpbuf = tmpbuf }))

-- The rounds left, and `j`.
unfoldable pub pass_on_all : ℕ → ℕ → ℕ → List ℕ → Server → Option Server
unfolding pass_on
pass_on_all zero j connfd msg s = some s
pass_on_all (suc n) j connfd msg s =
    pass_on connfd msg j s >>= λ s'. pass_on_all n (j + 1) connfd msg s'

-- The array after `memset`, `read`, and the NUL over the last byte; `buf[_s - 1]` of no bytes lies
-- before the array.
unfoldable pub read_buffer : List ℕ → Option (List ℕ)
read_buffer [] = none
read_buffer (b ∷ bs) =
    some (set ((b ∷ bs) ++ replicate (buf_size - length (b ∷ bs)) 0) (length bs) 0)

-- The message is all that was read but its last byte (`t < _s - 1`).
abbrev pub message : List ℕ → List ℕ
message bytes = take (length bytes - 1) bytes

unfoldable pub on_read : Answer → ℕ → ℕ → Server → Next
unfolding store
on_read a i connfd s = get_elem? s.users connfd >>= λ u. elim a.read [
  | none ↦ drop_user i s
  | some bytes ↦ read_buffer bytes >>= λ buf.
      store s.users connfd (record u { buf = buf }) >>= λ users.
      pass_on_all s.user_count 1 connfd (message bytes) (record s { users = users }) >>= λ s'.
      some (i + 1, s')
]

-- `write(connfd, write_buf, strlen(write_buf))`: a buffer without a NUL is read past its end.
unfoldable pub text_of : List ℕ → Option (List ℕ)
text_of buf = if ltb (length (c_str buf)) (length buf) then some (c_str buf) else none

unfoldable pub on_write : ℕ → ℕ → Server → Next
unfolding store text_of
on_write i connfd s = get_elem? s.users connfd >>= λ u.
    if not u.write_buf
    then some (i + 1, s)
    else (text_of s.tmpbuf >>= λ text.
        store s.users connfd (record u { write_buf = false }) >>= λ users.
        get_elem? s.fds i >>= λ slot.
        store s.fds i (record slot { events = want_read slot.events }) >>= λ fds.
        some (i + 1, record s { fds = fds; users = users; sent = s.sent ++ ((connfd, text) ∷ []) }))

-- The branches in the order of the code, for slot `i`.
unfoldable pub handle : Answer → ℕ → Server → Next
handle a i s = get_elem? s.fds i >>= λ slot.
    if is_fd slot.fd s.listen_sock && slot.revents pollin
    then on_accept a i s
    else if slot.revents pollerr
    then some (i + 1, s)
    else if slot.revents pollrdhup
    then (slot.fd >>= λ fd. on_hangup i fd s)
    else if slot.revents pollin
    then (slot.fd >>= λ fd. on_read a i fd s)
    else if slot.revents pollout
    then (slot.fd >>= λ fd. on_write i fd s)
    else some (i + 1, s)
