-- ===== src/Chat/Ends.antt =====
-- The loops over the slots in chat/server.c end.
use network_code.Base.{
  ap, ℕ, zero, suc, ◌+◌, ◌-◌, ◌*◌, ◌<◌, ◌≡◌, refl, ◌∙◌, true, false, not, ◌&&◌, Option, none, some,
  List, [], ◌∷◌, ◌++◌, ltb, leb, ◌==◌, if◌then◌else◌, length, arith, Bool-cases, inl, inr,
  get_elem?,
}
use network_code.Chat.Mask.{Mask, pollin, pollerr, pollrdhup, pollout, want_read, want_write}
use network_code.Chat.Buffer.{deliver}
use network_code.Chat.Server.{
  Slot, User, Server, user_limit, Answer, ◌>>=◌, store, Next, is_fd, new_slot, notice, add_user,
  on_accept, drop_user, on_hangup, pass_on, pass_on_all, read_buffer, message, on_read, text_of,
  on_write, handle,
}
use network_code.Chat.Ensures.{Ensures, Ensures-bind, Ensures-if, at_result}
use network_code.Chat.Rounds.{Sized, AllSized, handle-Sized}
use network_code.Chat.Poll.{
  Scan, done, outside, unfinished, carry_on, scan, Polled, report, then_poll, poll_loop,
}

-- What a round brings down: a slot that is passed counts twice, and a user once.
abbrev measure : ℕ → Server → ℕ
measure i s = 2 * (6 - i) + s.user_count

abbrev Closer : ℕ → Server → Next → Type 0
Closer i s = Ensures (λ (r : ℕ × Server). measure r.0 r.1 < measure i s)

add_user-Closer :
    (i connfd address : ℕ) (s : Server) → i < 6 → Closer i s (add_user i connfd address s)
unfolding add_user
add_user-Closer i connfd address s h = Ensures-bind _ (get_elem? s.users connfd) _ λ u e.
    Ensures-bind _ (store s.users connfd (record u { address = address })) _ λ users e'.
      Ensures-bind _ (store s.fds (s.user_count + 1) (new_slot connfd)) _ λ fds e''. omega arith

on_accept-Closer : (a : Answer) (i : ℕ) (s : Server) → i < 6 → Closer i s (on_accept a i s)
unfolding on_accept
on_accept-Closer a i s h = accepted a.accept
  where
    accepted :
        (o : Option (ℕ × ℕ))
        → Closer i s (elim o [
          | none ↦ some (i + 1, s)
          | some (connfd, address) ↦
              if leb user_limit s.user_count
              then some (
                i + 1,
                record s {
                  sent = s.sent ++ ((connfd, notice) ∷ []);
                  closed = s.closed ++ (connfd ∷ []);
                },
              )
              else add_user i connfd address s
        ])
    accepted none = omega arith
    accepted (some (connfd, address)) =
        Ensures-if _ (leb user_limit s.user_count) _ _ (λ e. omega arith)
          (λ e. add_user-Closer i connfd address s h)

drop_user-Closer : (i : ℕ) (s : Server) → Closer i s (drop_user i s)
unfolding drop_user
drop_user-Closer i s =
    Ensures-if _ (s.user_count == 0) _ _ (λ none_left. tt)
      λ some_left. Ensures-bind _ (get_elem? s.fds i) _ λ slot e1. Ensures-bind _ slot.fd _ λ fd e2.
        Ensures-bind _ (get_elem? s.fds s.user_count) _ λ last e3.
          Ensures-bind _ last.fd _ λ last_fd e4.
            Ensures-bind _ (get_elem? s.users last_fd) _ λ u e5.
              Ensures-bind _ (store s.users fd u) _
                λ users e6. Ensures-bind _ (store s.fds i last) _ λ fds e7. ground arith

pass_on-count :
    (connfd : ℕ) (msg : List ℕ) (j : ℕ) (s : Server)
    → Ensures (λ (t : Server). t.user_count ≡ s.user_count) (pass_on connfd msg j s)
unfolding pass_on
pass_on-count connfd msg j s = Ensures-bind _ (get_elem? s.fds j) _ λ slot e1.
    Ensures-if _ (is_fd slot.fd connfd) _ _ (λ same. refl)
      λ other. Ensures-bind _ slot.fd _ λ fd e2.
        Ensures-bind _ (deliver fd msg s.tmpbuf) _ λ tmpbuf e3.
          Ensures-bind _ (get_elem? s.users fd) _ λ u e4.
            Ensures-bind _ (store s.users fd (record u { write_buf = true })) _ λ users e5.
              Ensures-bind _ (store s.fds j (record slot { events = want_write slot.events })) _
                λ fds e6. refl

pass_on_all-count :
    (c n j connfd : ℕ) (msg : List ℕ) (s : Server)
    → s.user_count ≡ c
    → Ensures (λ (t : Server). t.user_count ≡ c) (pass_on_all n j connfd msg s)
unfolding pass_on_all
pass_on_all-count c zero j connfd msg s h = h
pass_on_all-count c (suc n) j connfd msg s h =
    Ensures-bind (λ (t : Server). t.user_count ≡ c) (pass_on connfd msg j s)
      (λ s'. pass_on_all n (j + 1) connfd msg s')
      λ s' e. pass_on_all-count c n (j + 1) connfd msg s' (
        at_result (λ (t : Server). t.user_count ≡ s.user_count) (pass_on connfd msg j s) s'
          (pass_on-count connfd msg j s) e
        ∙ h)

on_read-Closer :
    (a : Answer) (i connfd : ℕ) (s : Server) → i < 6 → Closer i s (on_read a i connfd s)
unfolding on_read
on_read-Closer a i connfd s h = Ensures-bind _ (get_elem? s.users connfd) _ λ u e1. outcome u a.read
  where
    outcome :
        (u : User) (o : Option (List ℕ))
        → Closer i s (elim o [
          | none ↦ drop_user i s
          | some bytes ↦ read_buffer bytes >>= λ buf.
              store s.users connfd (record u { buf = buf }) >>= λ users.
              pass_on_all s.user_count 1 connfd (message bytes) (record s { users = users })
              >>= λ s'. some (i + 1, s')
        ])
    outcome u none = drop_user-Closer i s
    outcome u (some bytes) = Ensures-bind _ (read_buffer bytes) _ λ buf e2.
        Ensures-bind _ (store s.users connfd (record u { buf = buf })) _ λ users e3.
          Ensures-bind _
            (pass_on_all s.user_count 1 connfd (message bytes) (record s { users = users })) _
            λ s' e4.
              let same : s'.user_count ≡ s.user_count =
                at_result (λ (t : Server). t.user_count ≡ s.user_count) _ s'
                  (pass_on_all-count s.user_count s.user_count 1 connfd (message bytes)
                    (record s { users = users }) refl)
                  e4 in
              omega arith

on_write-Closer : (i connfd : ℕ) (s : Server) → i < 6 → Closer i s (on_write i connfd s)
unfolding on_write
on_write-Closer i connfd s h = Ensures-bind _ (get_elem? s.users connfd) _ λ u e1.
    Ensures-if _ (not u.write_buf) _ _ (λ e. omega arith)
      λ e. Ensures-bind _ (text_of s.tmpbuf) _ λ text e2.
        Ensures-bind _ (store s.users connfd (record u { write_buf = false })) _ λ users e3.
          Ensures-bind _ (get_elem? s.fds i) _ λ slot e4.
            Ensures-bind _ (store s.fds i (record slot { events = want_read slot.events })) _
              λ fds e5. omega arith

handle-Closer : (a : Answer) (i : ℕ) (s : Server) → i < 6 → Closer i s (handle a i s)
unfolding handle on_hangup
handle-Closer a i s h = Ensures-bind _ (get_elem? s.fds i) _ λ slot e1.
    Ensures-if _ (is_fd slot.fd s.listen_sock && slot.revents pollin) _ _
      (λ e. on_accept-Closer a i s h)
      λ e.
        Ensures-if _ (slot.revents pollerr) _ _ (λ e. omega arith)
          λ e.
            Ensures-if _ (slot.revents pollrdhup) _ _
              (λ e.
                Ensures-bind _ slot.fd _
                  λ fd e2. drop_user-Closer i (record s { closed = s.closed ++ (fd ∷ []) }))
              λ e.
                Ensures-if _ (slot.revents pollin) _ _
                  (λ e. Ensures-bind _ slot.fd _ λ fd e2. on_read-Closer a i fd s h)
                  λ e.
                    Ensures-if _ (slot.revents pollout) _ _
                      (λ e. Ensures-bind _ slot.fd _ λ fd e2. on_write-Closer i fd s h)
                      λ e. omega arith

-- The loop has ended, in a state with arrays of the right sizes, or at a round outside the model.
abbrev pub Ends : Scan → Type 0
Ends (done s) = Sized s
Ends outside = Unit {0}
Ends unfinished = ⊥

after_round :
    (k : ℕ → Server → Scan) (r : Next) (n : ℕ)
    → Ensures (λ (q : ℕ × Server). measure q.0 q.1 < n) r
    → AllSized r
    → ((j : ℕ) (t : Server) → Sized t → measure j t < n → Ends (k j t))
    → Ends (carry_on r k)
after_round k none n c z ih = tt
after_round k (some (j, t)) n c z ih = ih j t z c

scan-Ends :
    (fuel : ℕ) (answers : ℕ → Answer) (i : ℕ) (s : Server)
    → Sized s
    → measure i s < fuel
    → Ends (scan fuel answers i s)
unfolding scan
scan-Ends zero answers i s z h = absurd (omega arith)
scan-Ends (suc n) answers i s z h = elim (Bool-cases (ltb i (s.user_count + 1))) [
  | inl b ↦
      let small : i < 6 = ground (arith, z.limit) in
      rw b (
        after_round (scan n answers) (handle (answers n) i s) (measure i s)
          (handle-Closer (answers n) i s small) (handle-Sized (answers n) i s z)
          λ j t zt lt. scan-Ends n answers j t zt (omega arith))
  | inr b ↦ rw b z
]

length-report : (n i : ℕ) (f : ℕ → Mask) (fds : List Slot) → length (report n i f fds) ≡ length fds
length-report n i f [] = refl
length-report zero i f (slot ∷ fds) = refl
length-report (suc n) i f (slot ∷ fds) = ap suc (length-report n (i + 1) f fds)

Ends-then_poll :
    (x : Scan) (k : Server → Scan)
    → ((t : Server) → Sized t → Ends (k t))
    → Ends x
    → Ends (then_poll x k)
Ends-then_poll (done t) k ih e = ih t e
Ends-then_poll outside k ih e = tt
Ends-then_poll unfinished k ih e = e

-- Whatever `poll` reports and the calls give, the loop over the slots ends after each return of
-- `poll`, within 18 rounds, also though users join and leave while it runs and a slot is looked at
-- again when another user was moved into it; and it leaves the arrays with their sizes, unless a
-- round is outside the model: it leaves an array, or drops a user where none is left.
pub poll_loop-Ends : (ps : List (Option Polled)) (s : Server) → Sized s → Ends (poll_loop ps s)
unfolding poll_loop
poll_loop-Ends [] s z = z
poll_loop-Ends (none ∷ ps) s z = z
poll_loop-Ends (some p ∷ ps) s z =
    let fds : List Slot = report (s.user_count + 1) 0 p.revents s.fds in
    let z' : Sized (record s { fds = fds }) = record {
      slots = length-report (s.user_count + 1) 0 p.revents s.fds ∙ z.slots;
      users = z.users;
      buffer = z.buffer;
      limit = z.limit;
    } in
    Ends-then_poll (scan 18 p.answers 0 (record s { fds = fds })) (poll_loop ps) (poll_loop-Ends ps)
      (scan-Ends 18 p.answers 0 (record s { fds = fds }) z' (omega (arith, z.limit)))
