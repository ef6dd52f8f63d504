-- ===== src/Chat/Rounds.antt =====
-- The sizes of the arrays of chat/server.c, and the number of users, through every round.
use network_code.Base.{
  ◌==◌, ℕ, zero, suc, ◌+◌, ◌<◌, ◌≤◌, ◌≡◌, ◌∙◌, true, false, not, ◌&&◌, Option, none, some, List, [],
  ◌∷◌, ◌++◌, leb, if◌then◌else◌, length, arith, get_elem?,
}
use network_code.Chat.Mask.{pollin, pollerr, pollrdhup, pollout, want_read, want_write}
use network_code.Chat.Buffer.{deliver}
use network_code.Chat.Server.{
  User, Server, user_limit, Answer, ◌>>=◌, store, Next, is_fd, new_slot, notice, add_user,
  on_accept, drop_user, on_hangup, pass_on, pass_on_all, read_buffer, message, on_read, text_of,
  on_write, handle,
}
use network_code.Chat.Ensures.{
  Ensures, Ensures-bind, Ensures-if, length-store, length-deliver, at_result,
}

pub record Sized (s : Server) : Type 0 where
  pub slots : length s.fds ≡ 6
  pub users : length s.users ≡ 5
  pub buffer : length s.tmpbuf ≡ 1024
  pub limit : s.user_count ≤ 5

abbrev pub AllSized : Next → Type 0
AllSized = Ensures (λ (r : ℕ × Server). Sized r.1)

add_user-Sized :
    (i connfd address : ℕ) (s : Server)
    → Sized s
    → s.user_count < 5
    → AllSized (add_user i connfd address s)
unfolding add_user
add_user-Sized i connfd address s z lt = Ensures-bind _ (get_elem? s.users connfd) _ λ u e.
    Ensures-bind _ (store s.users connfd (record u { address = address })) _ λ users e'.
      Ensures-bind _ (store s.fds (s.user_count + 1) (new_slot connfd)) _ λ fds e''. record {
        slots = length-store s.fds (s.user_count + 1) (new_slot connfd) fds e'' ∙ z.slots;
        users = length-store s.users connfd (record u { address = address }) users e' ∙ z.users;
        buffer = z.buffer;
        limit = omega arith;
      }

pub on_accept-Sized : (a : Answer) (i : ℕ) (s : Server) → Sized s → AllSized (on_accept a i s)
unfolding on_accept
on_accept-Sized a i s z = accepted a.accept
  where
    accepted :
        (o : Option (ℕ × ℕ))
        → AllSized (elim o [
          | none ↦ some (i + 1, s)
          | some (connfd, address) ↦
              if leb user_limit s.user_count
              then some (
                i + 1,
                record s {
                  sent = s.sent ++ ((connfd, notice) ∷ []);
                  closed = s.closed ++ (connfd ∷ []);
                },
              )
              else add_user i connfd address s
        ])
    accepted none = z
    accepted (some (connfd, address)) =
        Ensures-if _ (leb user_limit s.user_count) _ _
          (λ e. record { slots = z.slots; users = z.users; buffer = z.buffer; limit = z.limit })
          (λ e. add_user-Sized i connfd address s z (ground arith))

drop_user-Sized : (i : ℕ) (s : Server) → Sized s → AllSized (drop_user i s)
unfolding drop_user
drop_user-Sized i s z =
    Ensures-if _ (s.user_count == 0) _ _ (λ none_left. tt)
      λ some_left. Ensures-bind _ (get_elem? s.fds i) _ λ slot e1. Ensures-bind _ slot.fd _ λ fd e2.
        Ensures-bind _ (get_elem? s.fds s.user_count) _ λ last e3.
          Ensures-bind _ last.fd _ λ last_fd e4.
            Ensures-bind _ (get_elem? s.users last_fd) _ λ u e5.
              Ensures-bind _ (store s.users fd u) _ λ users e6.
                Ensures-bind _ (store s.fds i last) _ λ fds e7. record {
                  slots = length-store s.fds i last fds e7 ∙ z.slots;
                  users = length-store s.users fd u users e6 ∙ z.users;
                  buffer = z.buffer;
                  limit = omega (arith, z.limit);
                }

pass_on-Sized :
    (connfd : ℕ) (msg : List ℕ) (j : ℕ) (s : Server)
    → Sized s
    → Ensures Sized (pass_on connfd msg j s)
unfolding pass_on
pass_on-Sized connfd msg j s z = Ensures-bind _ (get_elem? s.fds j) _ λ slot e1.
    Ensures-if _ (is_fd slot.fd connfd) _ _ (λ same. z)
      λ other. Ensures-bind _ slot.fd _ λ fd e2.
        Ensures-bind _ (deliver fd msg s.tmpbuf) _ λ tmpbuf e3.
          Ensures-bind _ (get_elem? s.users fd) _ λ u e4.
            Ensures-bind _ (store s.users fd (record u { write_buf = true })) _ λ users e5.
              Ensures-bind _ (store s.fds j (record slot { events = want_write slot.events })) _
                λ fds e6. record {
                  slots =
                      length-store s.fds j (record slot { events = want_write slot.events }) fds e6
                      ∙ z.slots;
                  users =
                      length-store s.users fd (record u { write_buf = true }) users e5 ∙ z.users;
                  buffer =
                      at_result (λ (out : List ℕ). length out ≡ length s.tmpbuf)
                        (deliver fd msg s.tmpbuf) tmpbuf (length-deliver fd msg s.tmpbuf) e3
                      ∙ z.buffer;
                  limit = z.limit;
                }

pass_on_all-Sized :
    (n j connfd : ℕ) (msg : List ℕ) (s : Server)
    → Sized s
    → Ensures Sized (pass_on_all n j connfd msg s)
unfolding pass_on_all
pass_on_all-Sized zero j connfd msg s z = z
pass_on_all-Sized (suc n) j connfd msg s z =
    Ensures-bind Sized (pass_on connfd msg j s) (λ s'. pass_on_all n (j + 1) connfd msg s')
      λ s' e.
        pass_on_all-Sized n (j + 1) connfd msg s'
          (at_result Sized (pass_on connfd msg j s) s' (pass_on-Sized connfd msg j s z) e)

on_read-Sized : (a : Answer) (i connfd : ℕ) (s : Server) → Sized s → AllSized (on_read a i connfd s)
unfolding on_read
on_read-Sized a i connfd s z = Ensures-bind _ (get_elem? s.users connfd) _ λ u e1. outcome u a.read
  where
    outcome :
        (u : User) (o : Option (List ℕ))
        → AllSized (elim o [
          | none ↦ drop_user i s
          | some bytes ↦ read_buffer bytes >>= λ buf.
              store s.users connfd (record u { buf = buf }) >>= λ users.
              pass_on_all s.user_count 1 connfd (message bytes) (record s { users = users })
              >>= λ s'. some (i + 1, s')
        ])
    outcome u none = drop_user-Sized i s z
    outcome u (some bytes) = Ensures-bind _ (read_buffer bytes) _ λ buf e2.
        Ensures-bind _ (store s.users connfd (record u { buf = buf })) _ λ users e3.
          let z' : Sized (record s { users = users }) = record {
            slots = z.slots;
            users = length-store s.users connfd (record u { buf = buf }) users e3 ∙ z.users;
            buffer = z.buffer;
            limit = z.limit;
          } in
          Ensures-bind _
            (pass_on_all s.user_count 1 connfd (message bytes) (record s { users = users })) _
            λ s' e4.
              at_result Sized _ s'
                (pass_on_all-Sized s.user_count 1 connfd (message bytes)
                  (record s { users = users }) z')
                e4

on_write-Sized : (i connfd : ℕ) (s : Server) → Sized s → AllSized (on_write i connfd s)
unfolding on_write
on_write-Sized i connfd s z = Ensures-bind _ (get_elem? s.users connfd) _ λ u e1.
    Ensures-if _ (not u.write_buf) _ _ (λ e. z)
      λ e. Ensures-bind _ (text_of s.tmpbuf) _ λ text e2.
        Ensures-bind _ (store s.users connfd (record u { write_buf = false })) _ λ users e3.
          Ensures-bind _ (get_elem? s.fds i) _ λ slot e4.
            Ensures-bind _ (store s.fds i (record slot { events = want_read slot.events })) _
              λ fds e5. record {
                slots =
                    length-store s.fds i (record slot { events = want_read slot.events }) fds e5
                    ∙ z.slots;
                users =
                    length-store s.users connfd (record u { write_buf = false }) users e3 ∙ z.users;
                buffer = z.buffer;
                limit = z.limit;
              }

-- Every round, whatever the event, the answers and the descriptors, keeps the sizes of the arrays and
-- at most five users, unless it leaves an array or drops a user where none is left.
pub handle-Sized : (a : Answer) (i : ℕ) (s : Server) → Sized s → AllSized (handle a i s)
unfolding handle on_hangup
handle-Sized a i s z = Ensures-bind _ (get_elem? s.fds i) _ λ slot e1.
    Ensures-if _ (is_fd slot.fd s.listen_sock && slot.revents pollin) _ _
      (λ e. on_accept-Sized a i s z)
      λ e.
        Ensures-if _ (slot.revents pollerr) _ _ (λ e. z)
          λ e.
            Ensures-if _ (slot.revents pollrdhup) _ _
              (λ e. Ensures-bind _ slot.fd _ λ fd e2.
                drop_user-Sized i (record s { closed = s.closed ++ (fd ∷ []) })
                  (record { slots = z.slots; users = z.users; buffer = z.buffer; limit = z.limit }))
              λ e.
                Ensures-if _ (slot.revents pollin) _ _
                  (λ e. Ensures-bind _ slot.fd _ λ fd e2. on_read-Sized a i fd s z)
                  λ e.
                    Ensures-if _ (slot.revents pollout) _ _
                      (λ e. Ensures-bind _ slot.fd _ λ fd e2. on_write-Sized i fd s z) λ e. z
