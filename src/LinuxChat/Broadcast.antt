-- ===== src/LinuxChat/Broadcast.antt =====
-- `broadCast` of LinuxChat/server/udpServer.cpp.
use network_code.Base.{
  ◌≡◌, refl, sym, ◌∙◌, Bool, true, false, Option, none, some, List, [], ◌∷◌, ◌++◌, append_assoc,
  append-nil,
}
use mathlib.Core.Path.{subst}
use network_code.LinuxChat.Ring.{Message, Pool, get_data}
use network_code.LinuxChat.Outcome.{returned, ◌>>=◌, or_waits}
use network_code.LinuxChat.Server.{
  Remote, UdpServer, send_data, Cast, ended, stuck, goes_round, cast_next, cast_loop, cast_from,
  broad_cast,
}

-- Every datagram went to this user.
abbrev pub AllTo : Remote → List (Remote × Message) → Type 0
AllTo u [] = Unit {0}
AllTo u ((v, m) ∷ l) = (v ≡ u) × AllTo u l

-- What the server has sent more than before goes to this user, and a regular end is not reached.
abbrev pub OnlyTo : Remote → List (Remote × Message) → Cast → Type 0
OnlyTo u before (ended ok t) =
    (ok ≡ false) × ((more : List (Remote × Message)) × (t.sent ≡ before ++ more) × AllTo u more)
OnlyTo u before (stuck t) =
    (more : List (Remote × Message)) × (t.sent ≡ before ++ more) × AllTo u more
OnlyTo u before (goes_round t) =
    (more : List (Remote × Message)) × (t.sent ≡ before ++ more) × AllTo u more

OnlyTo-later :
    (u : Remote) (m : Message) (before : List (Remote × Message)) (c : Cast)
    → OnlyTo u (before ++ ((u, m) ∷ [])) c
    → OnlyTo u before c
OnlyTo-later u m before (ended ok t) (f, (more, e, all)) =
    (f, ((u, m) ∷ more, e ∙ append_assoc before ((u, m) ∷ []) more, (refl, all)))
OnlyTo-later u m before (stuck t) (more, e, all) =
    ((u, m) ∷ more, e ∙ append_assoc before ((u, m) ∷ []) more, (refl, all))
OnlyTo-later u m before (goes_round t) (more, e, all) =
    ((u, m) ∷ more, e ∙ append_assoc before ((u, m) ∷ []) more, (refl, all))

none_more : (before : List (Remote × Message)) → before ≡ before ++ []
none_more before = sym (append-nil before)

cast_loop-OnlyTo :
    (u : Remote) (oks : List Bool) (s : UdpServer) → OnlyTo u s.sent (cast_loop u oks s)
unfolding cast_loop send_data
cast_loop-OnlyTo u [] s = ([], none_more s.sent, tt)
cast_loop-OnlyTo u (ok ∷ oks) s = at_message ok (get_data s.pool) λ t. cast_loop-OnlyTo u oks t
  where
    at_message :
        (ok : Bool) (o : Option (Message × Pool))
        → ((t : UdpServer) → OnlyTo u t.sent (cast_loop u oks t))
        → OnlyTo u s.sent (
            cast_next s ok (cast_loop u oks) (
              or_waits o >>= λ (msg, pool).
              returned (record s { pool = pool; sent = s.sent ++ ((u, msg) ∷ []) })))
    at_message ok none ih = ([], none_more s.sent, tt)
    at_message true (some (m, pool)) ih =
        OnlyTo-later u m s.sent _ (ih (record s { pool = pool; sent = s.sent ++ ((u, m) ∷ []) }))
    at_message false (some (m, pool)) ih = (refl, ((u, m) ∷ [], refl, (refl, tt)))

-- While there is a user, every message goes to the first one and to no other, whatever `sendto` gives,
-- and the function does not come to its `return true`: it goes on until there is no message, or until
-- a `sendto` fails.
first_user_only :
    (oks : List Bool) (s : UdpServer) (u : Remote) (us : List Remote)
    → s.userlist ≡ u ∷ us
    → OnlyTo u s.sent (broad_cast oks s)
unfolding broad_cast
first_user_only oks s u us e =
    subst (λ (l : List Remote). OnlyTo u s.sent (cast_from oks s l)) (sym e)
      (cast_loop-OnlyTo u oks s)
