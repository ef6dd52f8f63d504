-- ===== src/LinuxChat/System/Casting.antt =====
-- `broadCast` of LinuxChat/server/udpServer.cpp as a run of the consumer while the producer does nothing.
use network_code.Base.{
  ◌≡◌, refl, Bool, true, false, Option, none, some, List, [], ◌∷◌, if◌then◌else◌,
}
use mathlib.Core.Path.{subst}
use network_code.LinuxChat.Ring.{Message, Pool, get_data, get_wait, get_take, get_post}
use network_code.LinuxChat.Outcome.{
  Outcome, returned, waits, lost, or_waits, bind-returned, or_waits-returned, returned-inj,
}
use network_code.LinuxChat.Redis.{Redis}
use network_code.LinuxChat.Server.{
  Json, Remote, UdpServer, send_data, Cast, ended, stuck, goes_round, cast_next, cast_loop,
  cast_from, broad_cast,
}
use network_code.LinuxChat.System.{
  Product, outside, holds, sends, System, begin, looks, begins_get, takes, ends_get, sends_to, here,
  next,
}
use network_code.LinuxChat.System.Sequential.{at_work, Goes, goes_on}

-- `GetData` after its wait.
abbrev taken : Option Pool → Option (Message × Pool)
taken none = none
taken (some q) = some ((get_take q).0, get_post (get_take q).1)

module _ {redis : Redis} (json : Json) where
  get_alone :
      (u : Remote) (s : UdpServer) (db : redis.Db) (msg : Message) (k : Product) {m : Message}
      {p : Pool}
      → get_data s.pool ≡ some (m, p)
      → Goes {redis = redis} json
          (at_work s db msg k (holds u true))
          (at_work (record s { pool = p }) db msg k (sends u true m))
  unfolding get_data
  get_alone u s db msg k {m} {p} = go (get_wait s.pool) refl
    where
      go :
          (o : Option Pool)
          → get_wait s.pool ≡ o
          → taken o ≡ some (m, p)
          → Goes {redis = redis} json
              (at_work s db msg k (holds u true))
              (at_work (record s { pool = p }) db msg k (sends u true m))
      go none w e = absurd (cc)
      go (some q) w e =
          let same : ◌≡◌ {A = Message × Pool} ((get_take q).0, get_post (get_take q).1) (m, p) =
            cc in
          subst
            (λ (x : Message × Pool).
              Goes {redis = redis} json (at_work s db msg k (holds u true))
                (at_work (record s { pool = x.1 }) db msg k (sends u true x.0)))
            same
            (
              _,
              next (begins_get u true refl refl w)
                  (next (takes u true refl refl) (next (ends_get u true _ refl refl) (here _))),
            )

  send_alone :
      (u : Remote) (ok : Bool) (s t : UdpServer) (db : redis.Db) (msg : Message) (k : Product)
      → send_data u s ≡ returned t
      → Goes {redis = redis} json
          (at_work s db msg k (holds u true))
          (at_work t db msg k (if ok then holds u true else outside))
  unfolding send_data
  send_alone u ok s t db msg k e =
      let ((m, p), g, e1) = bind-returned (or_waits (get_data s.pool)) _ e in
      subst
        (λ (v : UdpServer).
          Goes {redis = redis} json (at_work s db msg k (holds u true))
            (at_work v db msg k (if ok then holds u true else outside)))
        (returned-inj e1)
        (goes_on json (get_alone u s db msg k (or_waits-returned _ g))
          (_, next (sends_to u m ok refl) (here _)))

  -- Where a `broadCast` with these users stands at the end.
  abbrev pub cast_at : List Remote → redis.Db → Message → Product → Cast → System redis
  cast_at us db msg k (ended b t) = at_work t db msg k outside
  cast_at us db msg k (stuck t) = at_work t db msg k (begin us)
  cast_at us db msg k (goes_round t) = at_work t db msg k (begin us)

  cast_next_runs :
      (u : Remote) (us : List Remote) (ok : Bool) (next_cast : UdpServer → Cast) (s : UdpServer)
      (db : redis.Db) (msg : Message) (k : Product)
      → ((t : UdpServer)
          → Goes {redis = redis} json
              (at_work t db msg k (holds u true))
              (cast_at (u ∷ us) db msg k (next_cast t)))
      → Goes {redis = redis} json
          (at_work s db msg k (holds u true))
          (cast_at (u ∷ us) db msg k (cast_next s ok next_cast (send_data u s)))
  cast_next_runs u us ok next_cast s db msg k rest = go ok (send_data u s) refl
    where
      go :
          (b : Bool) (o : Outcome UdpServer)
          → send_data u s ≡ o
          → Goes {redis = redis} json
              (at_work s db msg k (holds u true))
              (cast_at (u ∷ us) db msg k (cast_next s b next_cast o))
      go b waits e = ([], here _)
      go b lost e = ([], here _)
      go true (returned t) e = goes_on json (send_alone u true s t db msg k e) (rest t)
      go false (returned t) e = send_alone u false s t db msg k e

  cast_loop_runs :
      (u : Remote) (us : List Remote) (oks : List Bool) (s : UdpServer) (db : redis.Db)
      (msg : Message) (k : Product)
      → Goes {redis = redis} json
          (at_work s db msg k (holds u true))
          (cast_at (u ∷ us) db msg k (cast_loop u oks s))
  unfolding cast_loop
  cast_loop_runs u us [] s db msg k = ([], here _)
  cast_loop_runs u us (ok ∷ oks) s db msg k =
      cast_next_runs u us ok (cast_loop u oks) s db msg k λ t. cast_loop_runs u us oks t db msg k

  -- However `sendto` answers, the steps of the consumer alone lead from a state outside `broadCast` to
  -- the state at which the model of `broadCast` ends: after its return, or at the first user, where it
  -- waits for a message or goes round, with the same server in every case.
  pub broad_cast_runs :
      (oks : List Bool) (s : UdpServer) (db : redis.Db) (msg : Message) (k : Product)
      → Goes {redis = redis} json
          (at_work s db msg k outside)
          (cast_at s.userlist db msg k (broad_cast oks s))
  unfolding broad_cast
  broad_cast_runs oks s db msg k = goes_on json (_, next (looks refl) (here _)) (go s.userlist)
    where
      go :
          (us : List Remote)
          → Goes {redis = redis} json
              (at_work s db msg k (begin us))
              (cast_at us db msg k (cast_from oks s us))
      go [] = ([], here _)
      go (u ∷ us) = cast_loop_runs u us oks s db msg k
