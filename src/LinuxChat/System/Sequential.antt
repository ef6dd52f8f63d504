-- ===== src/LinuxChat/System/Sequential.antt =====
-- The functions of LinuxChat/server/ that model whole calls, as runs of the thread that makes the call
-- while the other does nothing.
use network_code.Base.{
  ℕ, ◌≡◌, refl, Bool, Option, none, some, List, [], ◌∷◌, ◌++◌, if◌then◌else◌, codes, str_eq,
  Bool-cases, inl, inr,
}
use mathlib.Core.Path.{subst}
use network_code.Fifo.{Event}
use network_code.LinuxChat.Ring.{Message, Pool, put_data, put_wait, put_store, put_post}
use network_code.LinuxChat.Ring.Threads.{Producer, Consumer}
use network_code.LinuxChat.Outcome.{
  returned, or_waits, or_lost, bind-returned, or_waits-returned, or_lost-returned, returned-inj,
}
use network_code.LinuxChat.Redis.{Redis, get_value}
use network_code.LinuxChat.Server.{
  Json, Remote, UdpServer, received, recv_data, register, save, load, product_round,
}
use network_code.LinuxChat.System.{
  Product, receives, wants, decides, loading, Consum, outside, System, misses, arrives, begins_put,
  stores, ends_put, loads, saves, load_next, load_done, Run, here, next,
}
use network_code.LinuxChat.System.Calls.{run_append}

-- No thread is in a call of the ring.
abbrev pub at_work :
    {redis : Redis} → UdpServer → redis.Db → Message → Product → Consum → System redis
at_work s db msg p c = record {
  server = s;
  db = db;
  msg = msg;
  product = p;
  consum = c;
  producer = Producer.rests;
  consumer = Consumer.rests;
}

module _ {redis : Redis} (json : Json) where
  abbrev pub Goes : System redis → System redis → Type 0
  Goes s t = (es : List (Event Message)) × Run json s es t

  pub goes_on : {s t r : System redis} → Goes s t → Goes t r → Goes s r
  goes_on (es, p) (fs, q) = (es ++ fs, run_append json p q)

  put_alone :
      (m : Message) (k : Product) (s : UdpServer) (db : redis.Db) (msg : Message) (c : Consum)
      {p : Pool}
      → put_data m s.pool ≡ some p
      → Goes (at_work s db msg (wants m k) c) (at_work (record s { pool = p }) db msg k c)
  unfolding put_data
  put_alone m k s db msg c {p} = go (put_wait s.pool) refl
    where
      go :
          (o : Option Pool)
          → put_wait s.pool ≡ o
          → elim o [ none ↦ none | some q ↦ some (put_post (put_store m q)) ] ≡ some p
          → Goes (at_work s db msg (wants m k) c) (at_work (record s { pool = p }) db msg k c)
      go none w e = absurd (cc)
      go (some q) w e =
          let same : put_post (put_store m q) ≡ p = cc in
          subst
            (λ (r : Pool).
              Goes (at_work s db msg (wants m k) c) (at_work (record s { pool = r }) db msg k c))
            same
            (
              _,
              next (begins_put m k refl refl w)
                  (next (stores m refl) (next (ends_put k refl refl) (here _))),
            )

  load_alone :
      (keys : List Message) (s t : UdpServer) (db db' : redis.Db) (msg : Message) (c : Consum)
      → load redis keys s db ≡ returned (t, db')
      → Goes (at_work s db msg (loading keys) c) (at_work t db' msg receives c)
  unfolding load
  load_alone [] s t db db' msg c e =
      subst
        (λ (x : UdpServer × redis.Db).
          Goes (at_work s db msg (loading []) c) (at_work x.0 x.1 msg receives c))
        (returned-inj e) (_, next (load_done refl) (here _))
  load_alone (key ∷ keys) s t db db' msg c e =
      let ((out, db1), g, e1) = bind-returned (get_value redis key db) _ e in
      let (p, w, e2) = bind-returned (or_waits (put_data out s.pool)) _ e1 in
      goes_on (_, next (load_next key keys refl g) (here _))
        (goes_on (put_alone out (loading keys) s db1 msg c (or_waits-returned _ w))
          (load_alone keys (record s { pool = p }) t db1 db' msg c e2))

  recv_alone :
      (arrived : Option (Remote × List ℕ)) (msg msg' : Message) (s s' : UdpServer) (db : redis.Db)
      → recv_data json arrived msg s ≡ returned (msg', s')
      → Goes (at_work s db msg receives outside) (at_work s' db msg' decides outside)
  unfolding recv_data
  recv_alone none msg msg' s s' db e =
      subst
        (λ (x : Message × UdpServer).
          Goes (at_work s db msg receives outside) (at_work x.1 db x.0 decides outside))
        (returned-inj e) (_, next (misses refl) (here _))
  recv_alone (some (u, [])) msg msg' s s' db e =
      subst
        (λ (x : Message × UdpServer).
          Goes (at_work s db msg receives outside) (at_work x.1 db x.0 decides outside))
        (returned-inj e) (_, next (misses refl) (here _))
  recv_alone (some (u, b ∷ bytes)) msg msg' s s' db e =
      let (text, r, e1) = bind-returned (received (b ∷ bytes)) _ e in
      let (cmd, f, e2) = bind-returned (or_lost (json.field (codes "cmd") text)) _ e1 in
      let (p, w, e3) = bind-returned (or_waits (put_data text s.pool)) _ e2 in
      let s1 : UdpServer = record s { userlist = register cmd u s.userlist } in
      subst
        (λ (x : Message × UdpServer).
          Goes (at_work s db msg receives outside) (at_work x.1 db x.0 decides outside))
        (returned-inj e3)
        (goes_on (_, next (arrives u b bytes refl r (or_lost-returned _ f)) (here _))
          (put_alone text decides s1 db text outside (or_waits-returned _ w)))

  decide_alone :
      (msg text : Message) (s t : UdpServer) (db db' : redis.Db) (c : Consum)
      → json.field (codes "msg") msg ≡ some text
      → (if str_eq (codes "LOAD") text then load redis s.session s db else save redis msg s db)
        ≡ returned (t, db')
      → Goes (at_work s db msg decides c) (at_work t db' msg receives c)
  decide_alone msg text s t db db' c f e = elim (Bool-cases (str_eq (codes "LOAD") text)) [
    | inl l ↦
        goes_on (_, next (loads refl f l) (here _))
          (load_alone s.session s t db db' msg c (
            subst
              (λ (b : Bool).
                (if b then load redis s.session s db else save redis msg s db) ≡ returned (t, db'))
              l e))
    | inr l ↦ (
      _,
      next
          (saves refl f l (
            subst
              (λ (b : Bool).
                (if b then load redis s.session s db else save redis msg s db) ≡ returned (t, db'))
              l e))
          (here _),
    )
  ]

  -- Whenever the model of one round of `productRun` returns, the steps of the producer alone lead from
  -- the state before the round to the state after it, with the same server, database and `msg`.
  pub product_round_runs :
      (arrived : Option (Remote × List ℕ)) (msg msg' : Message) (s t : UdpServer)
      (db db' : redis.Db)
      → product_round redis json arrived msg s db ≡ returned (msg', t, db')
      → Goes (at_work s db msg receives outside) (at_work t db' msg' receives outside)
  unfolding product_round
  product_round_runs arrived msg msg' s t db db' e =
      let ((msg1, s1), r, e1) = bind-returned (recv_data json arrived msg s) _ e in
      let (text, f, e2) = bind-returned (or_lost (json.field (codes "msg") msg1)) _ e1 in
      let ((t1, db1), d, e3) =
        bind-returned
          (if str_eq (codes "LOAD") text
            then load redis s1.session s1 db
            else save redis msg1 s1 db)
          _ e2 in
      subst
        (λ (x : Message × UdpServer × redis.Db).
          Goes (at_work s db msg receives outside) (at_work x.1 x.2 x.0 receives outside))
        (returned-inj e3)
        (goes_on (recv_alone arrived msg msg1 s s1 db r)
          (decide_alone msg1 text s1 t1 db db1 outside (or_lost-returned _ f) d))
