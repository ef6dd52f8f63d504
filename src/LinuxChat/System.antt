-- ===== src/LinuxChat/System.antt =====
-- `productRun` and `consumRun` of LinuxChat/server/udpServerMain.cpp on one server, in any
-- interleaving. A step is what one thread does between two points where the other can get in; an
-- operation on `userlist`, which no lock guards, is one step.
pub mod Save
pub mod Order
pub mod Dangling
pub mod Calls
pub mod Quit
pub mod Sequential
pub mod Round
pub mod Casting
pub mod Full
use network_code.Base.{
  ℕ, ◌≡◌, Bool, true, false, ◌&&◌, Option, none, some, List, [], ◌∷◌, ◌++◌, ◌==◌, not,
  if◌then◌else◌, codes, str_eq,
}
use network_code.Fifo.{Event, nothing, enters, leaves}
use network_code.LinuxChat.Ring.{
  Message, Pool, put_wait, put_store, put_post, get_wait, get_take, get_post,
}
use network_code.LinuxChat.Ring.Threads.{
  Producer, may_store, has_stored, Consumer, may_take, has_taken, Threads,
}
use network_code.LinuxChat.Outcome.{returned}
use network_code.LinuxChat.Redis.{Redis, get_value}
use network_code.LinuxChat.Server.{Json, Remote, UdpServer, received, quits, register, save}
use network_code.LinuxChat.Threads.{new_server}

-- Where `productRun` stands: in `recvfrom`; before or in a `PutData`, and what follows it; before its
-- test for LOAD; in the loop over the keys.
pub data Product : Type 0 where
  receives : Product
  wants : Message → Product → Product
  puts : Product → Product
  decides : Product
  loading : List Message → Product

-- Where `consumRun` stands: outside the loop of `broadCast`; in it with the iterator at a user, before
-- or in `GetData`, or before `sendto`; or `sendto` has read a freed element. The flag is whether the
-- iterator's element is still in the map.
pub data Consum : Type 0 where
  outside : Consum
  holds : Remote → Bool → Consum
  claims : Remote → Bool → Consum
  took : Remote → Bool → Message → Consum
  sends : Remote → Bool → Message → Consum
  faulted : Remote → Message → Consum

-- `msg` is the variable of `productRun`.
pub record System (redis : Redis) : Type 0 where
  pub server : UdpServer
  pub db : redis.Db
  pub msg : Message
  pub product : Product
  pub consum : Consum
  pub producer : Producer
  pub consumer : Consumer

-- The two threads of the ring.
abbrev pub ring : {redis : Redis} → System redis → Threads
ring s = record { pool = s.server.pool; producer = s.producer; consumer = s.consumer }

abbrev pub start : {redis : Redis} → ℕ → redis.Db → System redis
start slots db = record {
  server = new_server slots;
  db = db;
  msg = [];
  product = receives;
  consum = outside;
  producer = Producer.rests;
  consumer = Consumer.rests;
}

abbrev pub has_user : ℕ → List Remote → Bool
has_user a [] = false
has_user a (v ∷ us) = if a == v.addr then true else has_user a us

-- What is left of the iterator's element in this map, after one operation on it: an element whose key is
-- gone was freed. (A key that is entered again gets a new element.)
abbrev pub still : List Remote → Remote → Bool → Bool
still users v alive = alive && has_user v.addr users

abbrev pub freed : List Remote → Consum → Consum
freed users outside = outside
freed users (holds v alive) = holds v (still users v alive)
freed users (claims v alive) = claims v (still users v alive)
freed users (took v alive m) = took v (still users v alive) m
freed users (sends v alive m) = sends v (still users v alive) m
freed users (faulted v m) = faulted v m

-- `userlist.begin()`
abbrev pub begin : List Remote → Consum
begin [] = outside
begin (u ∷ us) = holds u true

abbrev pub with_pool : Pool → UdpServer → UdpServer
with_pool p v = record v { pool = p }

module _ {redis : Redis} (json : Json) where
  -- What a step shows is the message stored in the ring or taken from it. A run ends where the
  -- producer is lost, by a datagram that does not fit, an exception or a null reply.
  pub data Step (s : System redis) : Event Message → System redis → Type 0 where
    misses : s.product ≡ receives → Step s nothing (record s { product = decides })
    arrives :
        (u : Remote) (b : ℕ) (bytes : List ℕ) {text cmd : Message}
        → s.product ≡ receives
        → received (b ∷ bytes) ≡ returned text
        → json.field (codes "cmd") text ≡ some cmd
        → Step s nothing (record s {
          server = record s.server { userlist = register cmd u s.server.userlist };
          consum = freed (register cmd u s.server.userlist) s.consum;
          msg = text;
          product = wants text decides;
        })
    begins_put :
        (m : Message) (k : Product) {p : Pool}
        → s.product ≡ wants m k
        → s.producer ≡ Producer.rests
        → put_wait s.server.pool ≡ some p
        → Step s nothing
            (record s { server = with_pool p s.server; producer = may_store m; product = puts k })
    stores :
        (m : Message)
        → s.producer ≡ may_store m
        → Step s (enters m) (record s {
          server = with_pool (put_store m s.server.pool) s.server;
          producer = has_stored;
        })
    ends_put :
        (k : Product)
        → s.product ≡ puts k
        → s.producer ≡ has_stored
        → Step s nothing (record s {
          server = with_pool (put_post s.server.pool) s.server;
          producer = Producer.rests;
          product = k;
        })
    loads :
        {text : Message}
        → s.product ≡ decides
        → json.field (codes "msg") s.msg ≡ some text
        → str_eq (codes "LOAD") text ≡ true
        → Step s nothing (record s { product = loading s.server.session })
    saves :
        {text : Message} {v : UdpServer} {db : redis.Db}
        → s.product ≡ decides
        → json.field (codes "msg") s.msg ≡ some text
        → str_eq (codes "LOAD") text ≡ false
        → save redis s.msg s.server s.db ≡ returned (v, db)
        → Step s nothing (record s { server = v; db = db; product = receives })
    load_next :
        (key : Message) (keys : List Message) {out : Message} {db : redis.Db}
        → s.product ≡ loading (key ∷ keys)
        → get_value redis key s.db ≡ returned (out, db)
        → Step s nothing (record s { db = db; product = wants out (loading keys) })
    load_done : s.product ≡ loading [] → Step s nothing (record s { product = receives })
    looks : s.consum ≡ outside → Step s nothing (record s { consum = begin s.server.userlist })
    begins_get :
        (u : Remote) (alive : Bool) {p : Pool}
        → s.consum ≡ holds u alive
        → s.consumer ≡ Consumer.rests
        → get_wait s.server.pool ≡ some p
        → Step s nothing (record s {
          server = with_pool p s.server;
          consumer = may_take;
          consum = claims u alive;
        })
    takes :
        (u : Remote) (alive : Bool)
        → s.consum ≡ claims u alive
        → s.consumer ≡ may_take
        → Step s (leaves (get_take s.server.pool).0) (record s {
          server = with_pool (get_take s.server.pool).1 s.server;
          consumer = has_taken;
          consum = took u alive (get_take s.server.pool).0;
        })
    ends_get :
        (u : Remote) (alive : Bool) (m : Message)
        → s.consum ≡ took u alive m
        → s.consumer ≡ has_taken
        → Step s nothing (record s {
          server = with_pool (get_post s.server.pool) s.server;
          consumer = Consumer.rests;
          consum = sends u alive m;
        })
    sends_to :
        (u : Remote) (m : Message) (ok : Bool)
        → s.consum ≡ sends u true m
        → Step s nothing (record s {
          server = record s.server { sent = s.server.sent ++ ((u, m) ∷ []) };
          consum = if ok then holds u true else outside;
        })
    dangles :
        (u : Remote) (m : Message)
        → s.consum ≡ sends u false m
        → Step s nothing (record s { consum = faulted u m })

  pub data Run : System redis → List (Event Message) → System redis → Type 0 where
    here : (s : System redis) → Run s [] s
    next :
        {s t r : System redis} {e : Event Message} {es : List (Event Message)}
        → Step s e t
        → Run t es r
        → Run s (e ∷ es) r
