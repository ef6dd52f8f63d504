-- ===== src/LinuxChat/System/Round.antt =====
-- A whole round of `productRun` of LinuxChat/server/udpServerMain.cpp that saves a message.
use network_code.Base.{
  ℕ, ◌+◌, ◌%◌, ◌<◌, ◌≡◌, refl, false, some, List, [], ◌∷◌, ◌++◌, codes, str_eq, c_str, length,
}
use network_code.LinuxChat.Ring.{Message, Pool, put_data}
use network_code.LinuxChat.Outcome.{returned}
use network_code.LinuxChat.Redis.{Redis, Keeps}
use network_code.LinuxChat.Server.{Json, Remote, UdpServer, register, session_key, product_round}
use network_code.LinuxChat.Users.{
  Sorted, find_user, entry_after, register-Sorted, find_user-register, recv_data-known,
}
use network_code.LinuxChat.Saved.{save-returns}
use network_code.LinuxChat.Deliver.{no_nul-c_str}
use network_code.LinuxChat.System.{receives, outside}
use network_code.LinuxChat.System.Sequential.{at_work, Goes, product_round_runs}

-- The server after the round.
abbrev after_round : Message → Remote → Pool → UdpServer → UdpServer
after_round cmd u pool s = record s {
  userlist = register cmd u s.userlist;
  pool = pool;
  session_count = (s.session_count + 1) % 512;
  session = s.session ++ (session_key s.session_count ∷ []);
}

-- The server differs from the one before in what the round has done: the entry at address `a` of the
-- sorted map, the ring, the count, the keys; and not in what was sent.
pub record Round (cmd : Message) (u : Remote) (a : ℕ) (pool : Pool) (s t : UdpServer) : Type 0 where
  pub sorted : Sorted t.userlist
  pub entry : find_user a t.userlist ≡ entry_after cmd u a s.userlist
  pub ring : t.pool ≡ pool
  pub count : t.session_count ≡ (s.session_count + 1) % 512
  pub keys : t.session ≡ s.session ++ (session_key s.session_count ∷ [])
  pub sent : t.sent ≡ s.sent

product_round-returns :
    (redis : Redis) (k : Keeps redis) (json : Json) (u : Remote) (b : ℕ)
    (bytes msg cmd body : List ℕ) (s : UdpServer) (db : redis.Db) (pool : Pool)
    → length (b ∷ bytes) < 1024
    → json.field (codes "cmd") (c_str (b ∷ bytes)) ≡ some cmd
    → json.field (codes "msg") (c_str (b ∷ bytes)) ≡ some body
    → str_eq (codes "LOAD") body ≡ false
    → put_data (c_str (b ∷ bytes)) s.pool ≡ some pool
    → product_round redis json (some (u, b ∷ bytes)) msg s db
      ≡ returned (
        c_str (b ∷ bytes),
        after_round cmd u pool s,
        k.after_set (session_key s.session_count) (c_str (b ∷ bytes)) db,
      )
unfolding product_round
product_round-returns redis k json u b bytes msg cmd body s db pool fits e f l p =
    rw
      (
        recv_data-known json u b bytes msg cmd s pool fits e p,
        f,
        l,
        save-returns redis k (c_str (b ∷ bytes))
            (record s { userlist = register cmd u s.userlist; pool = pool }) db
            (no_nul-c_str (b ∷ bytes)),
      )
      refl

-- A round of `productRun` with a datagram of at most 1023 bytes that has the fields cmd and msg, of
-- which msg is not LOAD, if there is room in the ring: QUIT has taken the sender off the sorted map
-- of users, any other command has entered it unless an entry for its address was there, and at any
-- other address nothing has changed; the text is in the ring and stored in redis under the key of
-- the count, this key is the last of the session, the count is one more, modulo 512, and nothing was
-- sent. From the state before to the state after, the steps of the producer in the model with two
-- threads lead while the other thread is outside `broadCast`. Redis answers every command.
pub product_round_lem :
    (redis : Redis) (k : Keeps redis) (json : Json) (u : Remote) (b : ℕ)
    (bytes msg cmd body : List ℕ) (s : UdpServer) (db : redis.Db) (pool : Pool) (a : ℕ)
    → length (b ∷ bytes) < 1024
    → json.field (codes "cmd") (c_str (b ∷ bytes)) ≡ some cmd
    → json.field (codes "msg") (c_str (b ∷ bytes)) ≡ some body
    → str_eq (codes "LOAD") body ≡ false
    → put_data (c_str (b ∷ bytes)) s.pool ≡ some pool
    → Sorted s.userlist
    → let text : Message = c_str (b ∷ bytes) in
      (t : UdpServer) × (db' : redis.Db) × (product_round redis json (some (u, b ∷ bytes)) msg s db
        ≡ returned (text, t, db'))
      × Round cmd u a pool s t
      × (redis.get (session_key s.session_count) db' ≡ some (some text))
      × Goes json
          (at_work {redis = redis} s db msg receives outside)
          (at_work t db' text receives outside)
product_round_lem redis k json u b bytes msg cmd body s db pool a fits e f l p sorted =
    let text : Message = c_str (b ∷ bytes) in
    let db' : redis.Db = k.after_set (session_key s.session_count) text db in
    let done = product_round-returns redis k json u b bytes msg cmd body s db pool fits e f l p in
    (
      after_round cmd u pool s,
      db',
      done,
      record {
        sorted = register-Sorted cmd u s.userlist sorted;
        entry = find_user-register cmd u a s.userlist sorted;
        ring = refl;
        count = refl;
        keys = refl;
        sent = refl;
      },
      k.get_same (session_key s.session_count) text db,
      product_round_runs json (some (u, b ∷ bytes)) msg text s (after_round cmd u pool s) db db'
          done,
    )
