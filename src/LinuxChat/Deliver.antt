-- ===== src/LinuxChat/Deliver.antt =====
-- From `PutData` to `sendto` in LinuxChat/server/: what is put into the ring is sent to the first user.
use network_code.Base.{
  ℕ, suc, ◌+◌, ◌≤◌, ◌<◌, ◌≡◌, refl, sym, ap, ◌∙◌, true, false, none, some, List, [], ◌∷◌, ◌++◌,
  arith, length, append_assoc, append-nil, replicate, length-append, print_nat, print_fuel, codes,
  c_str, str_eq,
}
use mathlib.Core.Path.{subst}
use network_code.Base.Decimal.{no_nul}
use network_code.LinuxChat.Ring.{Message, Pool, new_pool, put_data, get_data}
use network_code.LinuxChat.Ring.Refine.{start-Inv}
use network_code.LinuxChat.Ring.Calls.{Holding, put_data-Holding, get_data-Holding, get_data-waits}
use network_code.LinuxChat.Outcome.{returned, waits}
use network_code.LinuxChat.Redis.{Redis, Keeps}
use network_code.LinuxChat.Server.{
  Json, Remote, UdpServer, insert_user, received, quits, register, recv_data, send_data, stuck,
  cast_next, cast_loop, broad_cast, session_key, product_round,
}
use network_code.LinuxChat.Saved.{put_all, save-returns}
use network_code.LinuxChat.Threads.{new_server}

-- Each message with this user.
abbrev pub addressed : Remote → List Message → List (Remote × Message)
addressed u [] = []
addressed u (m ∷ ms) = (u, m) ∷ addressed u ms

put_all-Holding :
    (cap : ℕ) (ms before : List Message) (s : UdpServer)
    → Holding cap s.pool before
    → length before + length ms ≤ cap
    → (p : Pool) × (put_all ms s ≡ returned (record s { pool = p })) × Holding cap p (before ++ ms)
unfolding put_all
put_all-Holding cap [] before s v le =
    (s.pool, refl, subst (Holding cap s.pool) (sym (append-nil before)) v)
put_all-Holding cap (m ∷ ms) before s v le =
    let (q, e, w) = put_data-Holding cap s.pool before m v (omega arith) in
    let (p, f, x) =
      put_all-Holding cap ms (before ++ (m ∷ [])) (record s { pool = q }) w
        (omega (arith, length-append before (m ∷ []))) in
    (p, rw e f, subst (Holding cap p) (append_assoc before (m ∷ []) ms) x)

send_data-first :
    (u : Remote) (s : UdpServer) (m : Message) (q : Pool)
    → get_data s.pool ≡ some (m, q)
    → send_data u s ≡ returned (record s { pool = q; sent = s.sent ++ ((u, m) ∷ []) })
unfolding send_data
send_data-first u s m q e = rw e refl

send_data-waits : (u : Remote) (s : UdpServer) → get_data s.pool ≡ none → send_data u s ≡ waits
unfolding send_data
send_data-waits u s e = rw e refl

cast_loop-sends :
    (cap : ℕ) (u : Remote) (ms : List Message) (s : UdpServer)
    → Holding cap s.pool ms
    → (t : UdpServer) × (cast_loop u (replicate (suc (length ms)) true) s ≡ stuck t)
      × (t.sent ≡ s.sent ++ addressed u ms)
unfolding cast_loop
cast_loop-sends cap u [] s v = (
  s,
  ap (cast_next s true (cast_loop u [])) (send_data-waits u s (get_data-waits cap s.pool v)),
  sym (append-nil s.sent),
)
cast_loop-sends cap u (m ∷ ms) s v =
    let (q, e, w) = get_data-Holding cap s.pool ms m v in
    let (t, f, g) =
      cast_loop-sends cap u ms (record s { pool = q; sent = s.sent ++ ((u, m) ∷ []) }) w in
    (
      t,
      ap (cast_next s true (cast_loop u (replicate (suc (length ms)) true)))
            (send_data-first u s m q e)
          ∙ f,
      g ∙ append_assoc s.sent ((u, m) ∷ []) (addressed u ms),
    )

-- Any at most 1024 messages put into the ring of a new server all go in without a wait, and then
-- `broadCast`, as long as `sendto` succeeds, gives exactly these messages in order to the first user,
-- and waits for the next. The ring has at least 1024 elements.
pub broad_cast-delivers :
    (slots : ℕ) (u : Remote) (us : List Remote) (ms : List Message)
    → 1024 ≤ slots
    → length ms ≤ 1024
    → let s : UdpServer = record (new_server slots) { userlist = u ∷ us } in
      (s' : UdpServer) × (t : UdpServer) × (put_all ms s ≡ returned s')
      × (broad_cast (replicate (suc (length ms)) true) s' ≡ stuck t)
      × (t.sent ≡ addressed u ms)
unfolding broad_cast
broad_cast-delivers slots u us ms room le =
    let s : UdpServer = record (new_server slots) { userlist = u ∷ us } in
    let (p, e, v) = put_all-Holding 1024 ms [] s (start-Inv slots room) (omega arith) in
    let (t, f, g) = cast_loop-sends 1024 u ms (record s { pool = p }) v in
    (record s { pool = p }, t, e, f, g)

pub no_nul-c_str : (s : List ℕ) → no_nul (c_str s) ≡ true
no_nul-c_str [] = refl
no_nul-c_str (c ∷ s) = ground (arith, no_nul-c_str s)

-- The server after its first message.
abbrev pub after_first : Remote → Message → Pool → UdpServer
after_first u text p = record {
  userlist = u ∷ [];
  pool = p;
  session_count = 1;
  session = session_key 0 ∷ [];
  sent = [];
}

recv_data-first :
    (json : Json) (slots : ℕ) (u : Remote) (b : ℕ) (bytes cmd : List ℕ) (p : Pool)
    → length (b ∷ bytes) < 1024
    → json.field (codes "cmd") (c_str (b ∷ bytes)) ≡ some cmd
    → quits cmd ≡ false
    → put_data (c_str (b ∷ bytes)) (new_pool slots) ≡ some p
    → recv_data json (some (u, b ∷ bytes)) [] (new_server slots)
      ≡ returned (c_str (b ∷ bytes), record (new_server slots) { userlist = u ∷ []; pool = p })
unfolding recv_data received register insert_user
recv_data-first json slots u b bytes cmd p fits e q put = ground (arith, e, q, put)

product_round-first :
    (redis : Redis) (k : Keeps redis) (json : Json) (slots : ℕ) (u : Remote) (b : ℕ)
    (bytes cmd body : List ℕ) (p : Pool) (db : redis.Db)
    → length (b ∷ bytes) < 1024
    → json.field (codes "cmd") (c_str (b ∷ bytes)) ≡ some cmd
    → quits cmd ≡ false
    → json.field (codes "msg") (c_str (b ∷ bytes)) ≡ some body
    → str_eq (codes "LOAD") body ≡ false
    → put_data (c_str (b ∷ bytes)) (new_pool slots) ≡ some p
    → product_round redis json (some (u, b ∷ bytes)) [] (new_server slots) db
      ≡ returned (
        c_str (b ∷ bytes),
        after_first u (c_str (b ∷ bytes)) p,
        k.after_set (session_key 0) (c_str (b ∷ bytes)) db,
      )
unfolding product_round
product_round-first redis k json slots u b bytes cmd body p db fits e q f l put =
    rw
      (
        recv_data-first json slots u b bytes cmd p fits e q put,
        f,
        l,
        save-returns redis k (c_str (b ∷ bytes))
            (record (new_server slots) { userlist = u ∷ []; pool = p }) db
            (no_nul-c_str (b ∷ bytes)),
      )
      refl

-- A new server gets a first datagram of at most 1023 bytes whose command is not QUIT and whose message
-- is not LOAD: its text is stored under the first key, and `broadCast` then sends exactly this text
-- back to the sender and waits. Redis answers every command, and the ring has at least 1024 elements.
pub first_datagram-echoed :
    (redis : Redis) (k : Keeps redis) (json : Json) (slots : ℕ) (u : Remote) (b : ℕ)
    (bytes cmd body : List ℕ) (db : redis.Db)
    → 1024 ≤ slots
    → length (b ∷ bytes) < 1024
    → json.field (codes "cmd") (c_str (b ∷ bytes)) ≡ some cmd
    → quits cmd ≡ false
    → json.field (codes "msg") (c_str (b ∷ bytes)) ≡ some body
    → str_eq (codes "LOAD") body ≡ false
    → (s : UdpServer) × (t : UdpServer) × (db' : redis.Db) × (product_round redis json
          (some (u, b ∷ bytes))
          []
          (new_server slots)
          db
        ≡ returned (c_str (b ∷ bytes), s, db'))
      × (redis.get (codes "key0") db' ≡ some (some (c_str (b ∷ bytes))))
      × (broad_cast (true ∷ true ∷ []) s ≡ stuck t)
      × (t.sent ≡ (u, c_str (b ∷ bytes)) ∷ [])
unfolding broad_cast print_nat print_fuel
first_datagram-echoed redis k json slots u b bytes cmd body db room fits e q f l =
    let text : Message = c_str (b ∷ bytes) in
    let (p, put, v) =
      put_data-Holding 1024 (new_pool slots) [] text (start-Inv slots room) (omega arith) in
    let (t, sends, sent) = cast_loop-sends 1024 u (text ∷ []) (after_first u text p) v in
    (
      after_first u text p,
      t,
      k.after_set (session_key 0) text db,
      product_round-first redis k json slots u b bytes cmd body p db fits e q f l put,
      k.get_same (session_key 0) text db,
      sends,
      sent,
    )
