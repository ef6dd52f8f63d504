-- ===== src/LinuxChat/Server.antt =====
-- `class UdpServer` of LinuxChat/server/udpServer.cpp, and the threads of udpServerMain.cpp.
use network_code.Base.{
  ℕ, ◌+◌, ◌%◌, Bool, true, false, Option, none, some, List, [], ◌∷◌, ◌++◌, ltb, ◌==◌, if◌then◌else◌,
  codes, c_str, str_eq, length, print_nat,
}
use network_code.LinuxChat.Ring.{Message, Pool, put_data, get_data}
use network_code.LinuxChat.Outcome.{Outcome, returned, waits, lost, ◌>>=◌, or_waits, or_lost}
use network_code.LinuxChat.Redis.{Redis, insert_db, get_value}

-- jsoncpp, as a parameter: `val[key].asString()` for the value that `StrToValue` reads from a text.
-- `none` is an exception.
pub record Json : Type 0 where
  pub field : List ℕ → List ℕ → Option (List ℕ)

-- A client's address (`in_addr_t`) and its whole address with the port (`struct sockaddr_in`).
pub record Remote : Type 0 where
  pub addr : ℕ
  pub port : ℕ

-- `UdpServer`; `userlist` in the order of its keys. `sent` holds what `sendto` was given.
pub record UdpServer : Type 0 where
  pub userlist : List Remote
  pub pool : Pool
  pub session_count : ℕ
  pub session : List Message
  pub sent : List (Remote × Message)

-- `userlist.insert` leaves an entry of the same key as it is.
unfoldable pub insert_user : Remote → List Remote → List Remote
insert_user u [] = u ∷ []
insert_user u (v ∷ us) =
    let rest = insert_user u us in
    if u.addr == v.addr then v ∷ us else if ltb u.addr v.addr then u ∷ v ∷ us else v ∷ rest

-- `userlist.erase`
unfoldable pub erase_user : ℕ → List Remote → List Remote
erase_user a [] = []
erase_user a (v ∷ us) = let rest = erase_user a us in if a == v.addr then us else v ∷ rest

-- The array `buf` of 1024 bytes after `buf[_s]='\0'`, as a string.
unfoldable pub received : List ℕ → Outcome Message
received bytes = if ltb (length bytes) 1024 then returned (c_str bytes) else lost

abbrev pub quits : Message → Bool
quits cmd = str_eq cmd (codes "QUIT")

unfoldable pub register : Message → Remote → List Remote → List Remote
register cmd remote users =
    if quits cmd then erase_user remote.addr users else insert_user remote users

-- `RecvData`: no datagram is an error or an empty one, and leaves `msg` as it was.
unfoldable pub recv_data :
    Json → Option (Remote × List ℕ) → Message → UdpServer → Outcome (Message × UdpServer)
recv_data json none msg s = returned (msg, s)
recv_data json (some (remote, [])) msg s = returned (msg, s)
recv_data json (some (remote, b ∷ bytes)) msg s = received (b ∷ bytes) >>= λ text.
    or_lost (json.field (codes "cmd") text) >>= λ cmd. or_waits (put_data text s.pool) >>= λ pool.
    returned (text, record s { userlist = register cmd remote s.userlist; pool = pool })

-- `sendData`: it takes a message from the ring itself; the result is that of `sendto`.
unfoldable pub send_data : Remote → UdpServer → Outcome UdpServer
send_data remote s = or_waits (get_data s.pool) >>= λ (msg, pool).
    returned (record s { pool = pool; sent = s.sent ++ ((remote, msg) ∷ []) })

-- How `broadCast` ends: it returns, it waits for a message, or it still goes round at the end of the
-- list of what `sendto` gave.
pub data Cast : Type 0 where
  ended : Bool → UdpServer → Cast
  stuck : UdpServer → Cast
  goes_round : UdpServer → Cast

abbrev pub cast_next : UdpServer → Bool → (UdpServer → Cast) → Outcome UdpServer → Cast
cast_next s ok k waits = stuck s
cast_next s ok k lost = stuck s
cast_next s true k (returned t) = k t
cast_next s false k (returned t) = ended false t

-- The loop of `broadCast` at the iterator's user: it never moves on.
unfoldable pub cast_loop : Remote → List Bool → UdpServer → Cast
cast_loop remote [] s = goes_round s
cast_loop remote (ok ∷ oks) s = cast_next s ok (cast_loop remote oks) (send_data remote s)

abbrev pub cast_from : List Bool → UdpServer → List Remote → Cast
cast_from oks s [] = ended true s
cast_from oks s (remote ∷ users) = cast_loop remote oks s

unfoldable pub broad_cast : List Bool → UdpServer → Cast
broad_cast oks s = cast_from oks s s.userlist

-- `Info + _itoa(SessionCount)`
abbrev pub key_max : ℕ
key_max = 512

abbrev pub session_key : ℕ → Message
session_key n = codes "key" ++ print_nat n

module _ (redis : Redis) where
  -- The branch for a message that is not LOAD: it is stored under the next key.
  unfoldable pub save : Message → UdpServer → redis.Db → Outcome (UdpServer × redis.Db)
  save msg s db =
      let key = session_key s.session_count in
      let s' : UdpServer = record s {
        session_count = (s.session_count + 1) % key_max;
        session = s.session ++ (key ∷ []);
      } in
      insert_db redis key msg db >>= λ (ret, db'). returned (s', db')

  -- The branch for LOAD: every stored message goes into the ring again. The keys left, and `out`.
  unfoldable pub load : List Message → UdpServer → redis.Db → Outcome (UdpServer × redis.Db)
  load [] s db = returned (s, db)
  load (key ∷ keys) s db = get_value redis key db >>= λ (out, db').
      or_waits (put_data out s.pool) >>= λ pool. load keys (record s { pool = pool }) db'

  -- One round of `productRun`; `msg` keeps its value where nothing was received.
  unfoldable pub product_round :
      Json
      → Option (Remote × List ℕ)
      → Message
      → UdpServer
      → redis.Db
      → Outcome (Message × UdpServer × redis.Db)
  product_round json arrived msg s db = recv_data json arrived msg s >>= λ (msg', s').
      or_lost (json.field (codes "msg") msg') >>= λ text.
      (if str_eq (codes "LOAD") text then load s'.session s' db else save msg' s' db)
      >>= λ (t, db'). returned (msg', t, db')
