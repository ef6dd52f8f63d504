-- ===== src/LinuxChat/Threads.antt =====
-- `productRun`, `consumRun` and `main` of LinuxChat/server/udpServerMain.cpp, and `UdpServer::Init`.
use network_code.Base.{
  ℕ, zero, suc, Bool, true, not, Option, none, some, List, [], ◌∷◌, if◌then◌else◌,
}
use network_code.LinuxChat.Ring.{Message, new_pool}
use network_code.LinuxChat.Outcome.{Outcome, returned, ◌>>=◌}
use network_code.LinuxChat.Redis.{Redis}
use network_code.LinuxChat.Server.{
  Json, Remote, UdpServer, product_round, Cast, ended, stuck, goes_round, broad_cast,
}

-- The constructor.
abbrev pub new_server : ℕ → UdpServer
new_server slots = record {
  userlist = [];
  pool = new_pool slots;
  session_count = 0;
  session = [];
  sent = [];
}

-- `Init`, given whether `socket` and `bind` succeed: the code of an exit.
unfoldable pub init : Bool → Bool → Option ℕ
init socket bind = if not socket then some 1 else if not bind then some 2 else none

-- The process has exited, or its two threads run on this server.
pub data Life : Type 0 where
  exits : ℕ → Life
  runs : UdpServer → Life

abbrev begun : ℕ → Option ℕ → Life
begun slots none = runs (new_server slots)
begun slots (some n) = exits n

unfoldable pub server_main : ℕ → ℕ → Bool → Bool → Life
unfolding init
server_main slots argc socket bind = elim argc [
  | suc (suc (suc zero)) ↦ begun slots (init socket bind)
  | _ ↦ exits 1
]

-- `productRun`, for the datagrams in the list.
unfoldable pub product_run :
    (redis : Redis)
    → Json
    → List (Option (Remote × List ℕ))
    → Message
    → UdpServer
    → redis.Db
    → Outcome (Message × UdpServer × redis.Db)
product_run redis json [] msg s db = returned (msg, s, db)
product_run redis json (arrived ∷ rest) msg s db =
    product_round redis json arrived msg s db >>= λ (msg', t, db').
    product_run redis json rest msg' t db'

abbrev pub consum_next : (UdpServer → Cast) → Cast → Cast
consum_next next (ended ok s) = next s
consum_next next (stuck s) = stuck s
consum_next next (goes_round s) = goes_round s

-- `consumRun`: each round has the results of its calls of `sendto`.
unfoldable pub consum_run : List (List Bool) → UdpServer → Cast
consum_run [] s = ended true s
consum_run (oks ∷ rounds) s = consum_next (consum_run rounds) (broad_cast oks s)
