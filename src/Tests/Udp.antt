-- ===== src/Tests/Udp.antt =====
-- The chat of LinuxChat/ at concrete states.
use network_code.Base.{
  ◌<◌, ◌≡◌, ◌≢◌, refl, true, Option, none, some, List, [], ◌∷◌, ◌++◌, codes, str_eq, length, arith,
  if◌then◌else◌, Bool-cases, inl, inr,
}
use network_code.Base.Strings.{str_eq_refl, str_eq-same}
use network_code.Fifo.{Event, QueueRun, entered, left}
use network_code.LinuxChat.Ring.{Message, Pool, put_data, put_wait, put_store, put_post, get_wait}
use network_code.LinuxChat.Ring.Held.{Held}
use network_code.LinuxChat.Ring.Threads.{
  Threads, may_store, may_take, Run, here, next, start, put_begins, put_stores, put_ends,
  get_begins,
}
use network_code.LinuxChat.Ring.Refine.{ring_refines_queue, slots_differ}
use network_code.LinuxChat.Outcome.{returned, ◌>>=◌}
use network_code.LinuxChat.Redis.{Redis, Keeps}
use network_code.LinuxChat.Server.{Json, Remote, UdpServer, recv_data, load, broad_cast, stuck}
use network_code.LinuxChat.Deliver.{broad_cast-delivers}
use network_code.LinuxChat.Threads.{new_server}
use network_code.LinuxChat.Saved.{put_all, save_all, beside, load-save_all}
use network_code.LinuxChat.Users.{Sorted, find_user, recv_data-registers}

abbrev first_message : Message
first_message = codes "hello"

abbrev second_message : Message
second_message = codes "again"

-- One message is in the ring, the producer may store another, and the consumer may take the first.
both_inside :
    (t : Threads) × (es : List (Event Message)) × Run (start 1024) es t
    × (t.producer ≡ may_store second_message)
    × (t.consumer ≡ may_take)
unfolding put_wait get_wait put_store put_post
both_inside = (
  _,
  _,
  next (put_begins first_message refl refl) (
      next (put_stores first_message refl) (
        next (put_ends refl)
          (next (put_begins second_message refl refl) (next (get_begins refl refl) (here _))))),
  refl,
  refl,
)

abbrev inside : Threads
inside = both_inside.0

ring_refines_queue_example :
    (ms : List Message) × Held 1024 inside.pool.pool inside.pool.consum_step ms
    × QueueRun 1024 [] both_inside.1 ms
    × (entered both_inside.1 ≡ left both_inside.1 ++ ms)
    × (inside.pool.product_step < length inside.pool.pool)
    × (inside.pool.consum_step < length inside.pool.pool)
ring_refines_queue_example = ring_refines_queue 1024 (omega arith) both_inside.2

slots_differ_example : inside.pool.product_step ≢ inside.pool.consum_step
slots_differ_example =
    slots_differ 1024 second_message (omega arith) both_inside.2 both_inside.3 both_inside.4

-- A store of keys and values; the newest value of a key counts.
abbrev Entries : Type 0
Entries = List (Message × Message)

abbrev lookup : Message → Entries → Option Message
lookup k [] = none
lookup k ((j, v) ∷ es) = if str_eq j k then some v else lookup k es

abbrev pub redis : Redis
redis = record {
  Db = Entries;
  select = λ db. some db;
  set = λ k v db. some ((k, v) ∷ db);
  get = λ k db. some (lookup k db);
}

pub redis-Keeps : Keeps redis
redis-Keeps = record {
  select_stays = λ db. refl;
  after_set = λ k v db. (k, v) ∷ db;
  set_answers = λ k v db. refl;
  get_same = λ k v db. rw (str_eq_refl k) refl;
  get_other = λ k j v db ne. elim (Bool-cases (str_eq k j)) [
    | inl e ↦ absurd (ne (str_eq-same k j e))
    | inr e ↦ rw e refl
  ];
}

-- A ring of two slots.
abbrev small_pool : Pool
small_pool = record {
  pool = [] ∷ [] ∷ [];
  cap = 2;
  product_step = 0;
  consum_step = 0;
  blank = 2;
  data_count = 0;
}

abbrev pub remote_a : Remote
remote_a = record { addr = 7; port = 80 }

abbrev pub remote_b : Remote
remote_b = record { addr = 9; port = 81 }

abbrev pub server : UdpServer
server = record {
  userlist = remote_a ∷ remote_b ∷ [];
  pool = small_pool;
  session_count = 0;
  session = [];
  sent = [];
}

load-save_all_example :
    (s' : UdpServer) × (db' : Entries) × (save_all redis
        (first_message ∷ second_message ∷ [])
        server
        []
      ≡ returned (s', db'))
    × (s'.pool ≡ small_pool)
    × (load redis s'.session s' db'
        ≡ (put_all (first_message ∷ second_message ∷ []) s' >>= beside db'))
load-save_all_example =
    load-save_all redis redis-Keeps (first_message ∷ second_message ∷ []) server [] refl
      (omega arith) refl refl

-- Every field of every message is its key.
abbrev json : Json
json = record { field = λ key text. some key }

abbrev pub quitting : Json
quitting = record { field = λ key text. some (codes "QUIT") }

abbrev pub filled : Pool
filled = record small_pool {
  pool = codes "bye" ∷ [] ∷ [];
  product_step = 1;
  blank = 1;
  data_count = 1;
}

recv_data-registers_example :
    (s' : UdpServer) × (recv_data quitting (some (remote_b, codes "bye")) [] server
      ≡ returned (codes "bye", s'))
    × Sorted s'.userlist
    × (find_user 7 s'.userlist ≡ some remote_a)
    × (s'.pool ≡ filled)
unfolding put_data put_wait put_store put_post
recv_data-registers_example =
    recv_data-registers quitting remote_b b'b' (codes "ye") [] (codes "QUIT") server filled 7
      (omega arith) refl refl (((omega arith, tt)), (tt, tt))

broad_cast-delivers_example :
    let s : UdpServer = record (new_server 1024) { userlist = remote_a ∷ remote_b ∷ [] } in
    (s' : UdpServer) × (t : UdpServer) × (put_all (first_message ∷ second_message ∷ []) s
      ≡ returned s')
    × (broad_cast (true ∷ true ∷ true ∷ []) s' ≡ stuck t)
    × (t.sent ≡ (remote_a, first_message) ∷ (remote_a, second_message) ∷ [])
broad_cast-delivers_example =
    broad_cast-delivers 1024 remote_a (remote_b ∷ []) (first_message ∷ second_message ∷ [])
      (omega arith) (omega arith)

-- Every field of every message is "None".
abbrev pub plain_json : Json
plain_json = record { field = λ key text. some (codes "None") }
