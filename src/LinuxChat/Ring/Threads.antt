-- ===== src/LinuxChat/Ring/Threads.antt =====
-- One thread in `PutData` and one in `GetData` of LinuxChat/pool/pool.cpp, in any interleaving.
use network_code.Base.{ℕ, ◌+◌, ◌<◌, ◌≤◌, ◌≡◌, some, List, [], ◌∷◌, length}
use network_code.Fifo.{Event, nothing, enters, leaves}
use network_code.LinuxChat.Ring.{
  Message, Pool, new_pool, put_wait, put_store, put_post, get_wait, get_take, get_post,
}
use network_code.LinuxChat.Ring.Held.{ahead, Held}

-- Where each thread stands: outside, between its `sem_wait` and its access to the ring, or between
-- that and its `sem_post`.
pub data Producer : Type 0 where
  rests : Producer
  may_store : Message → Producer
  has_stored : Producer

pub data Consumer : Type 0 where
  rests : Consumer
  may_take : Consumer
  has_taken : Consumer

pub record Threads : Type 0 where
  pub pool : Pool
  pub producer : Producer
  pub consumer : Consumer

-- `PutData` of any message may be called whenever the producer rests, and `GetData` whenever the
-- consumer rests; what a step shows is the message stored or taken.
pub data Step (s : Threads) : Event Message → Threads → Type 0 where
  put_begins :
      (m : Message) {p : Pool}
      → s.producer ≡ Producer.rests
      → put_wait s.pool ≡ some p
      → Step s nothing (record s { pool = p; producer = may_store m })
  put_stores :
      (m : Message)
      → s.producer ≡ may_store m
      → Step s (enters m) (record s { pool = put_store m s.pool; producer = has_stored })
  put_ends :
      s.producer ≡ has_stored
      → Step s nothing (record s { pool = put_post s.pool; producer = Producer.rests })
  get_begins :
      {p : Pool}
      → s.consumer ≡ Consumer.rests
      → get_wait s.pool ≡ some p
      → Step s nothing (record s { pool = p; consumer = may_take })
  get_takes :
      s.consumer ≡ may_take
      → Step s
          (leaves (get_take s.pool).0)
          (record s { pool = (get_take s.pool).1; consumer = has_taken })
  get_ends :
      s.consumer ≡ has_taken
      → Step s nothing (record s { pool = get_post s.pool; consumer = Consumer.rests })

pub data Run : Threads → List (Event Message) → Threads → Type 0 where
  here : (s : Threads) → Run s [] s
  next :
      {s t u : Threads} {e : Event Message} {es : List (Event Message)}
      → Step s e t
      → Run t es u
      → Run s (e ∷ es) u

abbrev pub start : ℕ → Threads
start slots = record { pool = new_pool slots; producer = Producer.rests; consumer = Consumer.rests }

-- A message stored but not yet posted, and a message claimed but not yet taken.
abbrev pub unposted : Producer → ℕ
unposted Producer.rests = 0
unposted (may_store m) = 0
unposted has_stored = 1

abbrev pub claimed : Consumer → ℕ
claimed Consumer.rests = 0
claimed may_take = 1
claimed has_taken = 0

-- A thread between its `sem_wait` and its `sem_post`.
abbrev pub puts : Producer → ℕ
puts Producer.rests = 0
puts (may_store m) = 1
puts has_stored = 1

abbrev pub gets : Consumer → ℕ
gets Consumer.rests = 0
gets may_take = 1
gets has_taken = 1

-- The messages `ms` are those stored and not yet taken.
pub record Inv (cap : ℕ) (s : Threads) (ms : List Message) : Type 0 where
  pub same_cap : s.pool.cap ≡ cap
  pub slots : cap ≤ length s.pool.pool
  pub in_range : s.pool.consum_step < cap
  pub next_slot : s.pool.product_step ≡ ahead cap (length ms) s.pool.consum_step
  pub held : Held cap s.pool.pool s.pool.consum_step ms
  pub count : length ms ≡ s.pool.data_count + unposted s.producer + claimed s.consumer
  pub tokens : s.pool.blank + s.pool.data_count + puts s.producer + gets s.consumer ≡ cap
