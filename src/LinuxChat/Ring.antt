-- ===== src/LinuxChat/Ring.antt =====
-- `class Pool` of LinuxChat/pool/pool.cpp: a ring of messages under two semaphores. (The member
-- `_size` is never read, and is left out.)
pub mod Held
pub mod Threads
pub mod Refine
pub mod Calls
use network_code.Base.{
  ℕ, zero, suc, ◌+◌, ◌-◌, ◌%◌, Bool, true, false, Option, none, some, List, [], ◌∷◌, ltb,
  if◌then◌else◌, get_or, set, replicate,
}

-- A message is its bytes.
abbrev pub Message : Type 0
Message = List ℕ

-- `blank` and `data` are the values of the semaphores.
pub record Pool : Type 0 where
  pub pool : List Message
  pub cap : ℕ
  pub product_step : ℕ
  pub consum_step : ℕ
  pub blank : ℕ
  pub data_count : ℕ

-- `Pool::Pool`. The member `pool` stands before `_cap` in the class, so it is made first, with as many
-- elements as what `_cap` holds before it is set: `slots`. What an index beyond them does is not
-- defined; here nothing is stored, and an empty message is read.
abbrev pub new_pool : ℕ → Pool
new_pool slots = record {
  pool = replicate slots [];
  cap = 1024;
  product_step = 0;
  consum_step = 0;
  blank = 1024;
  data_count = 0;
}

-- `sem_wait(&_blank)`; `none` where it has to wait.
unfoldable pub put_wait : Pool → Option Pool
put_wait p = if ltb 0 p.blank then some (record p { blank = p.blank - 1 }) else none

-- The body of `PutData`, and `sem_post(&_data)`.
unfoldable pub put_store : Message → Pool → Pool
put_store m p = record p {
  pool = set p.pool p.product_step m;
  product_step = (p.product_step + 1) % p.cap;
}

unfoldable pub put_post : Pool → Pool
put_post p = record p { data_count = p.data_count + 1 }

-- `sem_wait(&_data)`, the body of `GetData`, and `sem_post(&_blank)`.
unfoldable pub get_wait : Pool → Option Pool
get_wait p = if ltb 0 p.data_count then some (record p { data_count = p.data_count - 1 }) else none

unfoldable pub get_take : Pool → Message × Pool
get_take p =
    (get_or p.pool p.consum_step [], record p { consum_step = (p.consum_step + 1) % p.cap })

unfoldable pub get_post : Pool → Pool
get_post p = record p { blank = p.blank + 1 }

-- `PutData` and `GetData` as a whole; `none` where the thread has to wait.
unfoldable pub put_data : Message → Pool → Option Pool
unfolding put_wait put_store put_post
put_data m p = elim (put_wait p) [ none ↦ none | some q ↦ some (put_post (put_store m q)) ]

unfoldable pub get_data : Pool → Option (Message × Pool)
unfolding get_wait get_take get_post
get_data p = elim (get_wait p) [
  | none ↦ none
  | some q ↦ let (m, r) = get_take q in some (m, get_post r)
]
