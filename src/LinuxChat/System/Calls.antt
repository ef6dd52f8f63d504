-- ===== src/LinuxChat/System/Calls.antt =====
-- Runs of the two threads of LinuxChat/server/udpServerMain.cpp that interleave only between calls of the
-- ring: one lemma per call.
use network_code.Base.{
  ap₂, ℕ, suc, ◌<◌, ◌≡◌, refl, ap, ◌∙◌, Bool, true, false, some, List, [], ◌∷◌, ◌++◌, arith, codes,
  str_eq, c_str, length,
}
use network_code.Base.Decimal.{no_nul}
use network_code.Fifo.{Event}
use network_code.LinuxChat.Ring.{Message, put_store, put_post, get_take, get_post}
use network_code.LinuxChat.Outcome.{returned}
use network_code.LinuxChat.Redis.{Redis, Keeps}
use network_code.LinuxChat.Server.{Json, Remote, received, register}
use network_code.LinuxChat.Ring.Calls.{put_wait-free, get_wait-free}
use network_code.LinuxChat.Ring.Threads.{Producer, Consumer}
use network_code.LinuxChat.Saved.{save-returns}
use network_code.LinuxChat.System.{
  Product, receives, wants, decides, Consum, outside, holds, sends, System, start, freed, begin,
  Step, arrives, begins_put, stores, ends_put, saves, looks, begins_get, takes, ends_get, sends_to,
  Run, here, next,
}

received-fits :
    (b : ℕ) (bytes : List ℕ)
    → length (b ∷ bytes) < 1024
    → received (b ∷ bytes) ≡ returned (c_str (b ∷ bytes))
unfolding received
received-fits b bytes h = ground arith

module _ {redis : Redis} (json : Json) where
  -- Between calls of the ring, with its two semaphores at these values.
  pub record At (s : System redis) (users : List Remote) (product : Product) (consum : Consum)
      (msg : Message) (blank count : ℕ) : Type 0 where
    pub at_users : s.server.userlist ≡ users
    pub at_product : s.product ≡ product
    pub at_consum : s.consum ≡ consum
    pub at_msg : s.msg ≡ msg
    pub at_blank : s.server.pool.blank ≡ blank
    pub at_count : s.server.pool.data_count ≡ count
    pub producer_rests : s.producer ≡ Producer.rests
    pub consumer_rests : s.consumer ≡ Consumer.rests

  -- A run to a state between calls.
  abbrev pub Leads : System redis → List Remote → Product → Consum → Message → ℕ → ℕ → Type 0
  Leads s users product consum msg blank count =
      (t : System redis) × (es : List (Event Message)) × Run json s es t
      × At t users product consum msg blank count

  pub run_append :
      {s t r : System redis} {es fs : List (Event Message)}
      → Run json s es t
      → Run json t fs r
      → Run json s (es ++ fs) r
  run_append (here s) q = q
  run_append (next st p) q = next st (run_append p q)

  pub put_call :
      {s : System redis} {users : List Remote} {consum : Consum} {msg : Message} {b n : ℕ}
      {k : Product} (m : Message)
      → At s users (wants m k) consum msg (suc b) n
      → Leads s users k consum msg b (suc n)
  unfolding put_store put_post
  put_call {s} {k = k} m a = (
    _,
    _,
    next
        (begins_put m k a.at_product a.producer_rests
          (put_wait-free s.server.pool (omega (arith, a.at_blank))))
        (next (stores m refl) (next (ends_put k refl refl) (here _))),
    record {
      at_users = a.at_users;
      at_product = refl;
      at_consum = a.at_consum;
      at_msg = a.at_msg;
      at_blank = omega (arith, a.at_blank);
      at_count = omega (arith, a.at_count);
      producer_rests = refl;
      consumer_rests = a.consumer_rests;
    },
  )

  pub get_call :
      {s : System redis} {users : List Remote} {product : Product} {msg : Message} {b n : ℕ}
      (u : Remote) (alive : Bool)
      → At s users product (holds u alive) msg b (suc n)
      → (m : Message) × Leads s users product (sends u alive m) msg (suc b) n
  unfolding get_take get_post
  get_call {s} u alive a = (
    _,
    (
      _,
      _,
      next
          (begins_get u alive a.at_consum a.consumer_rests
            (get_wait-free s.server.pool (omega (arith, a.at_count))))
          (next (takes u alive refl refl) (next (ends_get u alive _ refl refl) (here _))),
      record {
        at_users = a.at_users;
        at_product = a.at_product;
        at_consum = refl;
        at_msg = a.at_msg;
        at_blank = omega (arith, a.at_blank);
        at_count = omega (arith, a.at_count);
        producer_rests = a.producer_rests;
        consumer_rests = refl;
      },
    ),
  )

  -- One step between calls.
  one_move :
      {s t : System redis} {users : List Remote} {product : Product} {consum : Consum}
      {msg : Message} {b n : ℕ} {e : Event Message}
      → Step json s e t
      → At t users product consum msg b n
      → Leads s users product consum msg b n
  one_move {t = t} st a = (t, _, next st (here t), a)

  pub arrive_call :
      {s : System redis} {users : List Remote} {consum : Consum} {msg : Message} {b n : ℕ}
      (u : Remote) (c : ℕ) (bytes : List ℕ) {cmd : Message}
      → length (c ∷ bytes) < 1024
      → json.field (codes "cmd") (c_str (c ∷ bytes)) ≡ some cmd
      → At s users receives consum msg b n
      → Leads s
          (register cmd u users)
          (wants (c_str (c ∷ bytes)) decides)
          (freed (register cmd u users) consum)
          (c_str (c ∷ bytes))
          b
          n
  arrive_call u c bytes {cmd} fits e a =
      one_move (arrives u c bytes a.at_product (received-fits c bytes fits) e) (record {
        at_users = ap (register cmd u) a.at_users;
        at_product = refl;
        at_consum =
            ap₂ (λ (us : List Remote) (c : Consum). freed (register cmd u us) c) a.at_users
              a.at_consum;
        at_msg = refl;
        at_blank = a.at_blank;
        at_count = a.at_count;
        producer_rests = a.producer_rests;
        consumer_rests = a.consumer_rests;
      })

  pub look_call :
      {s : System redis} {users : List Remote} {product : Product} {msg : Message} {b n : ℕ}
      → At s users product outside msg b n
      → Leads s users product (begin users) msg b n
  look_call a = one_move (looks a.at_consum) (record {
    at_users = a.at_users;
    at_product = a.at_product;
    at_consum = ap begin a.at_users;
    at_msg = a.at_msg;
    at_blank = a.at_blank;
    at_count = a.at_count;
    producer_rests = a.producer_rests;
    consumer_rests = a.consumer_rests;
  })

  pub send_call :
      {s : System redis} {users : List Remote} {product : Product} {u : Remote} {m msg : Message}
      {b n : ℕ}
      → At s users product (sends u true m) msg b n
      → Leads s users product (holds u true) msg b n
  send_call {u = u} {m} a = one_move (sends_to u m true a.at_consum) (record {
    at_users = a.at_users;
    at_product = a.at_product;
    at_consum = refl;
    at_msg = a.at_msg;
    at_blank = a.at_blank;
    at_count = a.at_count;
    producer_rests = a.producer_rests;
    consumer_rests = a.consumer_rests;
  })

  pub save_call :
      {s : System redis} {users : List Remote} {consum : Consum} {msg body : Message} {b n : ℕ}
      → Keeps redis
      → no_nul msg ≡ true
      → json.field (codes "msg") msg ≡ some body
      → str_eq (codes "LOAD") body ≡ false
      → At s users decides consum msg b n
      → Leads s users receives consum msg b n
  save_call {s} k clean f l a =
      one_move
        (saves a.at_product (ap (json.field (codes "msg")) a.at_msg ∙ f) l
          (save-returns redis k s.msg s.server s.db (ap no_nul a.at_msg ∙ clean)))
        (record {
          at_users = a.at_users;
          at_product = refl;
          at_consum = a.at_consum;
          at_msg = a.at_msg;
          at_blank = a.at_blank;
          at_count = a.at_count;
          producer_rests = a.producer_rests;
          consumer_rests = a.consumer_rests;
        })

  pub start-At : (slots : ℕ) (db : redis.Db) → At (start slots db) [] receives outside [] 1024 0
  start-At slots db = record {
    at_users = refl;
    at_product = refl;
    at_consum = refl;
    at_msg = refl;
    at_blank = refl;
    at_count = refl;
    producer_rests = refl;
    consumer_rests = refl;
  }

  -- One run after the other.
  pub then_by :
      {s : System redis} {users users' : List Remote} {product product' : Product}
      {consum consum' : Consum} {msg msg' : Message} {b b' n n' : ℕ}
      → Leads s users product consum msg b n
      → ((t : System redis)
          → At t users product consum msg b n
          → Leads t users' product' consum' msg' b' n')
      → Leads s users' product' consum' msg' b' n'
  then_by (t, es, r, a) f = let (q, fs, r', a') = f t a in (q, es ++ fs, run_append r r', a')
