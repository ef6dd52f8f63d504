-- ===== src/LinuxChat/System/Full.antt =====
-- What datagrams that say QUIT do to the ring of LinuxChat/server/ while there is no user.
use network_code.Base.{
  ℕ, zero, suc, ◌+◌, ◌<◌, ◌≡◌, refl, ap, ◌∙◌, true, false, none, some, List, [], ◌∷◌, arith, codes,
  str_eq, c_str, length,
}
use mathlib.Core.Path.{subst}
use network_code.Fifo.{Event}
use network_code.LinuxChat.Ring.{Message, Pool, put_wait}
use network_code.LinuxChat.Ring.Threads.{Producer}
use network_code.LinuxChat.Redis.{Redis, Keeps}
use network_code.LinuxChat.Server.{Json, Remote, quits, register, erase_user}
use network_code.LinuxChat.Deliver.{no_nul-c_str}
use network_code.LinuxChat.System.{
  Product, receives, wants, decides, outside, System, start, begin, Step, misses, arrives,
  begins_put, stores, ends_put, loads, saves, load_next, load_done, looks, begins_get, takes,
  ends_get, sends_to, dangles, Run, here, next,
}
use network_code.LinuxChat.System.Calls.{
  At, Leads, put_call, arrive_call, save_call, start-At, then_by,
}

-- A QUIT where nobody is registered.
register-nobody : (cmd : Message) (u : Remote) → quits cmd ≡ true → register cmd u [] ≡ []
unfolding register erase_user
register-nobody cmd u q = ground (arith, q)

put_wait-full : (p : Pool) → p.blank ≡ 0 → put_wait p ≡ none
unfolding put_wait
put_wait-full p h = ground (arith, h)

-- The producer waits for room in the ring, the consumer is outside `broadCast`, and there is no user.
pub record Stuck {redis : Redis} (s : System redis) (m : Message) (k : Product) : Type 0 where
  pub product_wants : s.product ≡ wants m k
  pub producer_waits : s.producer ≡ Producer.rests
  pub no_room : s.server.pool.blank ≡ 0
  pub nobody : s.server.userlist ≡ []
  pub consum_outside : s.consum ≡ outside

module _ {redis : Redis} {json : Json} where
  Step-Stuck :
      {s t : System redis} {e : Event Message} {m : Message} {k : Product}
      → Step json s e t
      → Stuck s m k
      → (t.server ≡ s.server) × Stuck t m k
  Step-Stuck (misses p) v = let w = v.product_wants in absurd (cc)
  Step-Stuck (arrives u b bytes p r c) v = let w = v.product_wants in absurd (cc)
  Step-Stuck {s} (begins_put m k p r w) v =
      let full = put_wait-full s.server.pool v.no_room in absurd (cc)
  Step-Stuck (stores m r) v = let w = v.producer_waits in absurd (cc)
  Step-Stuck (ends_put k p r) v = let w = v.producer_waits in absurd (cc)
  Step-Stuck (loads p f l) v = let w = v.product_wants in absurd (cc)
  Step-Stuck (saves p f l e) v = let w = v.product_wants in absurd (cc)
  Step-Stuck (load_next key keys p g) v = let w = v.product_wants in absurd (cc)
  Step-Stuck (load_done p) v = let w = v.product_wants in absurd (cc)
  Step-Stuck (looks c) v = (
    refl,
    record {
      product_wants = v.product_wants;
      producer_waits = v.producer_waits;
      no_room = v.no_room;
      nobody = v.nobody;
      consum_outside = ap begin v.nobody;
    },
  )
  Step-Stuck (begins_get u alive c r w) v = let o = v.consum_outside in absurd (cc)
  Step-Stuck (takes u alive c r) v = let o = v.consum_outside in absurd (cc)
  Step-Stuck (ends_get u alive m c r) v = let o = v.consum_outside in absurd (cc)
  Step-Stuck (sends_to u m ok c) v = let o = v.consum_outside in absurd (cc)
  Step-Stuck (dangles u m c) v = let o = v.consum_outside in absurd (cc)

  -- Once the producer waits for room while there is no user and the consumer is outside `broadCast`, the
  -- server is stuck: whatever the two threads do, the ring, the users, the list of keys and what was sent
  -- stay as they are, and the producer still waits.
  pub Run-Stuck :
      {s t : System redis} {es : List (Event Message)} {m : Message} {k : Product}
      → Run json s es t
      → Stuck s m k
      → (t.server ≡ s.server) × Stuck t m k
  Run-Stuck (here s) v = (refl, v)
  Run-Stuck (next st r) v = let (e, w) = Step-Stuck st v in let (f, x) = Run-Stuck r w in (f ∙ e, x)

module _ {redis : Redis} (json : Json) where
  -- A datagram that says QUIT where nobody is registered: it goes into the ring and is saved.
  quit_round :
      {s : System redis} {msg : Message} {b n : ℕ} (u : Remote) (c : ℕ) (bye : List ℕ)
      {quit body : Message}
      → Keeps redis
      → length (c ∷ bye) < 1024
      → json.field (codes "cmd") (c_str (c ∷ bye)) ≡ some quit
      → quits quit ≡ true
      → json.field (codes "msg") (c_str (c ∷ bye)) ≡ some body
      → str_eq (codes "LOAD") body ≡ false
      → At json s [] receives outside msg (suc b) n
      → Leads json s [] receives outside (c_str (c ∷ bye)) b (suc n)
  quit_round {s} {b = b} {n} u c bye k fits e q f l a =
      then_by json
        (subst
          (λ (us : List Remote).
            Leads json s us (wants (c_str (c ∷ bye)) decides) outside (c_str (c ∷ bye)) (suc b) n)
          (register-nobody _ u q) (arrive_call json u c bye fits e a))
        λ t1 a1.
          then_by json (put_call json {b = b} (c_str (c ∷ bye)) a1)
            λ t2 a2. save_call json k (no_nul-c_str (c ∷ bye)) f l a2

  quit_rounds :
      (slots : ℕ) (db : redis.Db) (u : Remote) (c : ℕ) (bye : List ℕ) {quit body : Message}
      → Keeps redis
      → length (c ∷ bye) < 1024
      → json.field (codes "cmd") (c_str (c ∷ bye)) ≡ some quit
      → quits quit ≡ true
      → json.field (codes "msg") (c_str (c ∷ bye)) ≡ some body
      → str_eq (codes "LOAD") body ≡ false
      → (n b : ℕ) → n + b ≡ 1024
      → (msg : Message) × Leads json (start {redis = redis} slots db) [] receives outside msg b n
  quit_rounds slots db u c bye k fits e q f l zero b sum =
      let same : 1024 ≡ b = omega (arith, sum) in
      (
        [],
        subst (λ (i : ℕ). Leads json (start {redis = redis} slots db) [] receives outside [] i 0)
            same (start {redis = redis} slots db, [], here _, start-At json slots db),
      )
  quit_rounds slots db u c bye k fits e q f l (suc n) b sum =
      let (msg, leads) =
        quit_rounds slots db u c bye k fits e q f l n (suc b) (omega (arith, sum)) in
      (c_str (c ∷ bye), then_by json leads λ t a. quit_round u c bye k fits e q f l a)

-- For every text of at most 1023 bytes that says QUIT and whose message is not LOAD, a new server has a
-- run to a state in which the producer waits with this text for room in the ring, there is no room, no
-- user is registered, and the consumer is outside `broadCast`. Redis answers every command.
pub quits_fill-Stuck :
    (redis : Redis) (k : Keeps redis) (json : Json) (slots : ℕ) (db : redis.Db) (u : Remote) (c : ℕ)
    (bye : List ℕ) {quit body : Message}
    → length (c ∷ bye) < 1024
    → json.field (codes "cmd") (c_str (c ∷ bye)) ≡ some quit
    → quits quit ≡ true
    → json.field (codes "msg") (c_str (c ∷ bye)) ≡ some body
    → str_eq (codes "LOAD") body ≡ false
    → (s : System redis) × (es : List (Event Message)) × Run json (start slots db) es s
      × Stuck s (c_str (c ∷ bye)) decides
quits_fill-Stuck redis k json slots db u c bye fits e q f l =
    let (msg, leads) = quit_rounds json slots db u c bye k fits e q f l 1024 0 refl in
    let (t, es, r, a) = then_by json leads (λ t a. arrive_call json u c bye fits e a) in
    (
      t,
      es,
      r,
      record {
        product_wants = a.at_product;
        producer_waits = a.producer_rests;
        no_room = a.at_blank;
        nobody = a.at_users ∙ register-nobody _ u q;
        consum_outside = a.at_consum;
      },
    )
