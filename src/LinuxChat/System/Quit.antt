-- ===== src/LinuxChat/System/Quit.antt =====
-- What a user that quits does to `broadCast` of LinuxChat/server/udpServer.cpp.
use network_code.Base.{
  ℕ, ◌<◌, ◌≡◌, refl, Bool, true, false, some, List, [], ◌∷◌, arith, codes, str_eq, c_str, length,
}
use mathlib.Core.Path.{subst}
use network_code.Fifo.{Event}
use network_code.LinuxChat.Ring.{Message}
use network_code.LinuxChat.Redis.{Redis, Keeps}
use network_code.LinuxChat.Server.{Json, Remote, quits, register, insert_user, erase_user}
use network_code.LinuxChat.Deliver.{no_nul-c_str}
use network_code.LinuxChat.System.{
  receives, decides, Consum, holds, sends, faulted, System, start, still, begin, dangles, Run, here,
  next,
}
use network_code.LinuxChat.System.Calls.{
  At, Leads, run_append, put_call, get_call, arrive_call, look_call, send_call, save_call, start-At,
  then_by,
}

first_in_map :
    (cmd : Message) (u : Remote) → quits cmd ≡ false → begin (register cmd u []) ≡ holds u true
unfolding register insert_user
first_in_map cmd u q = ground (arith, q)

-- A QUIT from the one user.
freed_at_quit :
    (cmd quit : Message) (u : Remote)
    → quits cmd ≡ false
    → quits quit ≡ true
    → still (register quit u (register cmd u [])) u true ≡ false
unfolding register insert_user erase_user
freed_at_quit cmd quit u e q = ground (arith, e, q)

module _ {redis : Redis} (json : Json) where
  -- After a first message of a user the iterator is at this user.
  greets :
      (slots : ℕ) (db : redis.Db) (u : Remote) (c : ℕ) (hello : List ℕ) {cmd body : Message}
      → Keeps redis
      → length (c ∷ hello) < 1024
      → json.field (codes "cmd") (c_str (c ∷ hello)) ≡ some cmd
      → quits cmd ≡ false
      → json.field (codes "msg") (c_str (c ∷ hello)) ≡ some body
      → str_eq (codes "LOAD") body ≡ false
      → Leads json
          (start {redis = redis} slots db)
          (register cmd u [])
          receives
          (holds u true)
          (c_str (c ∷ hello))
          1024
          0
  greets slots db u c hello {cmd} k fits e q f l =
      then_by json (arrive_call json u c hello fits e (start-At json slots db)) λ t1 a1.
        then_by json (put_call json {b = 1023} (c_str (c ∷ hello)) a1) λ t2 a2.
          then_by json (save_call json k (no_nul-c_str (c ∷ hello)) f l a2) λ t3 a3.
            then_by json
              (subst
                (λ (at : Consum).
                  Leads json t3 (register cmd u []) receives at (c_str (c ∷ hello)) 1023 1)
                (first_in_map cmd u q) (look_call json a3))
              λ t4 a4. then_by json (get_call json u true a4).1 λ t5 a5. send_call json a5

  -- A QUIT from the user that the iterator is at.
  quits_there :
      {s : System redis} {msg : Message} (u : Remote) (c : ℕ) (bye : List ℕ) (cmd : Message)
      {quit : Message}
      → length (c ∷ bye) < 1024
      → json.field (codes "cmd") (c_str (c ∷ bye)) ≡ some quit
      → quits quit ≡ true
      → quits cmd ≡ false
      → At json s (register cmd u []) receives (holds u true) msg 1024 0
      → (m : Message) × Leads json s
          (register quit u (register cmd u []))
          decides
          (sends u false m)
          (c_str (c ∷ bye))
          1024
          0
  quits_there u c bye cmd {quit} fits e q e0 a =
      let (t1, es1, r1, a1) = arrive_call json u c bye fits e a in
      let (t2, es2, r2, a2) = put_call json {b = 1023} (c_str (c ∷ bye)) a1 in
      let (m, (t3, es3, r3, a3)) =
        get_call json u (still (register quit u (register cmd u [])) u true) a2 in
      (
        m,
        (
          t3,
          _,
          run_append json r1 (run_append json r2 r3),
          subst
              (λ (alive : Bool).
                At json t3 (register quit u (register cmd u [])) decides (sends u alive m)
                  (c_str (c ∷ bye)) 1024 0)
              (freed_at_quit cmd quit u e0 q) a3,
        ),
      )

-- For every user and every two texts of at most 1023 bytes, of which the first says neither QUIT nor
-- LOAD and the second says QUIT, a new server has a run to a state in which `sendto` has read the element
-- of this user after it was freed. Redis answers every command.
pub quit-dangles :
    (redis : Redis) (k : Keeps redis) (json : Json) (slots : ℕ) (db : redis.Db) (u : Remote) (b : ℕ)
    (hello : List ℕ) (d : ℕ) (bye : List ℕ) {cmd body quit : Message}
    → length (b ∷ hello) < 1024
    → length (d ∷ bye) < 1024
    → json.field (codes "cmd") (c_str (b ∷ hello)) ≡ some cmd
    → quits cmd ≡ false
    → json.field (codes "msg") (c_str (b ∷ hello)) ≡ some body
    → str_eq (codes "LOAD") body ≡ false
    → json.field (codes "cmd") (c_str (d ∷ bye)) ≡ some quit
    → quits quit ≡ true
    → (t : System redis) × (es : List (Event Message)) × (m : Message) × Run json
        (start {redis = redis} slots db)
        es
        t
      × (t.consum ≡ faulted u m)
quit-dangles redis k json slots db u b hello d bye {cmd} fits fits' e q f l e' q' =
    let (t1, es1, r1, a1) = greets json slots db u b hello k fits e q f l in
    let (m, (t2, es2, r2, a2)) = quits_there json u d bye cmd fits' e' q' q a1 in
    (
      _,
      _,
      m,
      run_append json r1 (run_append json r2 (next (dangles u m a2.at_consum) (here _))),
      refl,
    )
