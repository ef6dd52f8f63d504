-- ===== src/LinuxChat/System/Order.antt =====
-- What the server of LinuxChat/server/ sends, in whatever way its threads interleave.
use network_code.Base.{
  ℕ, ◌≤◌, ◌≡◌, refl, sym, ap, ◌∙◌, Bool, true, false, List, [], ◌∷◌, ◌++◌, append_assoc, append-nil,
  if◌then◌else◌,
}
use mathlib.Core.Path.{subst}
use network_code.Fifo.{
  Event, nothing, enters, leaves, idle, QueueRun, done, step, entered, left, run_in_order,
}
use network_code.LinuxChat.Ring.{Message, Pool, get_take}
use network_code.LinuxChat.Ring.Held.{Held}
use network_code.LinuxChat.Ring.Threads.{
  put_begins, put_stores, put_ends, get_begins, get_takes, get_ends, Inv,
}
use network_code.LinuxChat.Ring.Refine.{Refined, refines_once, start-Inv}
use network_code.LinuxChat.Redis.{Redis}
use network_code.LinuxChat.Server.{Json, Remote, register}
use network_code.LinuxChat.System.Save.{save-keeps}
use network_code.LinuxChat.System.{
  Consum, outside, holds, claims, took, sends, faulted, System, ring, start, freed, begin, Step,
  misses, arrives, begins_put, stores, ends_put, loads, saves, load_next, load_done, looks,
  begins_get, takes, ends_get, sends_to, dangles, Run, here, next,
}

-- The message taken from the ring and not yet given to `sendto`.
abbrev pub in_hand : Consum → List Message
in_hand outside = []
in_hand (holds u alive) = []
in_hand (claims u alive) = []
in_hand (took u alive m) = m ∷ []
in_hand (sends u alive m) = m ∷ []
in_hand (faulted u m) = m ∷ []

-- What was given to `sendto`, without the users.
abbrev pub texts : List (Remote × Message) → List Message
texts [] = []
texts ((u, m) ∷ l) = m ∷ texts l

abbrev pub gone : {redis : Redis} → System redis → List Message
gone s = texts s.server.sent ++ in_hand s.consum

texts-append :
    (l : List (Remote × Message)) (u : Remote) (m : Message)
    → texts (l ++ ((u, m) ∷ [])) ≡ texts l ++ (m ∷ [])
texts-append [] u m = refl
texts-append ((v, n) ∷ l) u m = ap (λ (r : List Message). n ∷ r) (texts-append l u m)

in_hand-freed : (us : List Remote) (c : Consum) → in_hand (freed us c) ≡ in_hand c
in_hand-freed us outside = refl
in_hand-freed us (holds v alive) = refl
in_hand-freed us (claims v alive) = refl
in_hand-freed us (took v alive m) = refl
in_hand-freed us (sends v alive m) = refl
in_hand-freed us (faulted v m) = refl

in_hand-begin : (us : List Remote) → in_hand (begin us) ≡ []
in_hand-begin [] = refl
in_hand-begin (u ∷ us) = refl

in_hand-after : (ok : Bool) (u : Remote) → in_hand (if ok then holds u true else outside) ≡ []
in_hand-after true u = refl
in_hand-after false u = refl

left-cons :
    (e : Event Message) (es : List (Event Message)) → left (e ∷ []) ++ left es ≡ left (e ∷ es)
left-cons nothing es = refl
left-cons (enters m) es = refl
left-cons (leaves m) es = refl

-- A step that takes nothing from the ring and gives nothing to `sendto`.
same_hand :
    {redis : Redis} (s : System redis) (c : Consum)
    → in_hand c ≡ in_hand s.consum
    → texts s.server.sent ++ in_hand c ≡ gone s ++ []
same_hand s c e = ap (λ (l : List Message). texts s.server.sent ++ l) e ∙ sym (append-nil (gone s))

module _ {redis : Redis} {json : Json} where
  Step-refines :
      {cap : ℕ} {s t : System redis} {e : Event Message} (ms : List Message)
      → Step json s e t
      → Inv cap (ring s) ms
      → Refined cap ms e (ring t)
  Step-refines ms (misses p) v = (ms, v, idle)
  Step-refines ms (arrives u b bytes p r c) v = (ms, v, idle)
  Step-refines ms (begins_put m k p r w) v = refines_once ms (put_begins m r w) v
  Step-refines ms (stores m r) v = refines_once ms (put_stores m r) v
  Step-refines ms (ends_put k p r) v = refines_once ms (put_ends r) v
  Step-refines ms (loads p f l) v = (ms, v, idle)
  Step-refines {cap} {s} ms (saves {v = w} {db} p f l e) v = (
    ms,
    subst (λ (q : Pool). Inv cap (record (ring s) { pool = q }) ms)
        (sym (save-keeps redis s.msg s.server w s.db db e).0) v,
    idle,
  )
  Step-refines ms (load_next key keys p g) v = (ms, v, idle)
  Step-refines ms (load_done p) v = (ms, v, idle)
  Step-refines ms (looks c) v = (ms, v, idle)
  Step-refines ms (begins_get u alive c r w) v = refines_once ms (get_begins r w) v
  Step-refines ms (takes u alive c r) v = refines_once ms (get_takes r) v
  Step-refines ms (ends_get u alive m c r) v = refines_once ms (get_ends r) v
  Step-refines ms (sends_to u m ok c) v = (ms, v, idle)
  Step-refines ms (dangles u m c) v = (ms, v, idle)

  Step-gone :
      {s t : System redis} {e : Event Message} → Step json s e t → gone t ≡ gone s ++ left (e ∷ [])
  Step-gone {s} (misses p) = same_hand s s.consum refl
  Step-gone {s} (arrives u b bytes {cmd = cmd} p r c) =
      let users : List Remote = register cmd u s.server.userlist in
      same_hand s (freed users s.consum) (in_hand-freed users s.consum)
  Step-gone {s} (begins_put m k p r w) = same_hand s s.consum refl
  Step-gone {s} (stores m r) = same_hand s s.consum refl
  Step-gone {s} (ends_put k p r) = same_hand s s.consum refl
  Step-gone {s} (loads p f l) = same_hand s s.consum refl
  Step-gone {s} (saves {v = w} {db} p f l e) =
      ap (λ (l : List (Remote × Message)). texts l ++ in_hand s.consum)
        (save-keeps redis s.msg s.server w s.db db e).1
      ∙ same_hand s s.consum refl
  Step-gone {s} (load_next key keys p g) = same_hand s s.consum refl
  Step-gone {s} (load_done p) = same_hand s s.consum refl
  Step-gone {s} (looks c) =
      same_hand s (begin s.server.userlist) (in_hand-begin s.server.userlist ∙ sym (ap in_hand c))
  Step-gone {s} (begins_get u alive c r w) = same_hand s (claims u alive) (sym (ap in_hand c))
  Step-gone {s} (takes u alive c r) =
      ap (λ (l : List Message). l ++ ((get_take s.server.pool).0 ∷ []))
        (sym (append-nil (texts s.server.sent))
          ∙ ap (λ (l : List Message). texts s.server.sent ++ l) (sym (ap in_hand c)))
  Step-gone {s} (ends_get u alive m c r) = same_hand s (sends u alive m) (sym (ap in_hand c))
  Step-gone {s} (sends_to u m ok c) =
      ap (λ (l : List Message). texts (s.server.sent ++ ((u, m) ∷ [])) ++ l) (in_hand-after ok u)
      ∙ append-nil (texts (s.server.sent ++ ((u, m) ∷ [])))
      ∙ texts-append s.server.sent u m
      ∙ same_hand s (took u true m) (sym (ap in_hand c))
  Step-gone {s} (dangles u m c) = same_hand s (faulted u m) (sym (ap in_hand c))

  Run-refines :
      {cap : ℕ} {s t : System redis} {es : List (Event Message)} (ms : List Message)
      → Run json s es t
      → Inv cap (ring s) ms
      → (ns : List Message) × Inv cap (ring t) ns
        × QueueRun cap ms es ns
        × (gone t ≡ gone s ++ left es)
  Run-refines ms (here s) v = (ms, v, done ms, sym (append-nil (gone s)))
  Run-refines {s} ms (next {t = t} {e = e} {es} st r) v =
      let (ns, w, q) = Step-refines ms st v in
      let (us, x, run, g) = Run-refines ns r w in
      (
        us,
        x,
        step q run,
        g
            ∙ ap (λ (l : List Message). l ++ left es) (Step-gone st)
            ∙ append_assoc (gone s) (left (e ∷ [])) (left es)
            ∙ ap (λ (l : List Message). gone s ++ l) (left-cons e es),
      )

-- However the two threads of the server interleave, the ring is a first-in first-out queue of 1024
-- messages, and the messages stored in it are, in order and each once, those given to `sendto`, the one
-- that `broadCast` holds if it holds one, and those still in the ring. The ring has at least 1024
-- elements.
pub server_in_order :
    (redis : Redis) (json : Json) (slots : ℕ) (db : redis.Db) {t : System redis}
    {es : List (Event Message)}
    → 1024 ≤ slots
    → Run json (start slots db) es t
    → (ms : List Message) × Held 1024 t.server.pool.pool t.server.pool.consum_step ms
      × QueueRun 1024 [] es ms
      × (entered es ≡ (texts t.server.sent ++ in_hand t.consum) ++ ms)
server_in_order redis json slots db h r =
    let (ms, v, q, g) = Run-refines [] r (start-Inv slots h) in
    (ms, v.held, q, run_in_order q ∙ ap (λ (l : List Message). l ++ ms) (sym g))
