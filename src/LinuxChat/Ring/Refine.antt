-- ===== src/LinuxChat/Ring/Refine.antt =====
-- The ring of LinuxChat/pool/pool.cpp is a bounded queue for its two threads.
use network_code.Base.{
  ℕ, ◌+◌, ◌-◌, ◌%◌, ◌<◌, ◌≤◌, ◌≡◌, ◌≢◌, refl, sym, ap, ◌∙◌, some, List, [], ◌∷◌, ◌++◌, arith,
  length, length-append, length-set, ltb, length-replicate, Bool-cases, inl, inr,
}
use mathlib.Core.Path.{subst}
use native.Mathlib.Nat.{mod-lt}
use network_code.Fifo.{
  Event, leaves, QueueStep, idle, arrive, depart, QueueRun, done, step, entered, left, run_in_order,
}
use network_code.LinuxChat.Ring.{
  Message, Pool, put_wait, put_store, put_post, get_wait, get_take, get_post,
}
use network_code.LinuxChat.Ring.Held.{
  ahead, Held, ahead-ne, ahead-lt, ahead-next, Held-set, get_or-first,
}
use network_code.LinuxChat.Ring.Threads.{
  Producer, may_store, has_stored, Consumer, may_take, has_taken, Threads, Step, put_begins,
  put_stores, put_ends, get_begins, get_takes, get_ends, Run, here, next, start, Inv,
}

-- What a step does to the messages that are held.
abbrev pub Refined : ℕ → List Message → Event Message → Threads → Type 0
Refined cap ms e t = (ns : List Message) × Inv cap t ns × QueueStep cap ms e ns

put_wait-some :
    (p q : Pool) → put_wait p ≡ some q → (0 < p.blank) × (record p { blank = p.blank - 1 } ≡ q)
unfolding put_wait
put_wait-some p q w = elim (Bool-cases (ltb 0 p.blank)) [
  | inl b ↦ (ground arith, cc)
  | inr b ↦ absurd (cc)
]

get_wait-some :
    (p q : Pool)
    → get_wait p ≡ some q
    → (0 < p.data_count) × (record p { data_count = p.data_count - 1 } ≡ q)
unfolding get_wait
get_wait-some p q w = elim (Bool-cases (ltb 0 p.data_count)) [
  | inl b ↦ (ground arith, cc)
  | inr b ↦ absurd (cc)
]

module _ (cap : ℕ) (s : Threads) (ms : List Message) (v : Inv cap s ms) where
  put_begins-Inv :
      (m : Message) (p : Pool)
      → s.producer ≡ Producer.rests
      → put_wait s.pool ≡ some p
      → Inv cap (record s { pool = p; producer = may_store m }) ms
  put_begins-Inv m p e w =
      let (pos, same) = put_wait-some s.pool p w in
      subst (λ (q : Pool). Inv cap (record s { pool = q; producer = may_store m }) ms) same
        (record {
          same_cap = v.same_cap;
          slots = v.slots;
          in_range = v.in_range;
          next_slot = v.next_slot;
          held = v.held;
          count = ground arith;
          tokens = ground arith;
        })

  put_stores-Inv :
      (m : Message)
      → s.producer ≡ may_store m
      → Inv cap (record s { pool = put_store m s.pool; producer = has_stored }) (ms ++ (m ∷ []))
        × (length ms < cap)
  unfolding put_store
  put_stores-Inv m e =
      let room : length ms < cap = ground arith in
      (
        record {
          same_cap = v.same_cap;
          slots = omega (arith, length-set s.pool.pool s.pool.product_step m, v.slots);
          in_range = v.in_range;
          next_slot =
              ap (λ (c : ℕ). (s.pool.product_step + 1) % c) v.same_cap
              ∙ ap (λ (k : ℕ). (k + 1) % cap) v.next_slot
              ∙ sym (ahead-next cap (length ms) s.pool.consum_step v.in_range)
              ∙ ap (λ (n : ℕ). ahead cap n s.pool.consum_step) (sym (length-append ms (m ∷ [])));
          held =
              Held-set cap s.pool.pool s.pool.consum_step ms s.pool.product_step m v.slots
                v.in_range room v.next_slot v.held;
          count = ground (arith, length-append ms (m ∷ []));
          tokens = ground arith;
        },
        room,
      )

  put_ends-Inv :
      s.producer ≡ has_stored
      → Inv cap (record s { pool = put_post s.pool; producer = Producer.rests }) ms
  unfolding put_post
  put_ends-Inv e = record {
    same_cap = v.same_cap;
    slots = v.slots;
    in_range = v.in_range;
    next_slot = v.next_slot;
    held = v.held;
    count = ground arith;
    tokens = ground arith;
  }

  get_begins-Inv :
      (p : Pool)
      → s.consumer ≡ Consumer.rests
      → get_wait s.pool ≡ some p
      → Inv cap (record s { pool = p; consumer = may_take }) ms
  get_begins-Inv p e w =
      let (pos, same) = get_wait-some s.pool p w in
      subst (λ (q : Pool). Inv cap (record s { pool = q; consumer = may_take }) ms) same
        (record {
          same_cap = v.same_cap;
          slots = v.slots;
          in_range = v.in_range;
          next_slot = v.next_slot;
          held = v.held;
          count = ground arith;
          tokens = ground arith;
        })

  get_ends-Inv :
      s.consumer ≡ has_taken
      → Inv cap (record s { pool = get_post s.pool; consumer = Consumer.rests }) ms
  unfolding get_post
  get_ends-Inv e = record {
    same_cap = v.same_cap;
    slots = v.slots;
    in_range = v.in_range;
    next_slot = v.next_slot;
    held = v.held;
    count = ground arith;
    tokens = ground arith;
  }

get_takes-Refined :
    (cap : ℕ) (s : Threads) (ms : List Message)
    → Inv cap s ms
    → s.consumer ≡ may_take
    → Refined cap ms
        (leaves (get_take s.pool).0)
        (record s { pool = (get_take s.pool).1; consumer = has_taken })
unfolding get_take
get_takes-Refined cap s [] v e = absurd (ground arith)
get_takes-Refined cap s (m ∷ ms) v e = (
  ms,
  record {
    same_cap = v.same_cap;
    slots = v.slots;
    in_range = rw (v.same_cap) (mod-lt (s.pool.consum_step + 1) (omega (arith, v.in_range)));
    next_slot =
        v.next_slot
        ∙ ap (λ (c : ℕ). ahead cap (length ms) ((s.pool.consum_step + 1) % c)) (sym v.same_cap);
    held =
        subst (λ (c : ℕ). Held cap s.pool.pool ((s.pool.consum_step + 1) % c) ms) (sym v.same_cap)
          v.held.1;
    count = ground arith;
    tokens = ground arith;
  },
  depart _ ms
      (ap (λ (x : Message). x ∷ ms) (sym (get_or-first s.pool.pool s.pool.consum_step m v.held.0))),
)

pub refines_once :
    {cap : ℕ} {s t : Threads} {e : Event Message} (ms : List Message)
    → Step s e t
    → Inv cap s ms
    → Refined cap ms e t
refines_once {cap} {s} ms (put_begins m {p} e w) v = (ms, put_begins-Inv cap s ms v m p e w, idle)
refines_once {cap} {s} ms (put_stores m e) v =
    let (v', room) = put_stores-Inv cap s ms v m e in (ms ++ (m ∷ []), v', arrive m room)
refines_once {cap} {s} ms (put_ends e) v = (ms, put_ends-Inv cap s ms v e, idle)
refines_once {cap} {s} ms (get_begins {p} e w) v = (ms, get_begins-Inv cap s ms v p e w, idle)
refines_once {cap} {s} ms (get_takes e) v = get_takes-Refined cap s ms v e
refines_once {cap} {s} ms (get_ends e) v = (ms, get_ends-Inv cap s ms v e, idle)

pub run_refines :
    {cap : ℕ} {s t : Threads} {es : List (Event Message)} (ms : List Message)
    → Run s es t
    → Inv cap s ms
    → (ns : List Message) × Inv cap t ns × QueueRun cap ms es ns
run_refines ms (here s) v = (ms, v, done ms)
run_refines ms (next st r) v =
    let (ns, w, q) = refines_once ms st v in
    let (us, x, run) = run_refines ns r w in (us, x, step q run)

pub start-Inv : (slots : ℕ) → 1024 ≤ slots → Inv 1024 (start slots) []
start-Inv slots h = record {
  same_cap = refl;
  slots = omega (arith, length-replicate {A = Message} slots []);
  in_range = omega arith;
  next_slot = refl;
  held = tt;
  count = refl;
  tokens = refl;
}

-- Every run of the two threads, however they interleave, is a run of a first-in first-out queue of
-- 1024 messages: the messages are taken in the order in which they were stored, each once, and those
-- not taken yet stand in the ring. No access is outside the array. The array has at least 1024
-- elements, which the constructor does not ensure.
pub ring_refines_queue :
    (slots : ℕ) {t : Threads} {es : List (Event Message)}
    → 1024 ≤ slots
    → Run (start slots) es t
    → (ms : List Message) × Held 1024 t.pool.pool t.pool.consum_step ms
      × QueueRun 1024 [] es ms
      × (entered es ≡ left es ++ ms)
      × (t.pool.product_step < length t.pool.pool)
      × (t.pool.consum_step < length t.pool.pool)
ring_refines_queue slots {t} h r =
    let (ms, v, q) = run_refines [] r (start-Inv slots h) in
    (
      ms,
      v.held,
      q,
      run_in_order q,
      omega (arith, v.next_slot, v.slots, ahead-lt 1024 (length ms) t.pool.consum_step v.in_range),
      omega (arith, v.in_range, v.slots),
    )

-- The two threads never access the same slot at the same time: while the producer may store and the
-- consumer may take, their slots differ, though no lock guards the array, if that has at least 1024
-- elements.
pub slots_differ :
    (slots : ℕ) {t : Threads} {es : List (Event Message)} (m : Message)
    → 1024 ≤ slots
    → Run (start slots) es t
    → t.producer ≡ may_store m
    → t.consumer ≡ may_take
    → t.pool.product_step ≢ t.pool.consum_step
slots_differ slots {t} m h r p c same =
    let (ms, v, q) = run_refines [] r (start-Inv slots h) in
    ahead-ne 1024 (length ms) t.pool.consum_step v.in_range (ground arith) (ground arith)
      (sym v.next_slot ∙ same)
