-- ===== src/Pool/Refine.antt =====
-- The pool of Thread_pool/thread_pool.c as a first-in first-out queue of tasks.
use network_code.Base.{
  ℕ, ◌≤◌, ◌≡◌, refl, sym, ap, ◌∙◌, List, [], ◌∷◌, ◌++◌, append_assoc, length, length-append, arith,
}
use mathlib.Core.Path.{subst}
use network_code.Fifo.{
  Event, nothing, enters, leaves, QueueStep, idle, arrive, depart, QueueRun, done, step,
}
use network_code.Pool.Tasks.{Task}
use network_code.Pool.Tasks.Segment.{Holds, tasks_of}
use network_code.Pool.Worker.{Pc, at_top, waiting, running, exited}
use network_code.Pool.System.{System, began, Step, move, add, destroy, join, Reach, here, next}
use network_code.Pool.Invariant.{Reach-Inv}

-- A worker that begins a task takes it out of the queue.
abbrev pub taken_by : Pc → Event Task
taken_by at_top = nothing
taken_by waiting = nothing
taken_by (running a t timeout) = leaves t
taken_by exited = nothing

-- What a step shows of the queue.
abbrev pub shown : {s t : System} → Step s t → Event Task
shown (move i {o = o} e m) = taken_by o.pc
shown (add t created own e) = enters t
shown (destroy own) = nothing
shown (join own) = nothing

-- What a run shows, from its first step on.
abbrev pub events : {threads : ℕ} {s : System} → Reach threads s → List (Event Task)
events here = []
events (next r st) = events r ++ (shown st ∷ [])

run_snoc :
    {cap : ℕ} {q r t : List Task} {es : List (Event Task)} {e : Event Task}
    → QueueRun cap q es r
    → QueueStep cap r e t
    → QueueRun cap q (es ++ (e ∷ [])) t
run_snoc (done q) st = step st (done _)
run_snoc (step first run) st = step first (run_snoc run st)

cons-injective : {x y : Task} {s t : List Task} → x ∷ s ≡ y ∷ t → s ≡ t
cons-injective e = cc

append-cancel : (s : List Task) {t u : List Task} → s ++ t ≡ s ++ u → t ≡ u
append-cancel [] e = e
append-cancel (x ∷ s) e = append-cancel s (cons-injective e)

taken-QueueStep :
    (cap : ℕ) (pc : Pc) (q r : List Task) → q ≡ began pc ++ r → QueueStep cap q (taken_by pc) r
taken-QueueStep cap at_top q r e = subst (λ (l : List Task). QueueStep cap l nothing r) (sym e) idle
taken-QueueStep cap waiting q r e =
    subst (λ (l : List Task). QueueStep cap l nothing r) (sym e) idle
taken-QueueStep cap (running a t timeout) q r e = depart t r e
taken-QueueStep cap exited q r e = subst (λ (l : List Task). QueueStep cap l nothing r) (sym e) idle

-- The queue that a run has gone to.
abbrev Goes : {threads : ℕ} {s : System} → ℕ → Reach threads s → Type 0
Goes {threads} {s} cap r =
    (q : List Task) × QueueRun cap [] (events r) q × (s.started ++ q ≡ s.added)

events-Goes :
    {threads : ℕ} {s : System} (cap : ℕ) (r : Reach threads s) → length s.added ≤ cap → Goes cap r
events-Goes cap here h = ([], done [], refl)
events-Goes cap (next {s} r (move i {o = o} e m)) h =
    let (q, run, order) = events-Goes cap r h in
    let (lo, xs, v) = Reach-Inv (next r (move i e m)) in
    let same : q ≡ began o.pc ++ tasks_of xs =
      append-cancel s.started
        (order ∙ sym v.order ∙ append_assoc s.started (began o.pc) (tasks_of xs)) in
    (tasks_of xs, run_snoc run (taken-QueueStep cap o.pc q (tasks_of xs) same), v.order)
events-Goes cap (next {s} r (add t created own e)) h =
    let (q, run, order) =
      events-Goes cap r (omega (arith, length-append {0} s.added (t ∷ []), h)) in
    (
      q ++ (t ∷ []),
      run_snoc run (
          arrive t (
            omega (
              arith,
              length-append {0} s.added (t ∷ []),
              h,
              length-append {0} s.started q,
              ap length order,
            ))),
      sym (append_assoc s.started q (t ∷ [])) ∙ ap (λ (l : List Task). l ++ (t ∷ [])) order,
    )
events-Goes cap (next r (destroy own)) h =
    let (q, run, order) = events-Goes cap r h in (q, run_snoc run idle, order)
events-Goes cap (next r (join own)) h =
    let (q, run, order) = events-Goes cap r h in (q, run_snoc run idle, order)

-- Every interleaving of the workers and the owner is a run of a first-in first-out queue, step by
-- step: `threadPool_addtask` puts its task in, a worker that begins a task takes it out, every other
-- region leaves the queue as it is, and what the queue then holds is what the linked list holds. The
-- queue is one for as many tasks as were added.
pub pool_refines_queue :
    {threads : ℕ} {s : System} (r : Reach threads s)
    → (lo : ℕ) × (xs : List (ℕ × Task)) × Holds s.pool.tasks lo xs
      × QueueRun (length s.added) [] (events r) (tasks_of xs)
pool_refines_queue {threads} {s} r =
    let (q, run, order) = events-Goes (length s.added) r (omega arith) in
    let (lo, xs, v) = Reach-Inv r in
    (
      lo,
      xs,
      v.holds,
      subst (λ (l : List Task). QueueRun (length s.added) [] (events r) l)
          (append-cancel s.started (order ∙ sym v.order)) run,
    )
