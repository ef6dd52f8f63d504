-- ===== src/Pool/Calm/Finish.antt =====
-- What `threadPool_destroy` of Thread_pool/thread_pool.c has waited for where no wait timed out.
use network_code.Base.{
  ℕ, ◌+◌, ◌≤◌, ◌<◌, ◌≡◌, refl, sym, ap, ◌∙◌, Bool, false, Option, none, some, List, [], ◌∷◌, ◌++◌,
  append-nil, arith,
}
use mathlib.Core.Path.{subst}
use network_code.Pool.Tasks.{Task, Tasks, append_task, free_task}
use network_code.Pool.Tasks.Segment.{Holds, tasks_of, take_task-Holds}
use network_code.Pool.Worker.{
  Pool, Pc, at_top, waiting, running, exited, Out, is_null, enter, wake, task_done, Added, appended,
  add_task, destroyed, destroy_enter,
}
use network_code.Pool.System.{
  System, Move, enters, wakes, ends, Step, move, add, destroy, join, Reach, here, next,
}
use network_code.Pool.Counts.{waits, lives, total, total_ge}
use network_code.Pool.Invariant.{Inv, Reach-Inv, Move-lives}
use network_code.Pool.Calm.{
  Punctual, AllPunctual, AllPunctual-set, AllPunctual-get, AllPunctual-after, Served, Good,
  finish-Served, finish-Punctual, test_wait-Good,
}

-- The wait of this region did not end by time.
abbrev pub InTime : {p : Pool} {pc : Pc} {o : Out} → Move p pc o → Type 0
InTime (enters e) = Unit {0}
InTime (wakes timed_out e) = timed_out ≡ false
InTime ends = Unit {0}

abbrev pub StepInTime : {s t : System} → Step s t → Type 0
StepInTime (move i e m) = InTime m
StepInTime (add t created own e) = Unit {0}
StepInTime (destroy own) = Unit {0}
StepInTime (join own) = Unit {0}

-- No wait of a worker ended by time.
abbrev pub Calm : {threads : ℕ} {s : System} → Reach threads s → Type 0
Calm here = Unit {0}
Calm (next r st) = Calm r × StepInTime st

enter-Good : (p : Pool) (o : Out) → 0 < p.count → enter p ≡ some o → Good o
unfolding enter
enter-Good p o c e = test_wait-Good (record p { idle = p.idle + 1 }) o c e

wake-Good : (p : Pool) (o : Out) → 0 < p.count → wake false p ≡ some o → Good o
unfolding wake
wake-Good p o c e = test_wait-Good p o c e

task_done-Good : (a : ℕ) (p : Pool) → 0 < p.count → Good (task_done a false p)
unfolding task_done
task_done-Good a p c =
    let p' : Pool = record p { tasks = free_task a p.tasks } in
    (finish-Punctual false p', finish-Served p' c)

Move-Good :
    {p : Pool} {pc : Pc} {o : Out} (m : Move p pc o) → InTime m → Punctual pc → 0 < p.count → Good o
Move-Good {p} {o = o} (enters e) q b c = enter-Good p o c e
Move-Good {p} {o = o} (wakes timed_out e) q b c =
    wake-Good p o c (subst (λ (x : Bool). wake x p ≡ some o) q e)
Move-Good {p} (ends {a} {t} {timeout}) q b c =
    subst (λ (x : Bool). Good (task_done a x p)) (sym b) (task_done-Good a p c)

some-inj {ℓ} : {A : Type ℓ} {a b : A} → some a ≡ some b → a ≡ b
some-inj e = cc

waits_le : (w : Pc) → waits w ≤ lives w
waits_le at_top = omega arith
waits_le waiting = omega arith
waits_le (running a t timeout) = omega arith
waits_le exited = omega arith

total_waits_le : (ws : List Pc) → total waits ws ≤ total lives ws
unfolding total
total_waits_le [] = omega arith
total_waits_le (w ∷ ws) = omega (arith, waits_le w, total_waits_le ws)

add_task-count :
    (t : Task) (p : Pool) (r : Added)
    → p.idle ≤ p.count
    → 0 < p.max_thread
    → add_task t p ≡ some r
    → 0 < r.pool.count
unfolding add_task
add_task-count t p r le room = go (append_task t p.tasks)
  where
    go : (q : Option Tasks) → appended p q ≡ some r → 0 < r.pool.count
    go none e = absurd (cc)
    go (some q) e = subst (λ (x : Added). 0 < x.pool.count) (some-inj e) (ground (arith, le, room))

-- Where there are tasks there is someone to take them, and no worker at a task has timed out.
pub record Ready (s : System) : Type 0 where
  pub punctual : AllPunctual s.workers
  pub served : Served s.pool

destroy_enter-Served : (p : Pool) → Served p → Served (destroy_enter p).0
unfolding destroy_enter
destroy_enter-Served p h = λ e. ground (arith, h)

Step-Ready :
    {threads : ℕ} {s t : System} {lo : ℕ} {xs : List (ℕ × Task)}
    → 0 < threads
    → Inv threads s lo xs
    → (st : Step s t) → StepInTime st
    → Ready s
    → Ready t
Step-Ready {s = s} room v (move i {pc} {o} e m) q h =
    let alive : 0 < s.pool.count =
      omega (arith, Move-lives m, total_ge lives s.workers i pc e, v.count) in
    let (b, c) = Move-Good m q (AllPunctual-get s.workers i pc e h.punctual) alive in
    record { punctual = AllPunctual-set s.workers i o.pc b h.punctual; served = c }
Step-Ready {s = s} room v (add t created {r} own e) q h = record {
  punctual = AllPunctual-after s.workers r.asked created h.punctual;
  served = λ f.
      add_task-count t s.pool r (omega (arith, v.idle, v.count, total_waits_le s.workers))
        (omega (arith, room, v.max)) e;
}
Step-Ready {s = s} room v (destroy own) q h = record {
  punctual = h.punctual;
  served = destroy_enter-Served s.pool h.served;
}
Step-Ready room v (join own) q h = record { punctual = h.punctual; served = h.served }

Reach-Ready : {threads : ℕ} {s : System} → 0 < threads → (r : Reach threads s) → Calm r → Ready s
Reach-Ready room here c = record { punctual = tt; served = λ e. absurd (cc) }
Reach-Ready room (next r st) (c, q) =
    let (lo, xs, v) = Reach-Inv r in Step-Ready room v st q (Reach-Ready room r c)

none_left :
    (q : Tasks) (lo : ℕ) (xs : List (ℕ × Task))
    → Holds q lo xs
    → (is_null q.first ≡ false → ⊥)
    → tasks_of xs ≡ []
none_left q lo [] h ne = refl
none_left q lo ((a, t) ∷ xs) h ne =
    let (e, le, more) = take_task-Holds q lo a t xs h in absurd (ne (ap is_null e))

-- If no wait of a worker ended by time, then, when `threadPool_destroy` has returned, every task that
-- was added has been begun, each once and in the order in which they were added. So it is in every
-- interleaving of a pool with at least one thread.
pub calm-all_begun :
    {threads : ℕ} {s : System} (r : Reach threads s)
    → 0 < threads
    → Calm r
    → s.owner ≡ destroyed
    → s.started ≡ s.added
calm-all_begun {s = s} r room c e =
    let (lo, xs, v) = Reach-Inv r in
    let h = Reach-Ready room r c in
    let left : tasks_of xs ≡ [] =
      none_left s.pool.tasks lo xs v.holds (λ f. absurd (omega (arith, h.served f, v.ended e))) in
    sym (append-nil s.started) ∙ ap (λ (l : List Task). s.started ++ l) (sym left) ∙ v.order
