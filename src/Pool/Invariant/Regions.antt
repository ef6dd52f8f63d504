-- ===== src/Pool/Invariant/Regions.antt =====
-- What one region of a worker of Thread_pool/thread_pool.c does to the pool.
use network_code.Base.{
  ℕ, ◌+◌, ◌-◌, ◌≤◌, ◌<◌, ◌≡◌, refl, sym, ap, Bool, true, false, not, ◌&&◌, Option, some, List, [],
  ◌∷◌, ◌++◌, arith, Bool-cases, inl, inr,
}
use mathlib.Core.Path.{subst}
use network_code.Pool.Tasks.{Task, Tasks, take_task, free_task}
use network_code.Pool.Tasks.Segment.{Holds, tasks_of, take_task-Holds, free_task-Holds}
use network_code.Pool.Worker.{
  Pool, Pc, at_top, waiting, running, Out, is_null, finish, proceed, test_wait, enter, wake,
  task_done,
}
use network_code.Pool.System.{Move, enters, wakes, ends, began}
use network_code.Pool.Counts.{waits, lives, Below}

-- The list held is `xs'` instead of `xs`: what has gone off its front is the task that the worker
-- begins, and each counter changes with the place of this worker.
pub record Region (p : Pool) (xs : List (ℕ × Task)) (pc : Pc) (lo : ℕ) (o : Out) (lo' : ℕ)
    (xs' : List (ℕ × Task)) : Type 0 where
  pub holds : Holds o.pool.tasks lo' xs'
  pub grows : lo ≤ lo'
  pub order : began o.pc ++ tasks_of xs' ≡ tasks_of xs
  pub idle : o.pool.idle + waits pc ≡ p.idle + waits o.pc
  pub count : o.pool.count + lives pc ≡ p.count + lives o.pc
  pub same_max : o.pool.max_thread ≡ p.max_thread
  pub same_quit : o.pool.quit ≡ p.quit
  pub below : Below lo' o.pc

abbrev pub SomeRegion : Pool → List (ℕ × Task) → Pc → ℕ → Out → Type 0
SomeRegion p xs pc lo o = (lo' : ℕ) × (xs' : List (ℕ × Task)) × Region p xs pc lo o lo' xs'

-- A worker at its task, or past its wait, that goes on to the end of the loop.
finish-Region :
    (p : Pool) (xs : List (ℕ × Task)) (lo : ℕ) (timeout : Bool) (pc : Pc)
    → Holds p.tasks lo xs
    → 0 < p.count
    → lives pc ≡ 1
    → waits pc ≡ 0
    → SomeRegion p xs pc lo (finish timeout p)
unfolding finish
finish-Region p xs lo timeout pc h c l w = (
  lo,
  xs,
  record {
    holds = subst (λ (q : Tasks). Holds q lo xs) (sym (tasks-finish p timeout)) h;
    grows = omega arith;
    order = ap (λ (l : List Task). l ++ tasks_of xs) (began-finish p timeout);
    idle = ground arith;
    count = ground arith;
    same_max = ground arith;
    same_quit = ground arith;
    below = Below-finish p lo timeout;
  },
)
  where
    tasks-finish : (p : Pool) (timeout : Bool) → (finish timeout p).pool.tasks ≡ p.tasks
    tasks-finish p timeout = ground arith

    began-finish : (p : Pool) (timeout : Bool) → began (finish timeout p).pc ≡ []
    began-finish p timeout = ground arith

    Below-finish : (p : Pool) (lo : ℕ) (timeout : Bool) → Below lo (finish timeout p).pc
    Below-finish p lo timeout = ground arith

abbrev pub SomeOut : Pool → List (ℕ × Task) → Pc → ℕ → Option Out → Type 0
SomeOut p xs pc lo r = (o : Out) × (r ≡ some o) × SomeRegion p xs pc lo o

-- A worker that was counted as idle goes on: there is no fault, whatever the list.
proceed-Region :
    (p : Pool) (xs : List (ℕ × Task)) (lo : ℕ) (timeout : Bool)
    → Holds p.tasks lo xs
    → 0 < p.count
    → 0 < p.idle
    → SomeOut p xs waiting lo (proceed timeout p)
unfolding proceed take_task
proceed-Region p [] lo timeout h c i =
    let p' : Pool = record p { idle = p.idle - 1 } in
    let (lo', xs', r) = finish-Region p' [] lo timeout at_top h c refl refl in
    (
      finish timeout p',
      rw h.nodes.0,
      (
        lo',
        xs',
        record {
          holds = r.holds;
          grows = r.grows;
          order = r.order;
          idle = omega (arith, r.idle);
          count = r.count;
          same_max = r.same_max;
          same_quit = r.same_quit;
          below = r.below;
        },
      ),
    )
proceed-Region p ((a, t) ∷ xs) lo timeout h c i =
    let (e, le, (q, taken_off, h', same)) = take_task-Holds p.tasks lo a t xs h in
    (
      record {
        pool = record p { tasks = q; idle = p.idle - 1 };
        pc = running a t timeout;
        signalled = false;
      },
      rw (e, taken_off),
      (
        a + 1,
        xs,
        record {
          holds = h';
          grows = omega arith;
          order = refl;
          idle = omega arith;
          count = refl;
          same_max = refl;
          same_quit = refl;
          below = omega arith;
        },
      ),
    )

test_wait-Region :
    (p : Pool) (xs : List (ℕ × Task)) (lo : ℕ)
    → Holds p.tasks lo xs
    → 0 < p.count
    → 0 < p.idle
    → SomeOut p xs waiting lo (test_wait p)
unfolding test_wait
test_wait-Region p xs lo h c i = elim (Bool-cases (is_null p.tasks.first && not p.quit)) [
  | inl e ↦ (
    record { pool = p; pc = waiting; signalled = false },
    rw e,
    (
      lo,
      xs,
      record {
        holds = h;
        grows = omega arith;
        order = refl;
        idle = refl;
        count = refl;
        same_max = refl;
        same_quit = refl;
        below = tt;
      },
    ),
  )
  | inr e ↦ rw e (proceed-Region p xs lo false h c i)
]

pub wake-Region :
    (p : Pool) (xs : List (ℕ × Task)) (lo : ℕ) (timed_out : Bool)
    → Holds p.tasks lo xs
    → 0 < p.count
    → 0 < p.idle
    → SomeOut p xs waiting lo (wake timed_out p)
unfolding wake
wake-Region p xs lo true h c i = proceed-Region p xs lo true h c i
wake-Region p xs lo false h c i = test_wait-Region p xs lo h c i

pub enter-Region :
    (p : Pool) (xs : List (ℕ × Task)) (lo : ℕ)
    → Holds p.tasks lo xs
    → 0 < p.count
    → SomeOut p xs at_top lo (enter p)
unfolding enter
enter-Region p xs lo h c =
    let (o, e, (lo', xs', r)) =
      test_wait-Region (record p { idle = p.idle + 1 }) xs lo h c (omega arith) in
    (
      o,
      e,
      (
        lo',
        xs',
        record {
          holds = r.holds;
          grows = r.grows;
          order = r.order;
          idle = omega (arith, r.idle);
          count = r.count;
          same_max = r.same_max;
          same_quit = r.same_quit;
          below = r.below;
        },
      ),
    )

task_done-Region :
    (p : Pool) (xs : List (ℕ × Task)) (lo a : ℕ) (t : Task) (timeout : Bool)
    → Holds p.tasks lo xs
    → 0 < p.count
    → a < lo
    → SomeRegion p xs (running a t timeout) lo (task_done a timeout p)
unfolding task_done
task_done-Region p xs lo a t timeout h c lt =
    let p' : Pool = record p { tasks = free_task a p.tasks } in
    let (lo', xs', r) =
      finish-Region p' xs lo timeout (running a t timeout) (free_task-Holds p.tasks lo xs a lt h) c
        refl refl in
    (
      lo',
      xs',
      record {
        holds = r.holds;
        grows = r.grows;
        order = r.order;
        idle = r.idle;
        count = r.count;
        same_max = r.same_max;
        same_quit = r.same_quit;
        below = r.below;
      },
    )

same_out :
    {p : Pool} {xs : List (ℕ × Task)} {pc : Pc} {lo : ℕ} {r : Option Out} {o : Out}
    → r ≡ some o
    → SomeOut p xs pc lo r
    → SomeRegion p xs pc lo o
same_out {p} {xs} {pc} {lo} {r} {o} e (o', e', g) =
    let same : o' ≡ o = cc in subst (SomeRegion p xs pc lo) same g

-- Every move is one of these.
pub Move-Region :
    (p : Pool) (xs : List (ℕ × Task)) (lo : ℕ) {pc : Pc} {o : Out}
    → Holds p.tasks lo xs
    → 0 < p.count
    → waits pc ≤ p.idle
    → Below lo pc
    → Move p pc o
    → SomeRegion p xs pc lo o
Move-Region p xs lo h c i b (enters e) = same_out e (enter-Region p xs lo h c)
Move-Region p xs lo h c i b (wakes timed_out e) = same_out e (wake-Region p xs lo timed_out h c i)
Move-Region p xs lo h c i b (ends {a} {t} {timeout}) = task_done-Region p xs lo a t timeout h c b
