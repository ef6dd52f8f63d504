-- ===== src/Pool/Reachable.antt =====
-- What holds in every reachable state of Thread_pool/thread_pool.c, and what does not.
use network_code.Base.{
  ℕ, ◌+◌, ◌≤◌, ◌≡◌, refl, Bool, true, false, some, List, [], ◌∷◌, ◌++◌, arith, get_elem?,
}
use network_code.Pool.Tasks.{Task, append_task, take_task}
use network_code.Pool.Tasks.Segment.{Holds, tasks_of}
use network_code.Pool.Worker.{
  Pool, Pc, at_top, waiting, running, exited, Out, finish, proceed, test_wait, enter, wake,
  task_done, add_task, destroyed, destroy_enter,
}
use network_code.Pool.System.{System, enters, wakes, ends, move, add, destroy, Reach, here, next}
use network_code.Pool.Counts.{waits, lives, total, total_ge}
use network_code.Pool.Invariant.{Reach-Inv}

-- In every reachable state the linked list is intact, and the tasks begun so far, then the tasks in
-- the list, are exactly the tasks added, in order: each task is begun at most once, first in first
-- out, and none is lost from the list.
pub first_in_first_out :
    {threads : ℕ} {s : System}
    → Reach threads s
    → (lo : ℕ) × (xs : List (ℕ × Task)) × Holds s.pool.tasks lo xs
      × (s.started ++ tasks_of xs ≡ s.added)
first_in_first_out r = let (lo, xs, v) = Reach-Inv r in (lo, xs, v.holds, v.order)

-- In every reachable state `idle` is the number of waiting workers, `count` the number of workers
-- that have not returned and of failed creations, and it is at most `maxThread`.
pub counters_agree :
    {threads : ℕ} {s : System}
    → Reach threads s
    → (s.pool.idle ≡ total waits s.workers)
      × (s.pool.count ≡ total lives s.workers + s.lost)
      × (s.pool.count ≤ threads)
counters_agree r = let (lo, xs, v) = Reach-Inv r in (v.idle, v.count, v.bound)

-- The region that follows where the worker stands gives a result. (From a task it always does.)
abbrev pub GoesOn : Bool → Pool → Pc → Type 0
GoesOn timed_out p at_top = (o : Out) × (enter p ≡ some o)
GoesOn timed_out p waiting = (o : Out) × (wake timed_out p ≡ some o)
GoesOn timed_out p (running a t timeout) = Unit {0}
GoesOn timed_out p exited = Unit {0}

-- When `threadPool_destroy` has returned, every worker has returned.
pub destroyed_means_no_worker :
    {threads : ℕ} {s : System} (i : ℕ) {pc : Pc}
    → Reach threads s
    → s.owner ≡ destroyed
    → get_elem? s.workers i ≡ some pc
    → pc ≡ exited
destroyed_means_no_worker {threads} {s} i {pc} r e g =
    let (lo, xs, v) = Reach-Inv r in
    not_alive pc (omega (arith, v.ended e, v.count, total_ge lives s.workers i pc g))
  where
    not_alive : (pc : Pc) → lives pc ≤ 0 → pc ≡ exited
    not_alive exited h = refl
    not_alive at_top h = absurd (omega arith)
    not_alive waiting h = absurd (omega arith)
    not_alive (running a t timeout) h = absurd (omega arith)

-- A worker whose wait timed out leaves after one task, though others wait: if it is the last one,
-- no worker is left for them, and it signals nobody, also if the owner waits in
-- `threadPool_destroy` for `count` to reach 0.
last_worker_leaves_tasks :
    (p : Pool) (a : ℕ)
    → p.tasks.first ≡ some a
    → p.count ≡ 1
    → let o = finish true p in
      (o.pc ≡ exited) × (o.pool.count ≡ 0) × (o.signalled ≡ false) × (o.pool.tasks.first ≡ some a)
unfolding finish
last_worker_leaves_tasks p a e c = ground arith

-- So tasks are stranded: with one thread, for any three tasks there is a run in which the third is
-- never begun although `threadPool_destroy` has returned.
pub task_stranded :
    (x y z : Task)
    → (s : System) × Reach 1 s
      × (s.added ≡ x ∷ y ∷ z ∷ [])
      × (s.started ≡ x ∷ y ∷ [])
      × (s.owner ≡ destroyed)
unfolding enter wake test_wait proceed take_task finish task_done add_task append_task destroy_enter
task_stranded x y z = (
  _,
  next
      (next
        (next
          (next
            (next
              (next
                (next (next (next here (add x true refl refl)) (move 0 refl (enters refl)))
                  (move 0 refl ends))
                (move 0 refl (enters refl)))
              (add y true refl refl))
            (add z true refl refl))
          (move 0 refl (wakes true refl)))
        (move 0 refl ends))
      (destroy refl),
  refl,
  refl,
  refl,
)
