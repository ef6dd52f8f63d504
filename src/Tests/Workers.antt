-- ===== src/Tests/Workers.antt =====
-- The thread pool in a concrete run.
use network_code.Base.{
  ℕ, ◌+◌, ◌≤◌, ◌≡◌, refl, arith, true, false, some, List, [], ◌∷◌, ◌++◌, get_elem?, length,
}
use network_code.Fifo.{QueueRun}
use network_code.Pool.Refine.{events, pool_refines_queue}
use network_code.Pool.Tasks.{Task, append_task, take_task}
use network_code.Pool.Tasks.Segment.{Holds, tasks_of}
use network_code.Pool.Worker.{
  running, exited, finish, proceed, test_wait, enter, wake, task_done, add_task, destroyed,
  destroy_enter, destroy_wake,
}
use network_code.Pool.System.{
  System, Reach, here, next, move, add, destroy, join, enters, wakes, ends,
}
use network_code.Pool.Counts.{waits, lives, total}
use network_code.Pool.Calm.Finish.{Calm, calm-all_begun}
use network_code.Pool.Reachable.{
  first_in_first_out, counters_agree, destroyed_means_no_worker, task_stranded,
}

abbrev task_a : Task
task_a = record { run = 1; arg = 10 }

abbrev task_b : Task
task_b = record { run = 2; arg = 20 }

-- One thread: a task is added, its worker begins it, and a second task is added meanwhile.
busy :
    (s : System) × Reach 1 s
    × (s.started ≡ task_a ∷ [])
    × (s.added ≡ task_a ∷ task_b ∷ [])
    × (get_elem? s.workers 0 ≡ some (running 0 task_a false))
unfolding enter test_wait proceed take_task add_task append_task
busy = (
  _,
  next (next (next here (add task_a true refl refl)) (move 0 refl (enters refl)))
      (add task_b true refl refl),
  refl,
  refl,
  refl,
)

-- The pool after its owner has destroyed it.
gone : (s : System) × Reach 1 s × (s.owner ≡ destroyed) × (get_elem? s.workers 0 ≡ some exited)
unfolding enter wake test_wait proceed take_task finish task_done add_task append_task destroy_enter
gone = (
  _,
  next
      (next
        (next
          (next (next (next here (add task_a true refl refl)) (move 0 refl (enters refl)))
            (move 0 refl ends))
          (move 0 refl (enters refl)))
        (move 0 refl (wakes true refl)))
      (destroy refl),
  refl,
  refl,
)

first_in_first_out_example :
    (lo : ℕ) × (xs : List (ℕ × Task)) × Holds busy.0.pool.tasks lo xs
    × (busy.0.started ++ tasks_of xs ≡ busy.0.added)
first_in_first_out_example = first_in_first_out busy.1

counters_agree_example :
    (busy.0.pool.idle ≡ total waits busy.0.workers)
    × (busy.0.pool.count ≡ total lives busy.0.workers + busy.0.lost)
    × (busy.0.pool.count ≤ 1)
counters_agree_example = counters_agree busy.1

destroyed_means_no_worker_example : exited ≡ exited
destroyed_means_no_worker_example = destroyed_means_no_worker 0 gone.1 gone.2 gone.3

task_stranded_example :
    (s : System) × Reach 1 s
    × (s.added ≡ task_a ∷ task_b ∷ task_a ∷ [])
    × (s.started ≡ task_a ∷ task_b ∷ [])
    × (s.owner ≡ destroyed)
task_stranded_example = task_stranded task_a task_b task_a

pool_refines_queue_example :
    (lo : ℕ) × (xs : List (ℕ × Task)) × Holds busy.0.pool.tasks lo xs
    × QueueRun (length busy.0.added) [] (events busy.1) (tasks_of xs)
pool_refines_queue_example = pool_refines_queue busy.1

-- Two tasks are added and the pool is destroyed while the worker is at the first; it begins the second,
-- and leaves.
patient : (s : System) × (r : Reach 1 s) × Calm r × (s.owner ≡ destroyed)
unfolding enter wake test_wait proceed take_task finish task_done add_task append_task destroy_enter
    destroy_wake
patient = (
  _,
  next
      (next
        (next
          (next
            (next
              (next (next (next here (add task_a true refl refl)) (move 0 refl (enters refl)))
                (add task_b true refl refl))
              (destroy refl))
            (move 0 refl ends))
          (move 0 refl (enters refl)))
        (move 0 refl ends))
      (join refl),
  ((((((((tt, tt), tt), tt), tt), tt), tt), tt), tt),
  refl,
)

calm-all_begun_example : patient.0.started ≡ patient.0.added
calm-all_begun_example = calm-all_begun patient.1 (omega arith) patient.2 patient.3
