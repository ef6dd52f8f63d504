-- ===== src/Pool/Worker.antt =====
-- The worker threads and the client calls of Thread_pool/thread_pool.c. Each function here is what
-- one thread does while it holds the mutex, from taking it to giving it up or waiting.
use network_code.Base.{
  ℕ, ◌+◌, ◌-◌, Bool, true, false, not, ◌&&◌, Option, none, some, if◌then◌else◌, ◌==◌, ltb,
}
use network_code.Pool.Tasks.{Task, Tasks, append_task, take_task, free_task}

-- `threadpool_t`, without the mutex and condition variable of `status`.
pub record Pool : Type 0 where
  pub tasks : Tasks
  pub count : ℕ
  pub idle : ℕ
  pub max_thread : ℕ
  pub quit : Bool

abbrev pub empty_tasks : Tasks
empty_tasks = record { cell = λ a. none; first = none; last = none; fresh = 0 }

-- `threadPool_init`
abbrev pub init : ℕ → Pool
init threads = record {
  tasks = empty_tasks;
  count = 0;
  idle = 0;
  max_thread = threads;
  quit = false;
}

-- Where a worker stands while it does not hold the mutex: before the `condition_lock` at the head of
-- its loop, in `condition_timewait`, in `task->run` with the value of `timeout`, or returned.
pub data Pc : Type 0 where
  at_top : Pc
  waiting : Pc
  running : (a : ℕ) (t : Task) (timeout : Bool) → Pc
  exited : Pc

-- The pool after a region, where the worker stands then, and whether it signalled.
pub record Out : Type 0 where
  pub pool : Pool
  pub pc : Pc
  pub signalled : Bool

abbrev pub is_null : Option ℕ → Bool
is_null none = true
is_null (some a) = false

-- The two tests at the end of the loop of `thread_routine`.
unfoldable pub finish : Bool → Pool → Out
finish timeout p =
    if p.quit && is_null p.tasks.first
    then record {
      pool = record p { count = p.count - 1 };
      pc = exited;
      signalled = p.count - 1 == 0;
    }
    else if timeout
    then record { pool = record p { count = p.count - 1 }; pc = exited; signalled = false }
    else record { pool = p; pc = at_top; signalled = false }

abbrev pub taken : Bool → Pool → ℕ → Option (Task × Tasks) → Option Out
taken timeout p a none = none
taken timeout p a (some (t, q)) =
    some (record { pool = record p { tasks = q }; pc = running a t timeout; signalled = false })

abbrev pub take_at : Bool → Pool → Option ℕ → Option Out
take_at timeout p none = some (finish timeout p)
take_at timeout p (some a) = taken timeout p a (take_task a p.tasks)

-- From `pool->idle--` on; `none` is a fault at a dangling pointer.
unfoldable pub proceed : Bool → Pool → Option Out
proceed timeout p =
    let p' : Pool = record p { idle = p.idle - 1 } in take_at timeout p' p'.tasks.first

-- The test of the inner loop, after `condition_lock` or a wake-up.
unfoldable pub test_wait : Pool → Option Out
test_wait p =
    if is_null p.tasks.first && not p.quit
    then some (record { pool = p; pc = waiting; signalled = false })
    else proceed false p

unfoldable pub enter : Pool → Option Out
enter p = test_wait (record p { idle = p.idle + 1 })

-- `condition_timewait` returns: ETIMEDOUT leaves the inner loop with `timeout = 1`.
unfoldable pub wake : Bool → Pool → Option Out
wake timed_out p = if timed_out then proceed true p else test_wait p

-- The task has returned: `free(task)`, `condition_lock`, and the tests.
unfoldable pub task_done : ℕ → Bool → Pool → Out
task_done a timeout p = finish timeout (record p { tasks = free_task a p.tasks })

-- What a call of `threadPool_addtask` does to the pool, and to threads: `created` tells whether
-- `pthread_create` succeeds; its result is not read.
pub record Added : Type 0 where
  pub pool : Pool
  pub asked : Bool
  pub signalled : Bool

abbrev pub appended : Pool → Option Tasks → Option Added
appended p none = none
appended p (some q) = some (
    if ltb 0 p.idle
    then record { pool = record p { tasks = q }; asked = false; signalled = true }
    else if ltb p.count p.max_thread
    then record {
      pool = record p { tasks = q; count = p.count + 1 };
      asked = true;
      signalled = false;
    }
    else record { pool = record p { tasks = q }; asked = false; signalled = false })

unfoldable pub add_task : Task → Pool → Option Added
add_task t p = appended p (append_task t p.tasks)

-- Where the thread that owns the pool stands: it may add tasks, it is in `condition_wait` of
-- `threadPool_destroy`, or that function has returned.
pub data Owner : Type 0 where
  adding joining destroyed : Owner

-- `threadPool_destroy` up to its wait. (With `quit` set it returns at once.)
unfoldable pub destroy_enter : Pool → Pool × Owner
destroy_enter p =
    if p.quit
    then (p, destroyed)
    else (record p { quit = true }, if ltb 0 p.count then joining else destroyed)

-- The loop `while (pool->count)` after a wake-up.
unfoldable pub destroy_wake : Pool → Owner
destroy_wake p = if p.count == 0 then destroyed else joining
