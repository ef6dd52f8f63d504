-- ===== src/Pool/System.antt =====
-- Any interleaving of the workers and the owner of a pool of Thread_pool/thread_pool.c.
use network_code.Base.{ℕ, ◌+◌, ◌≡◌, Bool, some, List, [], ◌∷◌, ◌++◌, if◌then◌else◌, get_elem?, set}
use network_code.Pool.Tasks.{Task}
use network_code.Pool.Worker.{
  Pool, init, Pc, at_top, waiting, running, Out, enter, wake, task_done, Added, add_task, Owner,
  adding, joining, destroy_enter, destroy_wake,
}

-- `lost` counts the calls of `pthread_create` that failed; `added` and `started` are the tasks that
-- were added, and those whose function was called, in order.
pub record System : Type 0 where
  pub pool : Pool
  pub workers : List Pc
  pub owner : Owner
  pub lost : ℕ
  pub added : List Task
  pub started : List Task

abbrev pub start : ℕ → System
start threads = record {
  pool = init threads;
  workers = [];
  owner = adding;
  lost = 0;
  added = [];
  started = [];
}

-- One region of one worker. A waiting worker may be woken by a signal, for no reason, or by time.
pub data Move (p : Pool) : Pc → Out → Type 0 where
  enters : {o : Out} → enter p ≡ some o → Move p at_top o
  wakes : {o : Out} (timed_out : Bool) → wake timed_out p ≡ some o → Move p waiting o
  ends : {a : ℕ} {t : Task} {timeout : Bool} → Move p (running a t timeout) (task_done a timeout p)

-- The task that a worker has just begun.
abbrev pub began : Pc → List Task
began at_top = []
began waiting = []
began (running a t timeout) = t ∷ []
began Pc.exited = []

abbrev pub moved : System → ℕ → Out → System
moved s i o = record s {
  pool = o.pool;
  workers = set s.workers i o.pc;
  started = s.started ++ began o.pc;
}

-- After `threadPool_addtask`: a thread that was asked for is there if it was created.
abbrev pub extended : System → Task → Bool → Added → System
extended s t created r = record s {
  pool = r.pool;
  workers =
      if r.asked then (if created then s.workers ++ (at_top ∷ []) else s.workers) else s.workers;
  lost = if r.asked then (if created then s.lost else s.lost + 1) else s.lost;
  added = s.added ++ (t ∷ []);
}

pub data Step (s : System) : System → Type 0 where
  move :
      (i : ℕ) {pc : Pc} {o : Out}
      → get_elem? s.workers i ≡ some pc
      → Move s.pool pc o
      → Step s (moved s i o)
  add :
      (t : Task) (created : Bool) {r : Added}
      → s.owner ≡ adding
      → add_task t s.pool ≡ some r
      → Step s (extended s t created r)
  destroy :
      s.owner ≡ adding
      → Step s (record s { pool = (destroy_enter s.pool).0; owner = (destroy_enter s.pool).1 })
  join : s.owner ≡ joining → Step s (record s { owner = destroy_wake s.pool })

pub data Reach (threads : ℕ) : System → Type 0 where
  here : Reach threads (start threads)
  next : {s t : System} → Reach threads s → Step s t → Reach threads t
