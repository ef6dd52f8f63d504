-- ===== src/Pool/Tasks.antt =====
-- The linked list of tasks of Thread_pool/thread_pool.c, on an explicit heap.
pub mod Segment
use network_code.Base.{
  ℕ, ◌+◌, ◌≡◌, refl, Bool, true, false, Option, none, some, List, [], ◌∷◌, if◌then◌else◌, ◌==◌,
}

-- The function and the argument of a task.
pub record Task : Type 0 where
  pub run : ℕ
  pub arg : ℕ

-- `struct task`; the null pointer is `none`.
pub record Node : Type 0 where
  pub task : Task
  pub next : Option ℕ

abbrev pub Cells : Type 0
Cells = ℕ → Option Node

abbrev pub update : Cells → ℕ → Option Node → Cells
update cell a v b = if b == a then v else cell b

-- The heap of nodes with the fields `first` and `last` of the pool. Every allocation gets a block
-- of its own, `fresh`, that was never used before.
pub record Tasks : Type 0 where
  pub cell : Cells
  pub first : Option ℕ
  pub last : Option ℕ
  pub fresh : ℕ

abbrev set_next : Cells → ℕ → ℕ → Option Node → Option Cells
set_next cell l a none = none
set_next cell l a (some node) = some (update cell l (some (record node { next = some a })))

-- `pool->last->next = newtask`, a fault where `last` points nowhere.
abbrev link : Cells → Option ℕ → ℕ → Option Cells
link cell none a = none
link cell (some l) a = set_next cell l a (cell l)

abbrev linked : Tasks → ℕ → Option Cells → Option Tasks
linked q a none = none
linked q a (some cell) =
    some (record { cell = cell; first = q.first; last = some a; fresh = a + 1 })

-- The part of `threadPool_addtask` that allocates the node and appends it.
unfoldable pub append_task : Task → Tasks → Option Tasks
append_task t q =
    let a = q.fresh in
    let cell = update q.cell a (some (record { task = t; next = none })) in
    elim q.first [
      | none ↦ some (record { cell = cell; first = some a; last = some a; fresh = a + 1 })
      | some f ↦ linked q a (link cell q.last a)
    ]

-- The part of `thread_routine` that takes the first node off: its address and task. A fault where
-- `first` points nowhere.
unfoldable pub take_task : ℕ → Tasks → Option (Task × Tasks)
take_task a q = elim (q.cell a) [
  | none ↦ none
  | some node ↦ some (node.task, record q { first = node.next })
]

-- `free(task)`
abbrev pub free_task : ℕ → Tasks → Tasks
free_task a q = record q { cell = update q.cell a none }
