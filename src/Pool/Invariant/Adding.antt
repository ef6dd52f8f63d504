-- ===== src/Pool/Invariant/Adding.antt =====
-- What `threadPool_addtask` of Thread_pool/thread_pool.c does to the pool.
use network_code.Base.{
  ℕ, ◌+◌, ◌<◌, ◌≡◌, Bool, true, false, some, List, ◌++◌, arith, ltb, ◌∷◌, [], refl, ap, ◌∙◌,
  Bool-cases, inl, inr, ltb→lt,
}
use network_code.Pool.Tasks.{Task, Tasks}
use network_code.Pool.Tasks.Segment.{Holds, append_task-Holds}
use network_code.Pool.Worker.{Pool, Added, appended, add_task}

abbrev pub asked_one : Bool → ℕ
asked_one true = 1
asked_one false = 0

-- The task stands at the end of the list; a thread is asked for only below the limit, and counted.
pub record AddFacts (p : Pool) (lo : ℕ) (xs : List (ℕ × Task)) (t : Task) (r : Added) : Type 0 where
  pub holds : Holds r.pool.tasks lo (xs ++ ((p.tasks.fresh, t) ∷ []))
  pub idle : r.pool.idle ≡ p.idle
  pub count : r.pool.count ≡ p.count + asked_one r.asked
  pub limit : r.asked ≡ true → p.count < p.max_thread
  pub same_max : r.pool.max_thread ≡ p.max_thread
  pub same_quit : r.pool.quit ≡ p.quit

appended-facts :
    (p : Pool) (lo : ℕ) (xs : List (ℕ × Task)) (t : Task) (q : Tasks)
    → Holds q lo (xs ++ ((p.tasks.fresh, t) ∷ []))
    → (r : Added) × (appended p (some q) ≡ some r) × AddFacts p lo xs t r
appended-facts p lo xs t q h = elim (Bool-cases (ltb 0 p.idle)) [
  | inl e ↦ (
    record { pool = record p { tasks = q }; asked = false; signalled = true },
    rw e,
    record {
      holds = h;
      idle = refl;
      count = omega arith;
      limit = λ a. cc;
      same_max = refl;
      same_quit = refl;
    },
  )
  | inr e ↦ elim (Bool-cases (ltb p.count p.max_thread)) [
    | inl f ↦ (
      record {
        pool = record p { tasks = q; count = p.count + 1 };
        asked = true;
        signalled = false;
      },
      rw (e, f),
      record {
        holds = h;
        idle = refl;
        count = refl;
        limit = λ a. ltb→lt p.count p.max_thread f;
        same_max = refl;
        same_quit = refl;
      },
    )
    | inr f ↦ (
      record { pool = record p { tasks = q }; asked = false; signalled = false },
      rw (e, f),
      record {
        holds = h;
        idle = refl;
        count = omega arith;
        limit = λ a. cc;
        same_max = refl;
        same_quit = refl;
      },
    )
  ]
]

-- There is no fault, and the call does as said.
pub add_task-facts :
    (p : Pool) (lo : ℕ) (xs : List (ℕ × Task)) (t : Task)
    → Holds p.tasks lo xs
    → (r : Added) × (add_task t p ≡ some r) × AddFacts p lo xs t r
unfolding add_task
add_task-facts p lo xs t h =
    let (q, e, h', same) = append_task-Holds p.tasks lo xs t h in
    let (r, e', f) = appended-facts p lo xs t q h' in (r, ap (appended p) e ∙ e', f)
