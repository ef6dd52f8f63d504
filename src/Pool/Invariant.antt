-- ===== src/Pool/Invariant.antt =====
-- What holds between the regions of Thread_pool/thread_pool.c, and that every region keeps it.
pub mod Regions
pub mod Adding
use network_code.Base.{
  ℕ, zero, suc, ◌+◌, ◌-◌, ◌≤◌, ◌<◌, ◌≡◌, ◌≢◌, ◌↔◌, refl, sym, ap, ◌∙◌, Bool, true, false, not, ◌&&◌,
  Option, none, some, List, [], ◌∷◌, ◌++◌, append_assoc, append-nil, arith, if◌then◌else◌, ltb,
  Bool-cases, inl, inr, ◌==◌, get_elem?, set,
}
use mathlib.Core.Path.{subst}
use network_code.Pool.Tasks.{Task, Tasks}
use network_code.Pool.Tasks.Segment.{Holds, tasks_of, tasks_of-append, append_task-Holds}
use network_code.Pool.Worker.{
  Pool, Pc, at_top, waiting, running, exited, Out, Added, add_task, Owner, adding, joining,
  destroyed, destroy_enter, destroy_wake, init,
}
use network_code.Pool.System.{
  System, start, Move, began, moved, extended, Step, move, add, destroy, join, Reach, here, next,
}
use network_code.Pool.Counts.{
  waits, lives, total, total-set, total-append, total_ge, Below, AllBelow, AllBelow-set,
  AllBelow-append, AllBelow-get, lives_le,
}
use network_code.Pool.Invariant.Regions.{Region, SomeRegion, Move-Region}
use network_code.Pool.Invariant.Adding.{asked_one, AddFacts, add_task-facts}

-- `xs` is the list of waiting tasks; the nodes below `lo` have been taken off it.
pub record Inv (threads : ℕ) (s : System) (lo : ℕ) (xs : List (ℕ × Task)) : Type 0 where
  pub holds : Holds s.pool.tasks lo xs
  pub order : s.started ++ tasks_of xs ≡ s.added
  pub idle : s.pool.idle ≡ total waits s.workers
  pub count : s.pool.count ≡ total lives s.workers + s.lost
  pub max : s.pool.max_thread ≡ threads
  pub bound : s.pool.count ≤ threads
  pub below : AllBelow lo s.workers
  pub ended : s.owner ≡ destroyed → s.pool.count ≡ 0
  pub quits : (s.pool.quit ≡ true) ↔ (s.owner ≢ adding)

abbrev pub SomeInv : ℕ → System → Type 0
SomeInv threads s = (lo : ℕ) × (xs : List (ℕ × Task)) × Inv threads s lo xs

start-Inv : (threads : ℕ) → Inv threads (start threads) 0 []
unfolding total
start-Inv threads = record {
  holds = record { nodes = (refl, omega arith); ends = tt };
  order = refl;
  idle = refl;
  count = refl;
  max = refl;
  bound = omega arith;
  below = tt;
  ended = λ e. cc;
  quits = (λ e. cc, λ ne. absurd (ne refl));
}

-- A worker that moves has not returned.
pub Move-lives : {p : Pool} {pc : Pc} {o : Out} → Move p pc o → lives pc ≡ 1
Move-lives (Move.enters e) = refl
Move-lives (Move.wakes timed_out e) = refl
Move-lives Move.ends = refl

moved-Inv :
    {threads : ℕ} {s : System} {lo : ℕ} {xs : List (ℕ × Task)} (i : ℕ) {pc : Pc} {o : Out}
    → Inv threads s lo xs
    → get_elem? s.workers i ≡ some pc
    → Move s.pool pc o
    → SomeInv threads (moved s i o)
moved-Inv {threads} {s} {lo} {xs} i {pc} {o} v e m =
    let alive : 0 < s.pool.count =
      omega (arith, Move-lives m, total_ge lives s.workers i pc e, v.count) in
    let (lo', xs', r) =
      Move-Region s.pool xs lo v.holds alive
        (omega (arith, v.idle, total_ge waits s.workers i pc e))
        (AllBelow-get lo s.workers i pc e v.below) m in
    (
      lo',
      xs',
      record {
        holds = r.holds;
        order =
            append_assoc s.started (began o.pc) (tasks_of xs')
            ∙ ap (λ (l : List Task). s.started ++ l) r.order
            ∙ v.order;
        idle = omega (arith, r.idle, v.idle, total-set waits s.workers i pc o.pc e);
        count = omega (arith, r.count, v.count, total-set lives s.workers i pc o.pc e);
        max = r.same_max ∙ v.max;
        bound = omega (arith, r.count, Move-lives m, lives_le o.pc, v.bound);
        below = AllBelow-set lo lo' s.workers i o.pc r.grows r.below v.below;
        ended = λ e. absurd (omega (arith, alive, v.ended e));
        quits = rw r.same_quit v.quits;
      },
    )

workers_after :
    (w : Pc → ℕ) (ws : List Pc) (asked created : Bool)
    → total w (if asked then (if created then ws ++ (at_top ∷ []) else ws) else ws)
      ≡ total w ws + (if asked then (if created then w at_top else 0) else 0)
workers_after w ws false created = omega arith
workers_after w ws true false = omega arith
workers_after w ws true true = total-append w ws at_top

AllBelow-after :
    (lo : ℕ) (ws : List Pc) (asked created : Bool)
    → AllBelow lo ws
    → AllBelow lo (if asked then (if created then ws ++ (at_top ∷ []) else ws) else ws)
AllBelow-after lo ws false created b = b
AllBelow-after lo ws true false b = b
AllBelow-after lo ws true true b = AllBelow-append lo ws at_top tt b

extended-Inv :
    {threads : ℕ} {s : System} {lo : ℕ} {xs : List (ℕ × Task)} (t : Task) (created : Bool)
    {r : Added}
    → Inv threads s lo xs
    → s.owner ≡ adding
    → AddFacts s.pool lo xs t r
    → Inv threads (extended s t created r) lo (xs ++ ((s.pool.tasks.fresh, t) ∷ []))
extended-Inv {threads} {s} {lo} {xs} t created {r} v own f = record {
  holds = f.holds;
  order =
      ap (λ (l : List Task). s.started ++ l) (tasks_of-append xs s.pool.tasks.fresh t)
      ∙ sym (append_assoc s.started (tasks_of xs) (t ∷ []))
      ∙ ap (λ (l : List Task). l ++ (t ∷ [])) v.order;
  idle = ground (arith, f.idle, v.idle, workers_after waits s.workers r.asked created);
  count = ground (arith, f.count, v.count, workers_after lives s.workers r.asked created);
  max = f.same_max ∙ v.max;
  bound = ground (arith, f.count, f.limit, v.bound, v.max);
  below = AllBelow-after lo s.workers r.asked created v.below;
  ended = λ e. cc;
  quits = rw f.same_quit v.quits;
}

joins-ne-adding : (b : Bool) → (if b then joining else destroyed) ≢ adding
joins-ne-adding true e = cc
joins-ne-adding false e = cc

joins_on-ne-adding : (p : Pool) → destroy_wake p ≢ adding
unfolding destroy_wake
joins_on-ne-adding p = ground arith

destroy-Inv :
    {threads : ℕ} {s : System} {lo : ℕ} {xs : List (ℕ × Task)}
    → Inv threads s lo xs
    → s.owner ≡ adding
    → Inv threads
        (record s { pool = (destroy_enter s.pool).0; owner = (destroy_enter s.pool).1 })
        lo
        xs
unfolding destroy_enter
destroy-Inv {threads} {s} {lo} {xs} v own = elim (Bool-cases s.pool.quit) [
  | inl e ↦ absurd (v.quits.0 e own)
  | inr e ↦ rw e (record {
    holds = v.holds;
    order = v.order;
    idle = v.idle;
    count = v.count;
    max = v.max;
    bound = v.bound;
    below = v.below;
    ended = ground arith;
    quits = (λ q. joins-ne-adding (ltb 0 s.pool.count), λ ne. refl);
  })
]

join-Inv :
    {threads : ℕ} {s : System} {lo : ℕ} {xs : List (ℕ × Task)}
    → Inv threads s lo xs
    → s.owner ≡ joining
    → Inv threads (record s { owner = destroy_wake s.pool }) lo xs
unfolding destroy_wake
join-Inv {threads} {s} {lo} {xs} v own = record {
  holds = v.holds;
  order = v.order;
  idle = v.idle;
  count = v.count;
  max = v.max;
  bound = v.bound;
  below = v.below;
  ended = ground arith;
  quits = (λ q. joins_on-ne-adding s.pool, λ ne. v.quits.1 (λ e. cc));
}

-- Every step keeps the invariant.
Step-Inv :
    {threads : ℕ} {s t : System} {lo : ℕ} {xs : List (ℕ × Task)}
    → Inv threads s lo xs
    → Step s t
    → SomeInv threads t
Step-Inv v (move i e m) = moved-Inv i v e m
Step-Inv {threads} {s} {t} {lo} {xs} v (add task created own e) =
    let (r, e', f) = add_task-facts s.pool lo xs task v.holds in
    (lo, _, extended-Inv task created v own (subst (AddFacts s.pool lo xs task) (same e' e) f))
  where
    same : {o : Option Added} {r r' : Added} → o ≡ some r → o ≡ some r' → r ≡ r'
    same e e' = cc
Step-Inv {lo} {xs} v (destroy own) = (lo, xs, destroy-Inv v own)
Step-Inv {lo} {xs} v (join own) = (lo, xs, join-Inv v own)

-- So it holds in every state that can be reached.
pub Reach-Inv : {threads : ℕ} {s : System} → Reach threads s → SomeInv threads s
Reach-Inv {threads} here = (0, [], start-Inv threads)
Reach-Inv (next r st) = Step-Inv (Reach-Inv r).2 st
