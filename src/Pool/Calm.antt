-- ===== src/Pool/Calm.antt =====
-- Runs of Thread_pool/thread_pool.c in which no wait of a worker times out.
pub mod Finish
use network_code.Base.{
  ℕ, zero, suc, ◌+◌, ◌-◌, ◌≤◌, ◌<◌, ◌≡◌, refl, sym, ap, ◌∙◌, Bool, true, false, not, ◌&&◌, Option,
  none, some, List, [], ◌∷◌, ◌++◌, append-nil, arith, if◌then◌else◌, ltb, Bool-cases, inl, inr,
  ◌==◌, get_elem?, set,
}
use mathlib.Core.Path.{subst}
use network_code.Pool.Tasks.{Task, Tasks, append_task, take_task}
use network_code.Pool.Tasks.Segment.{Holds, tasks_of, take_task-Holds}
use network_code.Pool.Worker.{
  Pool, Pc, at_top, waiting, running, exited, Out, is_null, finish, taken, take_at, proceed,
  test_wait, enter, wake, task_done, Added, appended, add_task, Owner, destroyed, destroy_enter,
}
use network_code.Pool.System.{
  System, start, Move, enters, wakes, ends, moved, extended, Step, move, add, destroy, join, Reach,
  here, next,
}
use network_code.Pool.Counts.{waits, lives, total, total_ge}
use network_code.Pool.Invariant.{Inv, Reach-Inv, Move-lives}

-- A worker with a task has not timed out.
abbrev pub Punctual : Pc → Type 0
Punctual at_top = Unit {0}
Punctual waiting = Unit {0}
Punctual (running a t timeout) = timeout ≡ false
Punctual exited = Unit {0}

abbrev pub AllPunctual : List Pc → Type 0
AllPunctual [] = Unit {0}
AllPunctual (p ∷ ps) = Punctual p × AllPunctual ps

pub AllPunctual-set :
    (ps : List Pc) (i : ℕ) (p : Pc) → Punctual p → AllPunctual ps → AllPunctual (set ps i p)
AllPunctual-set [] i p b bs = tt
AllPunctual-set (q ∷ ps) zero p b (c, bs) = (b, bs)
AllPunctual-set (q ∷ ps) (suc i) p b (c, bs) = (c, AllPunctual-set ps i p b bs)

AllPunctual-append :
    (ps : List Pc) (p : Pc) → Punctual p → AllPunctual ps → AllPunctual (ps ++ (p ∷ []))
AllPunctual-append [] p b bs = (b, tt)
AllPunctual-append (q ∷ ps) p b (c, bs) = (c, AllPunctual-append ps p b bs)

pub AllPunctual-get :
    (ps : List Pc) (i : ℕ) (p : Pc) → get_elem? ps i ≡ some p → AllPunctual ps → Punctual p
AllPunctual-get [] i p e bs = absurd (cc)
AllPunctual-get (q ∷ ps) zero p e (c, bs) = let same : q ≡ p = cc in subst Punctual same c
AllPunctual-get (q ∷ ps) (suc i) p e (c, bs) = AllPunctual-get ps i p e bs

pub AllPunctual-after :
    (ws : List Pc) (asked created : Bool)
    → AllPunctual ws
    → AllPunctual (if asked then (if created then ws ++ (at_top ∷ []) else ws) else ws)
AllPunctual-after ws false created b = b
AllPunctual-after ws true false b = b
AllPunctual-after ws true true b = AllPunctual-append ws at_top tt b

-- Where there are tasks there is a worker, or a call for one that failed.
abbrev pub Served : Pool → Type 0
Served p = is_null p.tasks.first ≡ false → 0 < p.count

pub finish-Served : (p : Pool) → 0 < p.count → Served (finish false p).pool
unfolding finish
finish-Served p c = λ e. ground (arith, e, c)

pub finish-Punctual : (timeout : Bool) (p : Pool) → Punctual (finish timeout p).pc
unfolding finish
finish-Punctual timeout p = ground arith

abbrev pub Good : Out → Type 0
Good o = Punctual o.pc × Served o.pool

proceed-Good : (p : Pool) (o : Out) → 0 < p.count → proceed false p ≡ some o → Good o
unfolding proceed
proceed-Good p o c = go p.tasks.first
  where
    from_task :
        (a : ℕ) (r : Option (Task × Tasks))
        → taken false (record p { idle = p.idle - 1 }) a r ≡ some o
        → Good o
    from_task a none e = absurd (cc)
    from_task a (some (t, q)) e =
        let same : ◌≡◌ {A = Out}
            (record {
              pool = record p { tasks = q; idle = p.idle - 1 };
              pc = running a t false;
              signalled = false;
            })
            o =
          cc in
        subst Good same (refl, λ f. c)

    go : (first : Option ℕ) → take_at false (record p { idle = p.idle - 1 }) first ≡ some o → Good o
    go none e =
        let same : finish false (record p { idle = p.idle - 1 }) ≡ o = cc in
        subst Good same (
          finish-Punctual false (record p { idle = p.idle - 1 }),
          finish-Served (record p { idle = p.idle - 1 }) c,
        )
    go (some a) e = from_task a (take_task a p.tasks) e

pub test_wait-Good : (p : Pool) (o : Out) → 0 < p.count → test_wait p ≡ some o → Good o
unfolding test_wait
test_wait-Good p o c = go (is_null p.tasks.first && not p.quit)
  where
    go :
        (b : Bool)
        → (if b
            then some (record { pool = p; pc = waiting; signalled = false })
            else proceed false p)
          ≡ some o
        → Good o
    go true e =
        let same : ◌≡◌ {A = Out} (record { pool = p; pc = waiting; signalled = false }) o = cc in
        subst Good same (tt, λ f. c)
    go false e = proceed-Good p o c e
