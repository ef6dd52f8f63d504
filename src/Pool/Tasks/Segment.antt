-- ===== src/Pool/Tasks/Segment.antt =====
-- The list that the nodes of Thread_pool/thread_pool.c form, and its two operations on it.
use network_code.Base.{
  ℕ, ◌+◌, ◌≤◌, ◌<◌, ◌≡◌, refl, sym, ap, ◌∙◌, Option, none, some, List, [], ◌∷◌, ◌++◌, arith,
}
use network_code.Pool.Tasks.{
  Task, Node, Cells, update, Tasks, set_next, linked, append_task, take_task, free_task,
}

-- From `p` on the nodes hold these addresses and tasks, in ascending order from `lo`, and below
-- `hi`; the last one points nowhere.
abbrev pub Segment : Cells → ℕ → Option ℕ → List (ℕ × Task) → ℕ → Type 0
Segment cell lo p [] hi = (p ≡ none) × (lo ≤ hi)
Segment cell lo p ((a, t) ∷ xs) hi =
    (p ≡ some a)
    × (lo ≤ a)
    × ((next : Option ℕ) × (cell a ≡ some (record { task = t; next = next }))
        × Segment cell (a + 1) next xs hi)

abbrev pub last_of : Option ℕ → List (ℕ × Task) → Option ℕ
last_of d [] = d
last_of d ((a, t) ∷ xs) = last_of (some a) xs

abbrev pub LastFits : Option ℕ → List (ℕ × Task) → Type 0
LastFits l [] = Unit {0}
LastFits l ((a, t) ∷ xs) = l ≡ last_of (some a) xs

-- The fields hold exactly the list `xs`.
pub record Holds (q : Tasks) (lo : ℕ) (xs : List (ℕ × Task)) : Type 0 where
  pub nodes : Segment q.cell lo q.first xs q.fresh
  pub ends : LastFits q.last xs

abbrev pub tasks_of : List (ℕ × Task) → List Task
tasks_of [] = []
tasks_of ((a, t) ∷ xs) = t ∷ tasks_of xs

pub tasks_of-append :
    (xs : List (ℕ × Task)) (a : ℕ) (t : Task)
    → tasks_of (xs ++ ((a, t) ∷ [])) ≡ tasks_of xs ++ (t ∷ [])
tasks_of-append [] a t = refl
tasks_of-append ((b, u) ∷ xs) a t = ap (λ (l : List Task). u ∷ l) (tasks_of-append xs a t)

-- Cells outside the segment do not matter.
Segment-update :
    (cell : Cells) (lo : ℕ) (p : Option ℕ) (xs : List (ℕ × Task)) (hi b : ℕ) (v : Option Node)
    → b < lo
    → Segment cell lo p xs hi
    → Segment (update cell b v) lo p xs hi
Segment-update cell lo p [] hi b v lt s = s
Segment-update cell lo p ((a, t) ∷ xs) hi b v lt (e, le, (next, c, s)) =
    (e, le, (next, ground arith, Segment-update cell (a + 1) next xs hi b v (omega arith) s))

-- The heap after a node with the task `t` at `hi` is linked behind the node at `l`.
abbrev extended : Cells → ℕ → Task → ℕ → Node → Cells
extended cell hi t l node =
    update (update cell hi (some (record { task = t; next = none }))) l
      (some (record node { next = some hi }))

Segment-extended :
    (cell : Cells) (lo : ℕ) (p : Option ℕ) (b : ℕ) (u : Task) (xs : List (ℕ × Task)) (hi : ℕ)
    (t : Task) (l : ℕ)
    → Segment cell lo p ((b, u) ∷ xs) hi
    → last_of (some b) xs ≡ some l
    → (node : Node) × (cell l ≡ some node)
      × (l < hi)
      × (lo ≤ l)
      × Segment (extended cell hi t l node) lo p (((b, u) ∷ xs) ++ ((hi, t) ∷ [])) (hi + 1)
Segment-extended cell lo p b u [] hi t l (e, le, (next, c, (ne, le'))) q = (
  record { task = u; next = none },
  ground arith,
  ground arith,
  ground arith,
  (e, le, (some hi, ground arith, (refl, le', (none, ground arith, (refl, omega arith))))),
)
Segment-extended cell lo p b u ((d, v) ∷ xs) hi t l (e, le, (next, c, s)) q =
    let (node, cl, lt, ge, s') = Segment-extended cell (b + 1) next d v xs hi t l s q in
    (node, cl, lt, omega arith, (e, le, (next, ground arith, s')))

last_some : (a : ℕ) (xs : List (ℕ × Task)) → (l : ℕ) × (last_of (some a) xs ≡ some l)
last_some a [] = (a, refl)
last_some a ((b, t) ∷ xs) = last_some b xs

last_of-append :
    (d : Option ℕ) (xs : List (ℕ × Task)) (a : ℕ) (t : Task)
    → last_of d (xs ++ ((a, t) ∷ [])) ≡ some a
last_of-append d [] a t = refl
last_of-append d ((b, u) ∷ xs) a t = last_of-append (some b) xs a t

-- What `append_task` leaves.
abbrev pub Appended : Tasks → ℕ → List (ℕ × Task) → Task → Type 0
Appended q lo xs t =
    (q' : Tasks) × (append_task t q ≡ some q')
    × Holds q' lo (xs ++ ((q.fresh, t) ∷ []))
    × (q'.fresh ≡ q.fresh + 1)

append_to_empty : (q : Tasks) (lo : ℕ) (t : Task) → Holds q lo [] → Appended q lo [] t
unfolding append_task
append_to_empty q lo t h = (
  record {
    cell = update q.cell q.fresh (some (record { task = t; next = none }));
    first = some q.fresh;
    last = some q.fresh;
    fresh = q.fresh + 1;
  },
  ground arith,
  record { nodes = (refl, h.nodes.1, (none, ground arith, (refl, omega arith))); ends = refl },
  refl,
)

append_task-linked :
    (q : Tasks) (b l : ℕ) (t : Task)
    → q.first ≡ some b
    → q.last ≡ some l
    → append_task t q
      ≡ linked q q.fresh (
          set_next
            (update q.cell q.fresh (some (record { task = t; next = none })))
            l
            q.fresh
            (update q.cell q.fresh (some (record { task = t; next = none })) l))
unfolding append_task
append_task-linked q b l t e f = rw (e, f)

append_task-extended :
    (q : Tasks) (b l : ℕ) (t : Task) (node : Node)
    → q.first ≡ some b
    → q.last ≡ some l
    → q.cell l ≡ some node
    → l < q.fresh
    → append_task t q
      ≡ some (record {
        cell = extended q.cell q.fresh t l node;
        first = q.first;
        last = some q.fresh;
        fresh = q.fresh + 1;
      })
append_task-extended q b l t node e f c lt =
    append_task-linked q b l t e f
    ∙ ap
        (λ (o : Option Node).
          linked q q.fresh (
            set_next (update q.cell q.fresh (some (record { task = t; next = none }))) l q.fresh o))
        (before c lt)
  where
    before :
        q.cell l ≡ some node
        → l < q.fresh
        → update q.cell q.fresh (some (record { task = t; next = none })) l ≡ some node
    before c lt = ground arith

append_to_some :
    (q : Tasks) (lo b : ℕ) (u : Task) (xs : List (ℕ × Task)) (t : Task)
    → Holds q lo ((b, u) ∷ xs)
    → Appended q lo ((b, u) ∷ xs) t
unfolding append_task
append_to_some q lo b u xs t h =
    let (l, e) = last_some b xs in
    let (node, cl, lt, ge, s) = Segment-extended q.cell lo q.first b u xs q.fresh t l h.nodes e in
    (
      record {
        cell = extended q.cell q.fresh t l node;
        first = q.first;
        last = some q.fresh;
        fresh = q.fresh + 1;
      },
      append_task-extended q b l t node h.nodes.0 (h.ends ∙ e) cl lt,
      record { nodes = s; ends = sym (last_of-append (some b) xs q.fresh t) },
      refl,
    )

-- On a list that the fields hold, `append_task` meets no dangling pointer, and the fields then hold
-- the list with the task at its end, in the new node.
pub append_task-Holds :
    (q : Tasks) (lo : ℕ) (xs : List (ℕ × Task)) (t : Task) → Holds q lo xs → Appended q lo xs t
append_task-Holds q lo [] t h = append_to_empty q lo t h
append_task-Holds q lo ((b, u) ∷ xs) t h = append_to_some q lo b u xs t h

LastFits-tail :
    (l : Option ℕ) (a : ℕ) (t : Task) (xs : List (ℕ × Task))
    → LastFits l ((a, t) ∷ xs)
    → LastFits l xs
LastFits-tail l a t [] e = tt
LastFits-tail l a t ((b, u) ∷ xs) e = e

-- On a list that is not empty, `take_task` at `first` gives its first task, and the fields then
-- hold the rest, all of whose nodes lie above the one taken.
pub take_task-Holds :
    (q : Tasks) (lo a : ℕ) (t : Task) (xs : List (ℕ × Task))
    → Holds q lo ((a, t) ∷ xs)
    → (q.first ≡ some a)
      × (lo ≤ a)
      × ((q' : Tasks) × (take_task a q ≡ some (t, q')) × Holds q' (a + 1) xs × (q'.fresh ≡ q.fresh))
unfolding take_task
take_task-Holds q lo a t xs h =
    let (e, le, (next, c, s)) = h.nodes in
    (
      e,
      le,
      (
        record q { first = next },
        ground arith,
        record { nodes = s; ends = LastFits-tail q.last a t xs h.ends },
        refl,
      ),
    )

-- Freeing a node below the list leaves the list.
pub free_task-Holds :
    (q : Tasks) (lo : ℕ) (xs : List (ℕ × Task)) (a : ℕ)
    → a < lo
    → Holds q lo xs
    → Holds (free_task a q) lo xs
free_task-Holds q lo xs a lt h = record {
  nodes = Segment-update q.cell lo q.first xs q.fresh a none lt h.nodes;
  ends = h.ends;
}
