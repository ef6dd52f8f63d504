-- ===== src/Small/Events.antt =====
-- libevent-server.cpp: a server on the library libevent.
use network_code.Base.{
  ℕ, ◌≡◌, refl, Bool, false, ◌||◌, Option, none, some, List, [], ◌∷◌, ◌++◌, ltb, ◌==◌,
  if◌then◌else◌, c_str, length, arith, Bool-cases, inl, inr,
}

-- The descriptors whose event is registered, those that are open, and the lines shown.
pub record EventBase : Type 0 where
  pub registered : List ℕ
  pub connected : List ℕ
  pub shown : List (List ℕ)

-- A callback returns, exits the process, or writes behind its array.
pub data After : Type 0 where
  returns : EventBase → After
  exits : ℕ → After
  faults : After

abbrev remove : ℕ → List ℕ → List ℕ
remove fd [] = []
remove fd (g ∷ fds) = if fd == g then fds else g ∷ remove fd fds

-- `event_del`, `delete` and `close`.
abbrev pub drop_client : ℕ → EventBase → EventBase
drop_client fd s = record s {
  registered = remove fd s.registered;
  connected = remove fd s.connected;
}

-- `onRead`, for what `recv` gives: `none` for an error. It gives at most 1500 bytes.
unfoldable pub on_read : ℕ → Option (List ℕ) → EventBase → After
on_read fd none s = returns (drop_client fd s)
on_read fd (some []) s = returns (drop_client fd s)
on_read fd (some (c ∷ bytes)) s =
    if ltb (length (c ∷ bytes)) 1500
    then returns (record s { shown = s.shown ++ (c_str (c ∷ bytes) ∷ []) })
    else faults

-- `onAccept`, for the descriptor that `accept` gives.
unfoldable pub on_accept : Option ℕ → EventBase → After
on_accept none s = exits 2
on_accept (some fd) s =
    returns (record s { registered = fd ∷ s.registered; connected = fd ∷ s.connected })

-- What `event_base_dispatch` calls: `onAccept`, or `onRead` for a descriptor that is registered.
pub data Call : Type 0 where
  accepts : Option ℕ → Call
  reads : ℕ → Option (List ℕ) → Call

abbrev pub contains : ℕ → List ℕ → Bool
contains fd [] = false
contains fd (g ∷ fds) = (fd == g) || contains fd fds

abbrev pub call : Call → EventBase → After
call (accepts o) s = on_accept o s
call (reads fd o) s = if contains fd s.registered then on_read fd o s else returns s

abbrev pub next_call : (EventBase → After) → After → After
next_call f (returns s) = f s
next_call f (exits n) = exits n
next_call f faults = faults

unfoldable pub dispatch : List Call → EventBase → After
dispatch [] s = returns s
dispatch (c ∷ cs) s = next_call (dispatch cs) (call c s)

-- `main`, given whether `listen` succeeds; the results of `socket` and `bind` are not read.
unfoldable pub events_main : Bool → List Call → After
events_main listen cs =
    if listen then dispatch cs (record { registered = []; connected = []; shown = [] }) else exits 1

-- Exactly the open descriptors have their event registered.
abbrev Kept : After → Type 0
Kept (returns s) = s.registered ≡ s.connected
Kept (exits n) = Unit {0}
Kept faults = Unit {0}

on_read-Kept :
    (fd : ℕ) (o : Option (List ℕ)) (s : EventBase)
    → s.registered ≡ s.connected
    → Kept (on_read fd o s)
unfolding on_read
on_read-Kept fd none s e = rw e refl
on_read-Kept fd (some []) s e = rw e refl
on_read-Kept fd (some (c ∷ bytes)) s e = elim (Bool-cases (ltb (length (c ∷ bytes)) 1500)) [
  | inl h ↦ rw h e
  | inr h ↦ rw h tt
]

call-Kept : (c : Call) (s : EventBase) → s.registered ≡ s.connected → Kept (call c s)
unfolding on_accept
call-Kept (accepts none) s e = tt
call-Kept (accepts (some fd)) s e = rw e refl
call-Kept (reads fd o) s e = elim (Bool-cases (contains fd s.registered)) [
  | inl h ↦ rw h (on_read-Kept fd o s e)
  | inr h ↦ rw h e
]

-- After any calls that return, exactly the open descriptors have their event registered: none is
-- closed with its event left, and none is left open without.
dispatch-Kept : (cs : List Call) (s : EventBase) → s.registered ≡ s.connected → Kept (dispatch cs s)
unfolding dispatch
dispatch-Kept [] s e = e
dispatch-Kept (c ∷ cs) s e = go (call c s) (call-Kept c s e) (λ t. dispatch-Kept cs t)
  where
    go :
        (r : After)
        → Kept r
        → ((t : EventBase) → t.registered ≡ t.connected → Kept (dispatch cs t))
        → Kept (next_call (dispatch cs) r)
    go (returns t) k ih = ih t k
    go (exits n) k ih = tt
    go faults k ih = tt

-- A full array is written behind its end.
full_read_faults :
    (fd c : ℕ) (bytes : List ℕ) (s : EventBase)
    → length (c ∷ bytes) ≡ 1500
    → on_read fd (some (c ∷ bytes)) s ≡ faults
unfolding on_read
full_read_faults fd c bytes s e = ground arith
