-- ===== src/Pool/Condition.antt =====
-- Thread_pool/condition.c: a mutex with a condition variable.
use network_code.Base.{ℕ, ◌≡◌, ap, if◌then◌else◌, arith, ◌==◌}

-- The calls of pthread on the two members, as a parameter: each gives its status, which is 0 if it
-- succeeds, and the new state of both.
pub record Pthread : Type 1 where
  pub State : Type 0
  pub mutex_init : State → ℕ × State
  pub mutex_lock : State → ℕ × State
  pub mutex_unlock : State → ℕ × State
  pub mutex_destroy : State → ℕ × State
  pub cond_init : State → ℕ × State
  pub cond_wait : State → ℕ × State
  pub cond_timedwait : (abstime : ℕ) → State → ℕ × State
  pub cond_signal : State → ℕ × State
  pub cond_broadcast : State → ℕ × State
  pub cond_destroy : State → ℕ × State

module _ (p : Pthread) where
  -- Two calls, of which the second is made only if the first succeeds: 1 or 2 says which one failed.
  abbrev pub second_of : (p.State → ℕ × p.State) → ℕ × p.State → ℕ × p.State
  second_of call (status, s) =
      if status == 0
      then (let (status', s') = call s in (if status' == 0 then 0 else 2, s'))
      else (1, s)

  unfoldable pub condition_init : p.State → ℕ × p.State
  condition_init s = second_of p.cond_init (p.mutex_init s)

  unfoldable pub condition_lock : p.State → ℕ × p.State
  condition_lock = p.mutex_lock

  unfoldable pub condition_unlock : p.State → ℕ × p.State
  condition_unlock = p.mutex_unlock

  unfoldable pub condition_wait : p.State → ℕ × p.State
  condition_wait = p.cond_wait

  unfoldable pub condition_signal : p.State → ℕ × p.State
  condition_signal = p.cond_signal

  unfoldable pub condition_timewait : ℕ → p.State → ℕ × p.State
  condition_timewait = p.cond_timedwait

  unfoldable pub condition_broadcast : p.State → ℕ × p.State
  condition_broadcast = p.cond_broadcast

  unfoldable pub condition_destroy : p.State → ℕ × p.State
  condition_destroy s = second_of p.cond_destroy (p.mutex_destroy s)

  second_of-zero :
      (call : p.State → ℕ × p.State) (status : ℕ) (s s' : p.State)
      → second_of call (status, s) ≡ (0, s')
      → (status ≡ 0) × ((call s).0 ≡ 0) × (s' ≡ (call s).1)
  second_of-zero call status s s' e =
      let e0 : (second_of call (status, s)).0 ≡ 0 = ap (λ (x : ℕ × p.State). x.0) e in
      let e1 : (second_of call (status, s)).1 ≡ s' = ap (λ (x : ℕ × p.State). x.1) e in
      (ground (arith, e0), ground (arith, e0), ground (arith, e0, e1))

  -- Both are made only if the result is 0; with 2 the mutex stays as it was made.
  pub condition_init-zero :
      (s s' : p.State)
      → condition_init s ≡ (0, s')
      → ((p.mutex_init s).0 ≡ 0)
        × ((p.cond_init (p.mutex_init s).1).0 ≡ 0)
        × (s' ≡ (p.cond_init (p.mutex_init s).1).1)
  unfolding condition_init
  condition_init-zero s s' e = second_of-zero p.cond_init (p.mutex_init s).0 (p.mutex_init s).1 s' e
