-- ===== src/Fifo.antt =====
-- What a first-in first-out queue promises, as steps and runs: the specification that the queues of
-- the programs refine.
use network_code.Base.{
  ℕ, ◌<◌, ◌≡◌, sym, ap, ◌∙◌, List, [], ◌∷◌, ◌++◌, length, append_assoc, append-nil,
}

-- What a step shows: nothing, an element that comes in, or one that goes out.
pub data Event {ℓ} (A : Type ℓ) : Type ℓ where
  nothing : Event A
  enters : A → Event A
  leaves : A → Event A

-- One step of a queue that never holds more than `cap` elements.
pub data QueueStep {ℓ} {A : Type ℓ} (cap : ℕ) (q : List A) : Event A → List A → Type ℓ where
  idle : QueueStep cap q nothing q
  arrive : (x : A) → length q < cap → QueueStep cap q (enters x) (q ++ (x ∷ []))
  depart : (x : A) (r : List A) → q ≡ x ∷ r → QueueStep cap q (leaves x) r

pub data QueueRun {ℓ} {A : Type ℓ} (cap : ℕ) : List A → List (Event A) → List A → Type ℓ where
  done : (q : List A) → QueueRun cap q [] q
  step :
      {q r t : List A} {e : Event A} {es : List (Event A)}
      → QueueStep cap q e r
      → QueueRun cap r es t
      → QueueRun cap q (e ∷ es) t

-- The elements that came in, and those that went out.
abbrev pub entered {ℓ} : {A : Type ℓ} → List (Event A) → List A
entered [] = []
entered (nothing ∷ es) = entered es
entered (enters x ∷ es) = x ∷ entered es
entered (leaves x ∷ es) = entered es

abbrev pub left {ℓ} : {A : Type ℓ} → List (Event A) → List A
left [] = []
left (nothing ∷ es) = left es
left (enters x ∷ es) = left es
left (leaves x ∷ es) = x ∷ left es

-- In every run of the specification, what was there and what came in is, in order, what went out and
-- what is still there.
pub run_in_order {ℓ} :
    {A : Type ℓ} {cap : ℕ} {q t : List A} {es : List (Event A)}
    → QueueRun cap q es t
    → q ++ entered es ≡ left es ++ t
run_in_order (done q) = append-nil q
run_in_order (step idle r) = run_in_order r
run_in_order (step {q} {es = es} (arrive x h) r) =
    sym (append_assoc q (x ∷ []) (entered es)) ∙ run_in_order r
run_in_order (step {es = es} (depart x r e) run) =
    ap (λ q. q ++ entered es) e ∙ ap (λ l. x ∷ l) (run_in_order run)
