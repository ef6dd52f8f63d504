-- ===== src/LinuxChat/Ring/Held.antt =====
-- Messages in consecutive slots of the ring of LinuxChat/pool/pool.cpp.
use network_code.Base.{
  ℕ, zero, suc, ◌+◌, ◌-◌, ◌%◌, ◌<◌, ◌≤◌, ◌≡◌, ◌≢◌, sym, ap, ◌∙◌, some, List, [], ◌∷◌, ◌++◌, arith,
  length, get_elem?, get_or, set, get_elem?-set_self, get_elem?-set_ne,
}
use native.Mathlib.Nat.{mod-eq_of_lt, mod-eq-sub-mod, mod-add-mod, mod-lt}
use native.Mathlib.Decide.{dec_lt}
use network_code.LinuxChat.Ring.{Message}

module _ (cap : ℕ) where
  -- The slot `n` steps after slot `i`.
  abbrev pub ahead : ℕ → ℕ → ℕ
  ahead zero i = i
  ahead (suc n) i = ahead n ((i + 1) % cap)

  -- The messages stand in the slots from `i` on, round the end.
  abbrev pub Held : List Message → ℕ → List Message → Type 0
  Held slots i [] = Unit {0}
  Held slots i (m ∷ ms) = (get_elem? slots i ≡ some m) × Held slots ((i + 1) % cap) ms

ahead_lem : (cap n i : ℕ) → i < cap → ahead cap n i ≡ (i + n) % cap
ahead_lem cap zero i h = sym (ap (λ k. k % cap) (omega arith) ∙ mod-eq_of_lt {n = i} {m = cap} h)
ahead_lem cap (suc n) i h =
    ahead_lem cap n ((i + 1) % cap) (mod-lt (i + 1) (omega arith))
    ∙ mod-add-mod (i + 1) cap n
    ∙ ap (λ k. k % cap) (omega arith)

pub ahead-lt : (cap n i : ℕ) → i < cap → ahead cap n i < cap
ahead-lt cap n i h = rw (ahead_lem cap n i h) (mod-lt (i + n) (omega arith))

-- Fewer than `cap` steps do not come back to the slot.
pub ahead-ne : (cap n i : ℕ) → i < cap → 0 < n → n < cap → ahead cap n i ≢ i
ahead-ne cap n i h pos lt = elim (dec_lt (i + n) cap) [
  | yes p ↦ omega (arith, ahead_lem cap n i h, mod-eq_of_lt {n = i + n} {m = cap} p)
  | no p ↦ omega (
    arith,
    ahead_lem cap n i h,
    mod-eq-sub-mod {n = i + n} {m = cap} (omega arith),
    mod-eq_of_lt {n = i + n - cap} {m = cap} (omega arith),
  )
]

-- One step further.
pub ahead-next : (cap n i : ℕ) → i < cap → ahead cap (n + 1) i ≡ (ahead cap n i + 1) % cap
ahead-next cap n i h =
    ahead_lem cap (n + 1) i h
    ∙ ap (λ k. k % cap) (omega arith)
    ∙ sym (mod-add-mod (i + n) cap 1)
    ∙ ap (λ k. (k + 1) % cap) (sym (ahead_lem cap n i h))

-- A message stored behind those that are held is held as the last one.
pub Held-set :
    (cap : ℕ) (slots : List Message) (i : ℕ) (ms : List Message) (j : ℕ) (m : Message)
    → cap ≤ length slots
    → i < cap
    → length ms < cap
    → j ≡ ahead cap (length ms) i
    → Held cap slots i ms
    → Held cap (set slots j m) i (ms ++ (m ∷ []))
Held-set cap slots i [] j m len h lt e held = rw e (get_elem?-set_self slots i m (omega arith), tt)
Held-set cap slots i (x ∷ ms) j m len h lt e (at_i, held) = (
  get_elem?-set_ne slots m
        (λ same. ahead-ne cap (suc (length ms)) i h (omega arith) lt (sym e ∙ same))
      ∙ at_i,
  Held-set cap slots ((i + 1) % cap) ms j m len (mod-lt (i + 1) (omega arith)) (omega arith) e held,
)

-- The slot of the first message gives it.
pub get_or-first :
    (slots : List Message) (i : ℕ) (m : Message)
    → get_elem? slots i ≡ some m
    → get_or slots i [] ≡ m
get_or-first [] i m e = cc
get_or-first (x ∷ slots) zero m e = cc
get_or-first (x ∷ slots) (suc i) m e = get_or-first slots i m e
