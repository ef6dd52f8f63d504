-- ===== src/Pool/Counts.antt =====
-- Sums and conditions over the list of workers of Thread_pool/thread_pool.c.
use network_code.Base.{
  ℕ, zero, suc, ◌+◌, ◌≤◌, ◌<◌, ◌≡◌, some, List, [], ◌∷◌, ◌++◌, arith, get_elem?, set,
}
use mathlib.Core.Path.{subst}
use network_code.Pool.Worker.{Pc, at_top, waiting, running, exited}

abbrev pub waits : Pc → ℕ
waits waiting = 1
waits at_top = 0
waits (running a t timeout) = 0
waits exited = 0

abbrev pub lives : Pc → ℕ
lives exited = 0
lives at_top = 1
lives waiting = 1
lives (running a t timeout) = 1

unfoldable pub total : (Pc → ℕ) → List Pc → ℕ
total w [] = 0
total w (p ∷ ps) = w p + total w ps

pub total-set :
    (w : Pc → ℕ) (ps : List Pc) (i : ℕ) (p p' : Pc)
    → get_elem? ps i ≡ some p
    → total w (set ps i p') + w p ≡ total w ps + w p'
unfolding total
total-set w [] i p p' e = absurd (cc)
total-set w (q ∷ ps) zero p p' e = ground arith
total-set w (q ∷ ps) (suc i) p p' e = omega (arith, total-set w ps i p p' e)

pub total-append :
    (w : Pc → ℕ) (ps : List Pc) (p : Pc) → total w (ps ++ (p ∷ [])) ≡ total w ps + w p
unfolding total
total-append w [] p = omega arith
total-append w (q ∷ ps) p = omega (arith, total-append w ps p)

pub total_ge :
    (w : Pc → ℕ) (ps : List Pc) (i : ℕ) (p : Pc) → get_elem? ps i ≡ some p → w p ≤ total w ps
unfolding total
total_ge w [] i p e = absurd (cc)
total_ge w (q ∷ ps) zero p e = ground arith
total_ge w (q ∷ ps) (suc i) p e = omega (arith, total_ge w ps i p e)

-- The node that a worker owns was taken off below `lo`.
abbrev pub Below : ℕ → Pc → Type 0
Below lo at_top = Unit {0}
Below lo waiting = Unit {0}
Below lo (running a t timeout) = a < lo
Below lo exited = Unit {0}

abbrev pub AllBelow : ℕ → List Pc → Type 0
AllBelow lo [] = Unit {0}
AllBelow lo (p ∷ ps) = Below lo p × AllBelow lo ps

Below-mono : (lo lo' : ℕ) (p : Pc) → lo ≤ lo' → Below lo p → Below lo' p
Below-mono lo lo' at_top h b = tt
Below-mono lo lo' waiting h b = tt
Below-mono lo lo' (running a t timeout) h b = omega arith
Below-mono lo lo' exited h b = tt

AllBelow-mono : (lo lo' : ℕ) (ps : List Pc) → lo ≤ lo' → AllBelow lo ps → AllBelow lo' ps
AllBelow-mono lo lo' [] h bs = tt
AllBelow-mono lo lo' (p ∷ ps) h (b, bs) = (Below-mono lo lo' p h b, AllBelow-mono lo lo' ps h bs)

pub AllBelow-set :
    (lo lo' : ℕ) (ps : List Pc) (i : ℕ) (p : Pc)
    → lo ≤ lo'
    → Below lo' p
    → AllBelow lo ps
    → AllBelow lo' (set ps i p)
AllBelow-set lo lo' [] i p h b bs = tt
AllBelow-set lo lo' (q ∷ ps) zero p h b (c, bs) = (b, AllBelow-mono lo lo' ps h bs)
AllBelow-set lo lo' (q ∷ ps) (suc i) p h b (c, bs) =
    (Below-mono lo lo' q h c, AllBelow-set lo lo' ps i p h b bs)

pub AllBelow-append :
    (lo : ℕ) (ps : List Pc) (p : Pc) → Below lo p → AllBelow lo ps → AllBelow lo (ps ++ (p ∷ []))
AllBelow-append lo [] p b bs = (b, tt)
AllBelow-append lo (q ∷ ps) p b (c, bs) = (c, AllBelow-append lo ps p b bs)

pub AllBelow-get :
    (lo : ℕ) (ps : List Pc) (i : ℕ) (p : Pc) → get_elem? ps i ≡ some p → AllBelow lo ps → Below lo p
AllBelow-get lo [] i p e bs = absurd (cc)
AllBelow-get lo (q ∷ ps) zero p e (b, bs) = let same : q ≡ p = cc in subst (Below lo) same b
AllBelow-get lo (q ∷ ps) (suc i) p e (b, bs) = AllBelow-get lo ps i p e bs

pub lives_le : (p : Pc) → lives p ≤ 1
lives_le p = ground arith
