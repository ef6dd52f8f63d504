-- ===== src/Weather/Race/Phases.antt =====
-- Where the programs of weather_server/wwwroot/cgi/register.cpp stand that have read the counter, and
-- what storing one more address does to the list of users.
use network_code.Base.{
  ℕ, ◌+◌, ◌^◌, ◌<◌, ◌≤◌, ◌≡◌, refl, ◌∙◌, Bool, true, false, ◌||◌, some, List, [], ◌∷◌, ◌++◌, arith,
  length, print_nat,
}
use mathlib.Core.Path.{subst}
use network_code.Weather.Keys.{user, user-ne}
use network_code.Weather.Register.{Redis, Keeps}
use network_code.Weather.Count.{Listed}
use network_code.Weather.Race.{Stage, raises, names, reads, finished, Turn, one, other}

-- Where a program stands that has read the counter.
pub data Phase : Type 0 where
  raising : Phase
  naming : Phase
  reading : Phase
  done : List ℕ → Phase

abbrev pub counted : Phase → Bool
counted raising = false
counted naming = true
counted reading = true
counted (done out) = true

abbrev pub stored : Phase → Bool
stored raising = false
stored naming = false
stored reading = true
stored (done out) = true

-- How many steps are left.
abbrev pub left : Phase → ℕ
left raising = 3
left naming = 2
left reading = 1
left (done out) = 0

-- The program with this address that has read `n`.
abbrev pub stage : ℕ → List ℕ → Phase → Stage
stage n email raising = raises email (print_nat n) (print_nat (n + 1))
stage n email naming = names email (print_nat n)
stage n email reading = reads
stage n email (done out) = finished out

-- How many turns of a schedule are those of the one program, and of the other.
abbrev pub ones : List Turn → ℕ
ones [] = 0
ones (one ∷ ts) = 1 + ones ts
ones (other ∷ ts) = ones ts

abbrev pub others : List Turn → ℕ
others [] = 0
others (one ∷ ts) = others ts
others (other ∷ ts) = 1 + others ts

pub or_swap : (x y : Bool) → (x || y) ≡ true → (y || x) ≡ true
or_swap x y e = ground (arith, e)

pub left-zero : (x : Phase) → left x ≡ 0 → (out : List ℕ) × (x ≡ done out)
left-zero raising e = absurd (omega (arith, e))
left-zero naming e = absurd (omega (arith, e))
left-zero reading e = absurd (omega (arith, e))
left-zero (done out) e = (out, refl)

module _ (r : Redis) (k : Keeps r) where
  open r use {Db}

  pub Listed-one_more :
      (db : Db) (i : ℕ) (ms : List (List ℕ)) (j : ℕ) (v : List ℕ)
      → i + length ms ≡ j
      → r.hget (user j) db ≡ some (some v)
      → Listed r k db i ms
      → Listed r k db i (ms ++ (v ∷ []))
  Listed-one_more db i [] j v h e l = (
    subst (λ (x : ℕ). r.hget (user x) db ≡ some (some v)) {x = j} {y = i} (omega (arith, h)) e,
    tt,
  )
  Listed-one_more db i (m ∷ ms) j v h e (f, l) =
      (f, Listed-one_more db (i + 1) ms j v (omega (arith, h)) e l)

  pub Listed-user :
      (db : Db) (i : ℕ) (ms : List (List ℕ)) (j : ℕ) (v : List ℕ)
      → i + length ms ≤ j
      → j < 2 ^ 31
      → Listed r k db i ms
      → Listed r k (k.after_hset (user j) v db) i ms
  Listed-user db i [] j v h small l = tt
  Listed-user db i (m ∷ ms) j v h small (e, l) = (
    k.hget_other (user j) (user i) v db (user-ne j i small (omega arith) (omega arith)) ∙ e,
    Listed-user db (i + 1) ms j v (omega arith) small l,
  )
