-- ===== src/Weather/Keys.antt =====
-- The keys that weather_server/wwwroot/cgi/register.cpp stores under, and the room for their numbers.
use network_code.Base.{
  ℕ, zero, suc, ◌+◌, ◌/◌, ◌%◌, ◌^◌, ◌<◌, ◌≤◌, ◌≡◌, ◌≢◌, refl, ap, pos, true, List, [], ◌∷◌, ◌++◌,
  arith, length, codes, print_nat, print_int, print_fuel, atoi, lt→ltb,
}
use native.Mathlib.Nat.{pow-suc}
use network_code.Base.Decimal.{no_nul, print_nat-no_nul, atoi-print_nat_alone}
use network_code.Weather.Register.{gives, itoa}

length-print_fuel :
    (f n k : ℕ) (out : List ℕ) → n < 10 ^ suc k → length (print_fuel f n out) ≤ suc k + length out
unfolding print_fuel
length-print_fuel zero n k out small = omega arith
length-print_fuel (suc f) n zero out small = ground (arith, small)
length-print_fuel (suc f) n (suc k) out small =
    ground (arith, length-print_fuel f (n / 10) k ((48 + n % 10) ∷ out), pow-suc 10 (suc k))

length-print_nat : (n : ℕ) → n < 10 ^ 7 → length (print_nat n) ≤ 7
unfolding print_nat
length-print_nat n small = omega (arith, length-print_fuel 20 n 6 [] small)

pub itoa-print_nat : (n : ℕ) → n < 10 ^ 7 → itoa (pos n) ≡ gives (print_nat n)
unfolding itoa print_int
itoa-print_nat n small =
    rw (lt→ltb (length (print_nat n)) 8 (omega (arith, length-print_nat n small))) refl

abbrev pub count_key : List ℕ
count_key = codes "UserCount"

abbrev pub user : ℕ → List ℕ
user i = codes "user" ++ print_nat i

pub user-no_nul : (i : ℕ) → no_nul (user i) ≡ true
user-no_nul i = print_nat-no_nul i

pub user-ne : (a b : ℕ) → a < 2 ^ 31 → b < 2 ^ 31 → a ≢ b → user a ≢ user b
user-ne a b ha hb ne e =
    let same : print_nat a ≡ print_nat b = cc in
    ne (cc (atoi-print_nat_alone a ha, atoi-print_nat_alone b hb, ap atoi same))

abbrev first : List ℕ → ℕ
first [] = 0
first (c ∷ s) = c

pub count_key-ne : (i : ℕ) → count_key ≢ user i
count_key-ne i e = let capital : 85 ≡ 117 = ap first e in absurd (omega (arith, capital))
