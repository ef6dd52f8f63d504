-- ===== src/Base/Decimal.antt =====
-- `atoi` reads back what `%d` writes.
use Prim.Native.Nat.{ℕ, zero, suc, ◌+◌, ◌*◌, ◌/◌, ◌%◌, ◌^◌, ◌<◌}
use mathlib.Core.Path.{◌≡◌, refl, sym, ap, ◌∙◌}
use mathlib.Core.Bool.{Bool, true, false, ◌&&◌}
use mathlib.Core.List.{List, [], ◌∷◌, ◌++◌, append-nil}
use native.Mathlib.Omega.{arith}
use native.Mathlib.Nat.{pow-suc}
use network_code.Base.Tests.{◌==◌, if◌then◌else◌}
use network_code.Base.Int.{pos}
use network_code.Base.Text.{
  c_str, is_digit, skip_spaces, digits_value, signed_value, long_to_int, atoi, print_fuel,
  print_nat,
}

-- Every element passes the test.
abbrev pub all {ℓ} : {A : Type ℓ} → (A → Bool) → List A → Bool
all p [] = true
all p (x ∷ xs) = p x && all p xs

abbrev starts_digit : List ℕ → Bool
starts_digit [] = false
starts_digit (c ∷ s) = is_digit c

-- No digit follows.
abbrev pub number_ends : List ℕ → Bool
number_ends [] = true
number_ends (c ∷ s) = if is_digit c then false else true

print_fuel-append :
    (f n : ℕ) (out rest : List ℕ) → print_fuel f n out ++ rest ≡ print_fuel f n (out ++ rest)
unfolding print_fuel
print_fuel-append zero n out rest = refl
print_fuel-append (suc f) n out rest =
    ground (arith, print_fuel-append f (n / 10) ((48 + n % 10) ∷ out) rest)

print_fuel-starts :
    (f n : ℕ) (out : List ℕ) → starts_digit out ≡ true → starts_digit (print_fuel f n out) ≡ true
unfolding print_fuel
print_fuel-starts zero n out h = h
print_fuel-starts (suc f) n out h =
    ground (arith, print_fuel-starts f (n / 10) ((48 + n % 10) ∷ out))

digit_step :
    (acc d : ℕ) (out : List ℕ)
    → d < 10
    → digits_value acc ((48 + d) ∷ out) ≡ digits_value (acc * 10 + d) out
unfolding digits_value
digit_step acc d out h = ground arith

digits_value-print_fuel :
    (f n : ℕ) (out : List ℕ) → n < 10 ^ f → digits_value 0 (print_fuel f n out) ≡ digits_value n out
unfolding print_fuel
digits_value-print_fuel zero n out h = ground arith
digits_value-print_fuel (suc f) n out h = ground (
  arith,
  digit_step 0 n out,
  digit_step (n / 10) (n % 10) out,
  pow-suc 10 f,
  digits_value-print_fuel f (n / 10) ((48 + n % 10) ∷ out),
)

digits_value-ends : (n : ℕ) (rest : List ℕ) → number_ends rest ≡ true → digits_value n rest ≡ n
unfolding digits_value
digits_value-ends n [] h = refl
digits_value-ends n (c ∷ rest) h = ground arith

skip_spaces-digit : (s : List ℕ) → starts_digit s ≡ true → skip_spaces s ≡ s
skip_spaces-digit [] h = refl
skip_spaces-digit (c ∷ s) h = ground arith

signed_value-digit :
    (s : List ℕ) → starts_digit s ≡ true → signed_value s ≡ long_to_int false (digits_value 0 s)
signed_value-digit [] h = cc
signed_value-digit (c ∷ s) h = ground arith

print_fuel-first_digit : (f n : ℕ) (out : List ℕ) → starts_digit (print_fuel (suc f) n out) ≡ true
unfolding print_fuel
print_fuel-first_digit f n out = ground (arith, print_fuel-starts f (n / 10) ((48 + n % 10) ∷ out))

print_nat-starts : (n : ℕ) (rest : List ℕ) → starts_digit (print_nat n ++ rest) ≡ true
unfolding print_nat
print_nat-starts n rest = rw (print_fuel-append 20 n [] rest) (print_fuel-first_digit 19 n rest)

digits_value-print_nat :
    (n : ℕ) (rest : List ℕ)
    → n < 2 ^ 31
    → digits_value 0 (print_nat n ++ rest) ≡ digits_value n rest
unfolding print_nat
digits_value-print_nat n rest h =
    rw (print_fuel-append 20 n [] rest) (digits_value-print_fuel 20 n rest (omega arith))

-- A number below 2 ^ 31, printed and followed by no digit, is read back.
pub atoi-print_nat :
    (n : ℕ) (rest : List ℕ)
    → n < 2 ^ 31
    → number_ends rest ≡ true
    → atoi (print_nat n ++ rest) ≡ pos n
unfolding atoi
atoi-print_nat n rest h e = ground (
  arith,
  skip_spaces-digit (print_nat n ++ rest) (print_nat-starts n rest),
  signed_value-digit (print_nat n ++ rest) (print_nat-starts n rest),
  digits_value-print_nat n rest h,
  digits_value-ends n rest e,
)

abbrev pub no_nul : List ℕ → Bool
no_nul [] = true
no_nul (c ∷ s) = if c == 0 then false else no_nul s

pub c_str-no_nul : (s : List ℕ) → no_nul s ≡ true → c_str s ≡ s
c_str-no_nul [] h = refl
c_str-no_nul (c ∷ s) h = ground (arith, c_str-no_nul s)

print_fuel-no_nul :
    (f n : ℕ) (out : List ℕ) → no_nul out ≡ true → no_nul (print_fuel f n out) ≡ true
unfolding print_fuel
print_fuel-no_nul zero n out h = h
print_fuel-no_nul (suc f) n out h =
    ground (arith, print_fuel-no_nul f (n / 10) ((48 + n % 10) ∷ out))

-- A printed number holds no NUL.
pub c_str-print_nat :
    (n : ℕ) (rest : List ℕ) → no_nul rest ≡ true → c_str (print_nat n ++ rest) ≡ print_nat n ++ rest
unfolding print_nat
c_str-print_nat n rest h =
    c_str-no_nul (print_fuel 20 n [] ++ rest)
      (rw (print_fuel-append 20 n [] rest) (print_fuel-no_nul 20 n rest h))

pub c_str-append_nul : (s t : List ℕ) → no_nul s ≡ true → c_str (s ++ 0 ∷ t) ≡ s
c_str-append_nul [] t h = refl
c_str-append_nul (c ∷ s) t h = ground (arith, c_str-append_nul s t)

pub print_nat-no_nul : (n : ℕ) → no_nul (print_nat n) ≡ true
unfolding print_nat
print_nat-no_nul n = print_fuel-no_nul 20 n [] refl

-- A printed number in an array ends at the NUL.
pub c_str-print_nat_nul : (n : ℕ) (t : List ℕ) → c_str (print_nat n ++ 0 ∷ t) ≡ print_nat n
c_str-print_nat_nul n t = c_str-append_nul (print_nat n) t (print_nat-no_nul n)

-- A printed number alone is read back.
pub atoi-print_nat_alone : (n : ℕ) → n < 2 ^ 31 → atoi (print_nat n) ≡ pos n
atoi-print_nat_alone n h = ap atoi (sym (append-nil (print_nat n))) ∙ atoi-print_nat n [] h refl

print_fuel-all :
    (p : ℕ → Bool) (f n : ℕ) (out : List ℕ)
    → ((d : ℕ) → d < 10 → p (48 + d) ≡ true)
    → all p out ≡ true
    → all p (print_fuel f n out) ≡ true
unfolding print_fuel
print_fuel-all p zero n out digits h = h
print_fuel-all p (suc f) n out digits h =
    ground
      (arith, digits n, digits (n % 10), print_fuel-all p f (n / 10) ((48 + n % 10) ∷ out) digits)

-- A test that every digit passes is passed by every character of a printed number.
pub print_nat-all :
    (p : ℕ → Bool) (n : ℕ) → ((d : ℕ) → d < 10 → p (48 + d) ≡ true) → all p (print_nat n) ≡ true
unfolding print_nat
print_nat-all p n digits = print_fuel-all p 20 n [] digits refl
