-- ===== src/Base/Text.antt =====
-- C strings as lists of bytes, and what the programs use of <string.h>, <ctype.h> and <stdlib.h>.
use Prim.Native.Nat.{ℕ, zero, suc, ◌+◌, ◌-◌, ◌*◌, ◌/◌, ◌%◌, ◌^◌}
use Prim.Native.Char.{code}
use Prim.Native.String.{String}
use mathlib.Core.Path.{◌≡◌, refl}
use mathlib.Core.Bool.{Bool, true, false, ◌&&◌, ◌||◌}
use mathlib.Core.List.{List, [], ◌∷◌, map}
use network_code.Base.Tests.{ltb, leb, ◌==◌, if◌then◌else◌}
use network_code.Base.Int.{ℤ, pos, negsuc, neg, signed32, pattern32}

-- The bytes of an ASCII text.
abbrev pub codes : String → List ℕ
codes String.[] = []
codes (String.◌∷◌ c s) = code c ∷ codes s

-- The string that an array of bytes holds: what stands before the first NUL.
abbrev pub c_str : List ℕ → List ℕ
c_str [] = []
c_str (c ∷ s) = if c == 0 then [] else c ∷ c_str s

-- Equality of byte strings: `strcmp(s, t) == 0` for strings without NUL.
abbrev pub str_eq : List ℕ → List ℕ → Bool
str_eq [] [] = true
str_eq [] (d ∷ t) = false
str_eq (c ∷ s) [] = false
str_eq (c ∷ s) (d ∷ t) = (c == d) && str_eq s t

-- `tolower` in the C locale.
abbrev pub to_lower : ℕ → ℕ
to_lower c = if leb 65 c && leb c 90 then c + 32 else c

-- `strcasecmp(s, t) == 0`
abbrev pub case_eq : List ℕ → List ℕ → Bool
case_eq s t = str_eq (map to_lower s) (map to_lower t)

-- `isspace` in the C locale.
abbrev pub is_space : ℕ → Bool
is_space c = (c == 32) || leb 9 c && leb c 13

abbrev pub is_digit : ℕ → Bool
is_digit c = leb 48 c && leb c 57

abbrev pub skip_spaces : List ℕ → List ℕ
skip_spaces [] = []
skip_spaces (c ∷ s) = if is_space c then skip_spaces s else c ∷ s

-- The value of the leading digits, after `acc`.
unfoldable pub digits_value : ℕ → List ℕ → ℕ
digits_value acc [] = acc
digits_value acc (c ∷ s) =
    let rest = digits_value (acc * 10 + (c - 48)) s in if is_digit c then rest else acc

-- A magnitude and a sign as a `long` (glibc's `strtol` saturates), then as an `int`.
abbrev pub long_to_int : Bool → ℕ → ℤ
long_to_int true n = signed32 (pattern32 (neg (if ltb (2 ^ 63) n then 2 ^ 63 else n)))
long_to_int false n = signed32 (pattern32 (pos (if ltb (2 ^ 63 - 1) n then 2 ^ 63 - 1 else n)))

abbrev pub signed_value : List ℕ → ℤ
signed_value [] = pos 0
signed_value (c ∷ s) =
    if c == b'-'
    then long_to_int true (digits_value 0 s)
    else if c == b'+'
    then long_to_int false (digits_value 0 s)
    else long_to_int false (digits_value 0 (c ∷ s))

-- `atoi`
unfoldable pub atoi : List ℕ → ℤ
atoi s = signed_value (skip_spaces s)

atoi_reads : (atoi (codes "  42x") ≡ pos 42) × (atoi (codes "-7") ≡ negsuc 6)
unfolding atoi digits_value
atoi_reads = (refl, refl)

-- `%u` of a number, with fuel for its digits.
unfoldable pub print_fuel : ℕ → ℕ → List ℕ → List ℕ
print_fuel zero n out = out
print_fuel (suc f) n out =
    let rest = print_fuel f (n / 10) ((48 + n % 10) ∷ out) in
    if ltb n 10 then (48 + n) ∷ out else rest

-- `%d` of an `int`: at most ten digits.
unfoldable pub print_nat : ℕ → List ℕ
print_nat n = print_fuel 20 n []

unfoldable pub print_int : ℤ → List ℕ
print_int (pos n) = print_nat n
print_int (negsuc n) = b'-' ∷ print_nat (suc n)

print_int_writes : (print_int (negsuc 119) ≡ codes "-120") × (print_int (pos 0) ≡ codes "0")
unfolding print_int print_nat print_fuel
print_int_writes = (refl, refl)
