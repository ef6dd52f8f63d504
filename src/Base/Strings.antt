-- ===== src/Base/Strings.antt =====
-- The comparison of C strings.
use mathlib.Core.Path.{◌≡◌, refl, ap₂}
use mathlib.Core.Bool.{true}
use mathlib.Core.List.{List, [], ◌∷◌}
use native.Mathlib.Omega.{arith}
use Prim.Native.Nat.{ℕ}
use network_code.Base.Text.{str_eq}

pub str_eq_refl : (s : List ℕ) → str_eq s s ≡ true
str_eq_refl [] = refl
str_eq_refl (c ∷ s) = ground (arith, str_eq_refl s)

pub str_eq_comm : (s t : List ℕ) → str_eq s t ≡ str_eq t s
str_eq_comm [] [] = refl
str_eq_comm [] (d ∷ t) = refl
str_eq_comm (c ∷ s) [] = refl
str_eq_comm (c ∷ s) (d ∷ t) = ground (arith, str_eq_comm s t)

pub str_eq-same : (s t : List ℕ) → str_eq s t ≡ true → s ≡ t
str_eq-same [] [] e = refl
str_eq-same [] (d ∷ t) e = cc
str_eq-same (c ∷ s) [] e = cc
str_eq-same (c ∷ s) (d ∷ t) e =
    let head : c ≡ d = ground arith in
    let tail : str_eq s t ≡ true = ground arith in
    ap₂ (λ (c : ℕ) (s : List ℕ). c ∷ s) head (str_eq-same s t tail)
