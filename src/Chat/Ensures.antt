-- ===== src/Chat/Ensures.antt =====
-- Results of chat/server.c that may be an access outside an array, and the lengths of its arrays.
use network_code.Base.{
  ℕ, ◌+◌, ◌≡◌, refl, Bool, true, false, Option, none, some, List, [], ◌∷◌, ltb, if◌then◌else◌,
  length, set, length-set, Bool-cases, inl, inr,
}
use mathlib.Core.Path.{subst}
use network_code.Chat.Buffer.{put_at, deliver, label, then_put}
use network_code.Chat.Server.{◌>>=◌, store}

-- What a result satisfies, if there is one.
abbrev pub Ensures {ℓ κ} : {A : Type ℓ} → (A → Type κ) → Option A → Type κ
Ensures P none = Unit
Ensures P (some a) = P a

pub Ensures-bind {ℓ κ μ} :
    {A : Type ℓ} {B : Type κ} (P : B → Type μ) (m : Option A) (f : A → Option B)
    → ((a : A) → m ≡ some a → Ensures P (f a))
    → Ensures P (m >>= f)
Ensures-bind P none f h = tt
Ensures-bind P (some a) f h = h a refl

pub Ensures-if {ℓ κ} :
    {A : Type ℓ} (P : A → Type κ) (b : Bool) (x y : Option A)
    → (b ≡ true → Ensures P x)
    → (b ≡ false → Ensures P y)
    → Ensures P (if b then x else y)
Ensures-if P true x y t f = t refl
Ensures-if P false x y t f = f refl

pub length-store {ℓ} :
    {A : Type ℓ} (xs : List A) (i : ℕ) (v : A) (ys : List A)
    → store xs i v ≡ some ys
    → length ys ≡ length xs
unfolding store
length-store xs i v ys e = elim (Bool-cases (ltb i (length xs))) [
  | inl b ↦ let same : set xs i v ≡ ys = cc in rw (← same) (length-set xs i v)
  | inr b ↦ absurd (cc)
]

length-put_at :
    (i : ℕ) (bs buf : List ℕ) → Ensures (λ out. length out ≡ length buf) (put_at i bs buf)
unfolding put_at
length-put_at i [] buf = refl
length-put_at i (b ∷ bs) buf =
    Ensures-if (λ (out : List ℕ). length out ≡ length buf) (ltb i (length buf))
      (put_at (i + 1) bs (set buf i b)) none
      (λ e.
        subst (λ (n : ℕ). Ensures (λ out. length out ≡ n) (put_at (i + 1) bs (set buf i b)))
          (length-set buf i b) (length-put_at (i + 1) bs (set buf i b)))
      (λ e. tt)

length-then_put :
    (n i : ℕ) (bs : List ℕ) (m : Option (List ℕ))
    → Ensures (λ out. length out ≡ n) m
    → Ensures (λ out. length out ≡ n) (then_put i bs m)
length-then_put n i bs none h = tt
length-then_put n i bs (some buf) h =
    subst (λ (k : ℕ). Ensures (λ out. length out ≡ k) (put_at i bs buf)) h (length-put_at i bs buf)

pub length-deliver :
    (fd : ℕ) (msg buf : List ℕ) → Ensures (λ out. length out ≡ length buf) (deliver fd msg buf)
unfolding deliver
length-deliver fd msg buf =
    length-then_put (length buf) 6 msg (put_at 0 (label fd) buf) (length-put_at 0 (label fd) buf)

pub at_result {ℓ κ} :
    {A : Type ℓ} (P : A → Type κ) (m : Option A) (a : A) → Ensures P m → m ≡ some a → P a
at_result P none a h e = absurd (cc)
at_result P (some b) a h e = let same : b ≡ a = cc in subst P same h
