-- ===== src/Httpd/Log.antt =====
-- `PrintLog` of http/httpd.c.
use network_code.Base.{
  ℕ, ◌≤◌, ◌<◌, ◌≡◌, refl, Bool, true, false, Option, none, some, List, [], ◌∷◌, ◌++◌, arith, length,
  length-append, drop, codes, zero, suc, ap,
}

-- How a function that may call `exit` ends: `running` where its fuel runs out.
pub data Run {ℓ} (A : Type ℓ) : Type ℓ where
  returned : A → Run A
  exited : ℕ → Run A
  running : Run A

-- NORMAL, FATAL and WARNING of http/httpd.h
pub data Level : Type 0 where
  normal fatal warning : Level

abbrev pub level_text : Level → List ℕ
level_text normal = codes ",NORMAL\n"
level_text fatal = codes ",FATAL\n"
level_text warning = codes ",WARNING\n"

-- The file ./log: `none` where it cannot be opened.
abbrev pub LogFile : Type 0
LogFile = Option (List ℕ)

-- The string in `buf`.
abbrev pub log_entry : List ℕ → Level → List ℕ
log_entry msg level = msg ++ level_text level

-- The file is opened for writing at its start, neither truncated nor appended to. `write_ok` tells
-- whether `write` succeeds.
unfoldable pub print_log : Bool → List ℕ → Level → LogFile → Run LogFile
print_log write_ok msg level none = exited 1
print_log false msg level (some old) = exited 2
print_log true msg level (some old) =
    let buf = log_entry msg level in returned (some (buf ++ drop (length buf) old))

drop-nil : (n : ℕ) → drop {A = ℕ} n [] ≡ []
drop-nil zero = refl
drop-nil (suc n) = refl

drop-append_longer :
    (xs ys zs : List ℕ)
    → length xs ≤ length ys
    → drop (length ys) (xs ++ drop (length xs) zs) ≡ drop (length ys) zs
drop-append_longer [] ys zs h = refl
drop-append_longer (x ∷ xs) [] zs h = absurd (omega arith)
drop-append_longer (x ∷ xs) (y ∷ ys) [] h =
    ground (arith, drop-append_longer xs ys [], drop-nil (length xs), drop-nil (length ys))
drop-append_longer (x ∷ xs) (y ∷ ys) (z ∷ zs) h = drop-append_longer xs ys zs (omega arith)

-- A later entry that is at least as long erases an earlier one: the file is as if only the later
-- had been written.
print_log_erases :
    (old msg msg' : List ℕ) (level level' : Level)
    → length (log_entry msg level) ≤ length (log_entry msg' level')
    → print_log true msg' level'
        (some (log_entry msg level ++ drop (length (log_entry msg level)) old))
      ≡ print_log true msg' level' (some old)
unfolding print_log
print_log_erases old msg msg' level level' h =
    ap (λ (rest : List ℕ). returned (some (log_entry msg' level' ++ rest)))
      (drop-append_longer (log_entry msg level) (log_entry msg' level') old h)

-- The entry and its NUL fit in the 128 bytes of `buf` if the message has at most 118 bytes.
log_entry_fits :
    (msg : List ℕ) (level : Level) → length msg ≤ 118 → length (log_entry msg level) < 128
log_entry_fits msg normal h = omega (arith, length-append {0} msg (level_text normal))
log_entry_fits msg fatal h = omega (arith, length-append {0} msg (level_text fatal))
log_entry_fits msg warning h = omega (arith, length-append {0} msg (level_text warning))
