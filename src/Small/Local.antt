-- ===== src/Small/Local.antt =====
-- UN/server.c: a server on a local socket, for one client.
use network_code.Base.{
  ℕ, zero, suc, ◌≡◌, refl, Bool, true, false, not, none, some, List, [], ◌∷◌, ◌++◌, if◌then◌else◌,
  c_str, length, set,
}
use network_code.Small.Reads.{Reads, comes_to_end}

-- What has been shown, and whether the loop has been left.
pub record Shown : Type 0 where
  pub lines : List (List ℕ)
  pub left : Bool

-- The loop; the last byte of what was read is overwritten by the NUL.
unfoldable pub show_loop : Reads → Shown → Shown
show_loop [] s = s
show_loop (none ∷ rs) s = record s { left = true }
show_loop (some [] ∷ rs) s = record s { left = true }
show_loop (some (c ∷ bytes) ∷ rs) s =
    show_loop rs (record s { lines = s.lines ++ (c_str (set (c ∷ bytes) (length bytes) 0) ∷ []) })

pub data LocalEnd : Type 0 where
  returns : ℕ → LocalEnd
  serves : Shown → LocalEnd

abbrev after_loop : Shown → LocalEnd
after_loop s = if s.left then returns 0 else serves s

-- `main`, given whether the four system calls succeed.
unfoldable pub local_main : ℕ → Bool → Bool → Bool → Bool → Reads → LocalEnd
local_main argc socket bind listen accept rs = elim argc [
  | suc (suc zero) ↦
      if not socket
      then returns 1
      else if not bind
      then returns 3
      else if not listen
      then returns 4
      else if not accept
      then returns 5
      else after_loop (show_loop rs (record { lines = []; left = false }))
  | _ ↦ returns 2
]

-- The loop is left if and only if some call of `read` fails or finds the end.
show_loop_left :
    (rs : Reads) (lines : List (List ℕ))
    → (show_loop rs (record { lines = lines; left = false })).left ≡ comes_to_end rs
unfolding show_loop comes_to_end
show_loop_left [] lines = refl
show_loop_left (none ∷ rs) lines = refl
show_loop_left (some [] ∷ rs) lines = refl
show_loop_left (some (c ∷ bytes) ∷ rs) lines = show_loop_left rs _
