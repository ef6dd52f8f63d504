-- ===== src/LinuxChat/Window.antt =====
-- The windows of LinuxChat/window/window.cpp on a terminal of `lines` by `cols`.
use network_code.Base.{ℕ, ◌+◌, ◌*◌, ◌/◌, ◌≤◌, arith, List, [], ◌∷◌}

-- The arguments of `create_newwin`.
pub record Frame : Type 0 where
  pub heigth : ℕ
  pub width : ℕ
  pub starty : ℕ
  pub startx : ℕ

unfoldable pub header : ℕ → ℕ → Frame
header lines cols = record { heigth = lines / 6; width = cols; starty = 0; startx = 0 }

unfoldable pub output : ℕ → ℕ → Frame
output lines cols = record {
  heigth = lines * 10 / 18;
  width = cols * 3 / 4;
  starty = lines / 6;
  startx = 0;
}

unfoldable pub friend_list : ℕ → ℕ → Frame
friend_list lines cols = record {
  heigth = lines * 10 / 18;
  width = cols * 1 / 4;
  starty = lines / 6;
  startx = cols * 3 / 4;
}

unfoldable pub input : ℕ → ℕ → Frame
input lines cols = record {
  heigth = lines * 5 / 18;
  width = cols;
  starty = 13 * lines / 18;
  startx = 0;
}

-- The rows that `clrWinLine` moves to.
unfoldable pub clr_rows : ℕ → ℕ → List ℕ
clr_rows begin ℕ.zero = []
clr_rows begin (ℕ.suc lines) = begin ∷ clr_rows (begin + 1) lines

abbrev pub Fits : ℕ → ℕ → Frame → Type 0
Fits lines cols f = (f.starty + f.heigth ≤ lines) × (f.startx + f.width ≤ cols)

-- Above: `f` ends before `g` begins. Beside: `f` is left of `g`.
abbrev pub Over : Frame → Frame → Type 0
Over f g = f.starty + f.heigth ≤ g.starty

abbrev pub Beside : Frame → Frame → Type 0
Beside f g = f.startx + f.width ≤ g.startx

-- On a terminal of any size the four frames stay on it and do not overlap: the header is over the
-- output and the list of friends, these stand side by side, and the input is below them.
windows_disjoint :
    (lines cols : ℕ)
    → (Fits lines cols (header lines cols)
        × Fits lines cols (output lines cols)
        × Fits lines cols (friend_list lines cols)
        × Fits lines cols (input lines cols))
      × Over (header lines cols) (output lines cols)
      × Over (header lines cols) (friend_list lines cols)
      × Beside (output lines cols) (friend_list lines cols)
      × Over (output lines cols) (input lines cols)
      × Over (friend_list lines cols) (input lines cols)
unfolding header output friend_list input
windows_disjoint lines cols = omega arith
