-- ===== src/LinuxChat/View.antt =====
-- What `runOutput` of LinuxChat/client/udpClientMain.cpp does to its list of users and its windows.
use network_code.Base.{
  ℕ, zero, suc, ◌+◌, ◌%◌, ◌<◌, ◌≡◌, refl, true, Option, List, [], ◌∷◌, ◌++◌, codes, str_eq, arith,
  Bool-cases, inl, inr,
}
use native.Mathlib.Nat.{mod-lt}
use network_code.Base.Strings.{str_eq_refl}
use network_code.LinuxChat.Ring.{Message}
use network_code.LinuxChat.Outcome.{returned}
use network_code.LinuxChat.Server.{Json}
use network_code.LinuxChat.Client.{
  receive, contains, insert_text, output, friend_list, Draw, put_text, refresh, clear_lines,
  new_output, View, Fields, fields_of, on_quit, show_line, enter_user, wrap_list, output_round,
}

contains-insert : (u : Message) (us : List Message) → contains u (insert_text u us) ≡ true
unfolding contains insert_text
contains-insert u [] = ground (arith, str_eq_refl u)
contains-insert u (v ∷ vs) = ground (arith, str_eq_refl u, contains-insert u vs)

-- Each draw is within the rows, and nothing is ever cleared.
abbrev InRows : ℕ → ℕ → Draw → Type 0
InRows rows rows_f (put_text output row s) = row < rows
InRows rows rows_f (put_text friend_list row s) = row < rows_f
InRows rows rows_f (refresh p) = Unit {0}
InRows rows rows_f (clear_lines p n) = ⊥
InRows rows rows_f new_output = ⊥

abbrev AllInRows : ℕ → ℕ → List Draw → Type 0
AllInRows rows rows_f [] = Unit {0}
AllInRows rows rows_f (d ∷ ds) = InRows rows rows_f d × AllInRows rows rows_f ds

pub record Tidy (rows rows_f : ℕ) (v : View) : Type 0 where
  pub row : v.step < rows
  pub row_f : v.step_f < rows_f
  pub drawn : AllInRows rows rows_f v.drawn

AllInRows-append :
    (rows rows_f : ℕ) (ds es : List Draw)
    → AllInRows rows rows_f ds
    → AllInRows rows rows_f es
    → AllInRows rows rows_f (ds ++ es)
AllInRows-append rows rows_f [] es h k = k
AllInRows-append rows rows_f (d ∷ ds) es (x, h) k = (x, AllInRows-append rows rows_f ds es h k)

on_quit-Tidy :
    (rows rows_f : ℕ) (f : Fields) (v : View) → Tidy rows rows_f v → Tidy rows rows_f (on_quit f v)
unfolding on_quit
on_quit-Tidy rows rows_f f v t = elim (Bool-cases (str_eq f.cmd (codes "QUIT"))) [
  | inl e ↦ rw e (record { row = t.row; row_f = t.row_f; drawn = t.drawn })
  | inr e ↦ rw e t
]

show_line-Tidy :
    (rows rows_f : ℕ) (f : Fields) (v : View)
    → Tidy rows rows_f v
    → (w : View) × (show_line rows f v ≡ returned w) × Tidy rows rows_f w
unfolding show_line
show_line-Tidy zero rows_f f v t = absurd (omega (arith, t.row))
show_line-Tidy (suc rows) rows_f f v t =
    let small : (v.step + 1) % suc rows < suc rows = mod-lt (v.step + 1) (omega arith) in
    (
      record v {
        step = (v.step + 1) % suc rows;
        drawn = v.drawn ++ (put_text output v.step f.line ∷ refresh output ∷ []);
      },
      ground arith,
      record {
        row = small;
        row_f = t.row_f;
        drawn =
            AllInRows-append (suc rows) rows_f v.drawn
              (put_text output v.step f.line ∷ refresh output ∷ []) t.drawn (t.row, (tt, tt));
      },
    )

enter_user-drawn :
    (rows rows_f : ℕ) (f : Fields) (v : View)
    → Tidy rows rows_f v
    → ((enter_user f v).step < rows)
      × AllInRows rows rows_f (enter_user f v).drawn
      × (contains f.info (enter_user f v).users ≡ true)
unfolding enter_user
enter_user-drawn rows rows_f f v t = elim (Bool-cases (contains f.info v.users)) [
  | inl e ↦ rw e (t.row, t.drawn, e)
  | inr e ↦ rw e (
    t.row,
    AllInRows-append rows rows_f v.drawn
        (put_text friend_list v.step_f f.info ∷ refresh friend_list ∷ []) t.drawn
        (t.row_f, (tt, tt)),
    contains-insert f.info v.users,
  )
]

wrap_list-Tidy :
    (rows rows_f : ℕ) (f : Fields) (v : View)
    → 0 < rows_f
    → v.step < rows
    → AllInRows rows rows_f v.drawn
    → (w : View) × (wrap_list rows_f f v ≡ returned w) × Tidy rows rows_f w × (w.users ≡ v.users)
unfolding wrap_list
wrap_list-Tidy rows zero f v pos r d = absurd (omega arith)
wrap_list-Tidy rows (suc rows_f) f v pos r d =
    let small : v.step_f % suc rows_f < suc rows_f = mod-lt v.step_f (omega arith) in
    (
      record v { step_f = v.step_f % suc rows_f },
      ground arith,
      record { row = r; row_f = small; drawn = d },
      refl,
    )

-- In every round that finds the fields of its message, the sender is in the list of users afterwards,
-- also if the message was QUIT; each line is written above the last row of its window; and neither
-- window is ever cleared: the rows are used again over what they show.
output_round-Tidy :
    (json : Json) (rows rows_f : ℕ) (arrived : Option (List ℕ)) (v : View) (f : Fields)
    → Tidy rows rows_f v
    → fields_of json (receive arrived v.msg).1 ≡ returned f
    → (w : View) × (output_round json rows rows_f arrived v ≡ returned w)
      × Tidy rows rows_f w
      × (contains f.info w.users ≡ true)
unfolding output_round
output_round-Tidy json rows rows_f arrived v f t e =
    let msg : Message = (receive arrived v.msg).1 in
    let v' : View = record v { msg = msg } in
    let t' : Tidy rows rows_f v' = record { row = t.row; row_f = t.row_f; drawn = t.drawn } in
    let (x, shown, tx) =
      show_line-Tidy rows rows_f f (on_quit f v') (on_quit-Tidy rows rows_f f v' t') in
    let (r, d, c) = enter_user-drawn rows rows_f f x tx in
    let (w, wrapped, tw, same) =
      wrap_list-Tidy rows rows_f f (enter_user f x) (omega (arith, t.row_f)) r d in
    (w, rw (e, shown) wrapped, tw, rw same c)
