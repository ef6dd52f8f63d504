-- ===== src/LinuxChat/Client.antt =====
-- `class UdpClient` of LinuxChat/client/udpClient.cpp, and `runOutput`, `main` and `SigInt_Fun` of
-- udpClientMain.cpp.
use network_code.Base.{
  ℕ, zero, suc, ◌+◌, ◌%◌, ℤ, pos, negsuc, Bool, true, false, ◌&&◌, ◌||◌, Option, none, some, List,
  [], ◌∷◌, ◌++◌, ltb, ◌==◌, if◌then◌else◌, codes, c_str, str_eq, length,
}
use network_code.LinuxChat.Ring.{Message}
use network_code.LinuxChat.Outcome.{Outcome, returned, lost, ◌>>=◌, or_lost}
use network_code.LinuxChat.Server.{Json}

-- `RecvData`: its result, and `outmsg`, which an error leaves as it was. At most 1023 bytes arrive.
unfoldable pub receive : Option (List ℕ) → Message → ℤ × Message
receive none msg = (negsuc 0, msg)
receive (some bytes) msg = (pos (length bytes), c_str bytes)

-- `SendData`: its result, and what was sent, given whether `sendto` succeeds.
unfoldable pub send_text : Bool → Message → ℤ × List Message
send_text true msg = (pos 0, msg ∷ [])
send_text false msg = (negsuc 0, [])

-- The order of `std::string`.
abbrev pub text_lt : Message → Message → Bool
text_lt [] [] = false
text_lt [] (d ∷ t) = true
text_lt (c ∷ s) [] = false
text_lt (c ∷ s) (d ∷ t) = ltb c d || (c == d) && text_lt s t

-- `std::set<std::string>`: in order and without repetitions.
unfoldable pub contains : Message → List Message → Bool
contains u [] = false
contains u (v ∷ vs) = str_eq u v || contains u vs

unfoldable pub insert_text : Message → List Message → List Message
insert_text u [] = u ∷ []
insert_text u (v ∷ vs) =
    let rest = insert_text u vs in
    if str_eq u v then v ∷ vs else if text_lt u v then u ∷ v ∷ vs else v ∷ rest

unfoldable pub erase_text : Message → List Message → List Message
erase_text u [] = []
erase_text u (v ∷ vs) = let rest = erase_text u vs in if str_eq u v then vs else v ∷ rest

pub data Pane : Type 0 where
  output friend_list : Pane

-- What is asked of the terminal: a text at row `row` and column 1, a refresh, the lines from 1 on
-- cleared, or the output window made anew.
pub data Draw : Type 0 where
  put_text : Pane → (row : ℕ) → Message → Draw
  refresh : Pane → Draw
  clear_lines : Pane → (lines : ℕ) → Draw
  new_output : Draw

-- The variables of `runOutput`, with the set of users and what was drawn.
pub record View : Type 0 where
  pub msg : Message
  pub users : List Message
  pub step : ℕ
  pub step_f : ℕ
  pub drawn : List Draw

-- The fields of a message: `in`, `info` and `cmd`.
pub record Fields : Type 0 where
  pub line : Message
  pub info : Message
  pub cmd : Message

unfoldable pub fields_of : Json → Message → Outcome Fields
fields_of json msg = or_lost (json.field (codes "name") msg) >>= λ name.
    or_lost (json.field (codes "msg") msg) >>= λ text.
    or_lost (json.field (codes "school") msg) >>= λ school.
    or_lost (json.field (codes "cmd") msg) >>= λ cmd.
    returned (record {
      line = name ++ (codes ":" ++ text);
      info = name ++ (codes "-" ++ school);
      cmd = cmd;
    })

-- A user that says QUIT is taken off.
unfoldable pub on_quit : Fields → View → View
on_quit f v =
    if str_eq f.cmd (codes "QUIT") then record v { users = erase_text f.info v.users } else v

-- `step++`, `step %= y-1`, and the test `step == y-1`; `rows` stands for `y - 1`. A remainder by 0
-- ends the process.
unfoldable pub show_line : ℕ → Fields → View → Outcome View
show_line zero f v = lost
show_line (suc rows) f v =
    let next : ℕ = (v.step + 1) % suc rows in
    let drawn : List Draw = v.drawn ++ (put_text output v.step f.line ∷ refresh output ∷ []) in
    returned (
      if next == suc rows
      then record v {
        step = 1;
        drawn = drawn ++ (clear_lines output (suc rows) ∷ new_output ∷ refresh output ∷ []);
      }
      else record v { step = next; drawn = drawn })

-- A user that is not in the set is entered and shown.
unfoldable pub enter_user : Fields → View → View
enter_user f v = if contains f.info v.users then v else record v {
  users = insert_text f.info v.users;
  step_f = v.step_f + 1;
  drawn = v.drawn ++ (put_text friend_list v.step_f f.info ∷ refresh friend_list ∷ []);
}

-- The loop that shows the list anew writes `info` for every user.
abbrev show_all : ℕ → Message → List Message → List Draw
show_all row info [] = []
show_all row info (u ∷ us) =
    put_text friend_list row info ∷ refresh friend_list ∷ show_all (row + 1) info us

unfoldable pub wrap_list : ℕ → Fields → View → Outcome View
wrap_list zero f v = lost
wrap_list (suc rows) f v =
    let next : ℕ = v.step_f % suc rows in
    returned (
      if next == suc rows
      then record v {
        step_f = 1 + length v.users;
        drawn =
            v.drawn
            ++ (clear_lines friend_list (suc rows)
                ∷ new_output
                ∷ refresh friend_list
                ∷ show_all 1 f.info v.users);
      }
      else record v { step_f = next })

-- One round of `runOutput`: the windows have `rows + 1` and `rows_f + 1` rows.
unfoldable pub output_round : Json → ℕ → ℕ → Option (List ℕ) → View → Outcome View
output_round json rows rows_f arrived v =
    let msg : Message = (receive arrived v.msg).1 in
    fields_of json msg >>= λ f. show_line rows f (on_quit f (record v { msg = msg })) >>= λ w.
    wrap_list rows_f f (enter_user f w)

unfoldable pub output_loop : Json → ℕ → ℕ → List (Option (List ℕ)) → View → Outcome View
output_loop json rows rows_f [] v = returned v
output_loop json rows rows_f (arrived ∷ rest) v =
    output_round json rows rows_f arrived v >>= λ w. output_loop json rows rows_f rest w

-- The names that the program gives its one user.
abbrev pub nick_name : Message
nick_name = codes "fly_pig"

abbrev pub school : Message
school = codes "SUST"

-- jsoncpp's writer, as a parameter: the text of an object with these members.
abbrev pub Writer : Type 0
Writer = List (Message × Message) → Message

-- The loop of `main`: each line typed is sent; the list says whether `sendto` succeeds.
unfoldable pub input_loop : Writer → List (Message × Bool) → List Message
unfolding send_text
input_loop write [] = []
input_loop write ((typed, ok) ∷ rest) =
    (send_text ok (
      write (
        (codes "name", nick_name)
        ∷ (codes "school", school)
        ∷ (codes "cmd", codes "None")
        ∷ (codes "msg", c_str typed)
        ∷ []))).1
    ++ input_loop write rest

-- `SigInt_Fun`: what is sent before `exit(1)`.
unfoldable pub sig_int : Writer → Bool → List Message
unfolding send_text
sig_int write ok =
    (send_text ok (
      write (
        (codes "name", nick_name)
        ∷ (codes "school", school)
        ∷ (codes "msg", [])
        ∷ (codes "cmd", codes "QUIT")
        ∷ []))).1
