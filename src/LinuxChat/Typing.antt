-- ===== src/LinuxChat/Typing.antt =====
-- The start of the program of LinuxChat/client/udpClientMain.cpp, its line of input and its header, with
-- what they call of udpClient.cpp and of LinuxChat/window/window.cpp.
use network_code.Base.{
  ℕ, zero, suc, ◌+◌, ◌%◌, ◌/◌, ◌<◌, ◌≡◌, refl, true, false, Bool, List, [], ◌∷◌, ◌++◌, ltb,
  if◌then◌else◌, codes, c_str, length, arith, ◌==◌,
}
use network_code.LinuxChat.Ring.{Message}
use network_code.LinuxChat.Outcome.{Outcome, returned, lost, ◌>>=◌}
use network_code.LinuxChat.Client.{Writer, nick_name, school, send_text, input_loop}

-- `SIZE`
abbrev pub size : ℕ
size = 1024

-- `getInputmsg`: `wgetnstr` stores at most `size` characters of the line, and a NUL behind them.
unfoldable pub get_inputmsg : List ℕ → Outcome Message
get_inputmsg typed = if ltb (length typed) size then returned (c_str typed) else lost

-- What `createInput` asks of the terminal in its window, and the line that it reads.
pub record Prompt : Type 0 where
  pub row : ℕ
  pub column : ℕ
  pub text : Message

unfoldable pub create_input : List ℕ → Outcome (Prompt × Message)
create_input typed = get_inputmsg typed >>= λ out.
    returned (record { row = 2; column = 2; text = codes "Enter >:" }, out)

-- The text of `val` with this line.
abbrev pub said : Writer → Message → Message
said write out = write (
    (codes "name", nick_name)
    ∷ (codes "school", school)
    ∷ (codes "cmd", codes "None")
    ∷ (codes "msg", c_str out)
    ∷ [])

-- The loop of `main` from the keys on: what is sent for these lines; the list says whether `sendto`
-- succeeds.
unfoldable pub typing_loop : Writer → List (List ℕ × Bool) → Outcome (List Message)
unfolding send_text
typing_loop write [] = returned []
typing_loop write ((typed, ok) ∷ rest) = create_input typed >>= λ (prompt, out).
    typing_loop write rest >>= λ sent. returned ((send_text ok (said write out)).1 ++ sent)

-- One round of `runHeader` in a window of `rows` by `columns`: where the text is put, and `index`. A
-- remainder by 0 ends the process.
unfoldable pub header_round : ℕ → ℕ → ℕ → Outcome ((ℕ × ℕ × Message) × ℕ)
header_round rows zero index = lost
header_round rows (suc columns) index =
    returned ((rows / 2, index % suc columns, codes "Welcome my chat!"), index % suc columns + 1)

-- `runHeader` for a number of rounds: the places where the text is put.
unfoldable pub header_loop : ℕ → ℕ → ℕ → ℕ → Outcome (List (ℕ × ℕ × Message))
header_loop rows columns index zero = returned []
header_loop rows columns index (suc n) = header_round rows columns index >>= λ (place, index').
    header_loop rows columns index' n >>= λ places. returned (place ∷ places)

-- How `main` ends, or that it goes round for ever: what it has sent then.
pub data Client : Type 0 where
  exits : ℕ → Client
  talks : Outcome (List Message) → Client

-- `Init`: whether `socket` succeeds.
abbrev pub init : Bool → Client → Client
init false k = exits 1
init true k = k

-- `main`: the number of arguments, whether `socket` succeeds, and the lines typed.
unfoldable pub client_main : ℕ → Bool → Writer → List (List ℕ × Bool) → Client
client_main argc made write lines =
    if argc == 3 then init made (talks (typing_loop write lines)) else exits 1

-- Every line is shorter than the array.
abbrev pub Short : List (List ℕ × Bool) → Type 0
Short [] = Unit {0}
Short ((typed, ok) ∷ rest) = (length typed < size) × Short rest

c_str-twice : (s : List ℕ) → c_str (c_str s) ≡ c_str s
c_str-twice [] = refl
c_str-twice (c ∷ s) = ground (arith, c_str-twice s)

-- Lines of at most 1023 characters are sent one by one as the model without the terminal sends them.
pub typing_loop-input_loop :
    (write : Writer) (lines : List (List ℕ × Bool))
    → Short lines
    → typing_loop write lines ≡ returned (input_loop write lines)
unfolding typing_loop create_input get_inputmsg input_loop
typing_loop-input_loop write [] h = refl
typing_loop-input_loop write ((typed, ok) ∷ rest) (s, h) =
    ground (arith, s, c_str-twice typed, typing_loop-input_loop write rest h)

-- After any lines of at most 1023 characters, one of at least 1024 is written behind the end of `buf`.
pub long_line_lost :
    (write : Writer) (before : List (List ℕ × Bool)) (typed : List ℕ) (ok : Bool)
    (after : List (List ℕ × Bool))
    → Short before
    → (length typed < size → ⊥)
    → typing_loop write (before ++ ((typed, ok) ∷ after)) ≡ lost
unfolding typing_loop create_input get_inputmsg
long_line_lost write [] typed ok after h long = ground (arith, long)
long_line_lost write ((t, o) ∷ rest) typed ok after (s, h) long =
    ground (arith, s, long_line_lost write rest typed ok after h long)
