-- ===== src/LinuxChat/Echo.antt =====
-- A line typed in LinuxChat/client/, through the server of LinuxChat/server/, and back to the client.
use network_code.Base.{
  ℕ, ◌<◌, ◌≤◌, ◌≡◌, refl, ap, ◌∙◌, true, false, Option, none, some, List, [], ◌∷◌, ◌++◌,
  if◌then◌else◌, arith, codes, c_str, str_eq, length,
}
use mathlib.Core.Path.{subst}
use network_code.Base.Decimal.{no_nul, c_str-no_nul}
use network_code.LinuxChat.Ring.{Message}
use network_code.LinuxChat.Outcome.{returned}
use network_code.LinuxChat.Redis.{Redis, Keeps}
use network_code.LinuxChat.Server.{Json, Remote, UdpServer, quits, product_round, broad_cast, stuck}
use network_code.LinuxChat.Threads.{new_server}
use network_code.LinuxChat.Deliver.{first_datagram-echoed, no_nul-c_str}
use network_code.LinuxChat.Client.{Writer, receive, fields_of, nick_name, school, input_loop}
use network_code.LinuxChat.Typing.{size, said, typing_loop, typing_loop-input_loop}

abbrev pub member : Message → List (Message × Message) → Option Message
member key [] = none
member key ((k, v) ∷ ms) = if str_eq k key then some v else member key ms

-- What jsoncpp documents of its writer and its reader, for an object of strings without NUL: the reader
-- gives back each member of a text that the writer made, and such a text has no NUL, which is escaped.
pub record Reads (json : Json) (write : Writer) : Type 0 where
  pub gives_back :
      (members : List (Message × Message)) (key v : Message)
      → member key members ≡ some v
      → no_nul v ≡ true
      → json.field key (write members) ≡ some v
  pub escapes : (members : List (Message × Message)) → no_nul (write members) ≡ true

-- What the server makes of a first datagram with this text, and what it sends.
abbrev pub Echoed : (redis : Redis) → Json → ℕ → Remote → redis.Db → Message → Message → Type 0
Echoed redis json slots u db datagram text =
    (s : UdpServer) × (t : UdpServer) × (db' : redis.Db) × (product_round redis json
        (some (u, datagram)) [] (new_server slots) db
      ≡ returned (text, s, db'))
    × (redis.get (codes "key0") db' ≡ some (some text))
    × (broad_cast (true ∷ true ∷ []) s ≡ stuck t)
    × (t.sent ≡ (u, text) ∷ [])

text-Echoed :
    (redis : Redis) (k : Keeps redis) (json : Json) (slots : ℕ) (u : Remote) (db : redis.Db)
    (text cmd body : Message)
    → 1024 ≤ slots
    → 0 < length text
    → length text < 1024
    → no_nul text ≡ true
    → json.field (codes "cmd") text ≡ some cmd
    → quits cmd ≡ false
    → json.field (codes "msg") text ≡ some body
    → str_eq (codes "LOAD") body ≡ false
    → Echoed redis json slots u db text text
text-Echoed redis k json slots u db [] cmd body room some_text fits clean e q f l =
    absurd (omega (arith, some_text))
text-Echoed redis k json slots u db (b ∷ bytes) cmd body room some_text fits clean e q f l =
    let same : c_str (b ∷ bytes) ≡ b ∷ bytes = c_str-no_nul (b ∷ bytes) clean in
    subst (Echoed redis json slots u db (b ∷ bytes)) same (
      first_datagram-echoed redis k json slots u b bytes cmd body db room fits
        (ap (json.field (codes "cmd")) same ∙ e) q (ap (json.field (codes "msg")) same ∙ f) l)

fields_of-said :
    (json : Json) (write : Writer) (reads : Reads json write) (out msg : Message)
    → fields_of json (receive (some (said write out)) msg).1
      ≡ returned (record {
        line = nick_name ++ (codes ":" ++ c_str out);
        info = nick_name ++ (codes "-" ++ school);
        cmd = codes "None";
      })
unfolding fields_of receive
fields_of-said json write reads out msg =
    rw
      (
        c_str-no_nul (said write out) (reads.escapes _),
        reads.gives_back _ (codes "name") nick_name refl refl,
        reads.gives_back _ (codes "msg") (c_str out) refl (no_nul-c_str out),
        reads.gives_back _ (codes "school") school refl refl,
        reads.gives_back _ (codes "cmd") (codes "None") refl refl,
      )
      refl

-- A line that is typed in a client, has at most 1023 characters, is not LOAD, and whose JSON text has 1
-- to 1023 bytes: it is sent as this text; a new server that gets it first stores the text in redis under
-- `key0` and sends it back to this client and waits; and the client reads from what it gets back its own
-- name with the line, for the output window, and its name with its school, for the list. Redis answers
-- every command, jsoncpp reads what it wrote, and the ring has at least 1024 elements.
pub typed_line-comes_back :
    (redis : Redis) (k : Keeps redis) (json : Json) (write : Writer) (reads : Reads json write)
    (slots : ℕ) (u : Remote) (db : redis.Db) (typed msg : List ℕ)
    → 1024 ≤ slots
    → length typed < size
    → 0 < length (said write typed)
    → length (said write typed) < 1024
    → str_eq (codes "LOAD") (c_str typed) ≡ false
    → (typing_loop write ((typed, true) ∷ []) ≡ returned (said write typed ∷ []))
      × Echoed redis json slots u db (said write typed) (said write typed)
      × (fields_of json (receive (some (said write typed)) msg).1
          ≡ returned (record {
            line = codes "fly_pig:" ++ c_str typed;
            info = codes "fly_pig-SUST";
            cmd = codes "None";
          }))
unfolding input_loop
typed_line-comes_back redis k json write reads slots u db typed msg room short some_text fits l = (
  typing_loop-input_loop write ((typed, true) ∷ []) (short, tt),
  text-Echoed redis k json slots u db (said write typed) (codes "None") (c_str typed) room some_text
      fits (reads.escapes _) (reads.gives_back _ (codes "cmd") (codes "None") refl refl) refl
      (reads.gives_back _ (codes "msg") (c_str typed) refl (no_nul-c_str typed)) l,
  fields_of-said json write reads typed msg,
)
