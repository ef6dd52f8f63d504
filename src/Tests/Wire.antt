-- ===== src/Tests/Wire.antt =====
-- A writer and a reader of objects of strings, and a line of the chat of LinuxChat/ that goes through
-- them.
use network_code.Base.{
  ℕ, ◌+◌, ◌-◌, ◌==◌, ◌≡◌, refl, ap, ◌∙◌, true, some, List, [], ◌∷◌, ◌++◌, if◌then◌else◌, arith,
  codes,
}
use network_code.Base.Decimal.{no_nul}
use network_code.LinuxChat.Ring.{Message}
use network_code.LinuxChat.Outcome.{returned}
use network_code.LinuxChat.Server.{Json}
use network_code.LinuxChat.Client.{Writer, receive, fields_of}
use network_code.LinuxChat.Typing.{said, typing_loop}
use network_code.LinuxChat.Echo.{member, Reads, Echoed, typed_line-comes_back}
use network_code.Tests.Udp.{redis, redis-Keeps, remote_a}

-- Every character is raised by two, and 1 stands behind every string.
abbrev raised : Message → Message
raised [] = []
raised (c ∷ s) = (2 + c) ∷ raised s

unfoldable wire : Writer
wire [] = []
wire ((k, v) ∷ ms) = raised k ++ (1 ∷ (raised v ++ (1 ∷ wire ms)))

abbrev on_head : ℕ → List Message → List Message
on_head c [] = (c ∷ []) ∷ []
on_head c (s ∷ ss) = (c ∷ s) ∷ ss

-- The strings, with an empty one at the end.
unfoldable strings : Message → List Message
strings [] = [] ∷ []
strings (c ∷ s) = let rest = strings s in if c == 1 then [] ∷ rest else on_head (c - 2) rest

abbrev pairs : List Message → List (Message × Message)
pairs [] = []
pairs (s ∷ []) = []
pairs (k ∷ v ∷ ss) = (k, v) ∷ pairs ss

abbrev wire_json : Json
wire_json = record { field = λ key text. member key (pairs (strings text)) }

strings-raised : (s r : Message) → strings (raised s ++ (1 ∷ r)) ≡ s ∷ strings r
unfolding strings
strings-raised [] r = refl
strings-raised (c ∷ s) r = ground (arith, strings-raised s r)

pairs-wire : (ms : List (Message × Message)) → pairs (strings (wire ms)) ≡ ms
unfolding wire strings
pairs-wire [] = refl
pairs-wire ((k, v) ∷ ms) =
    rw (strings-raised k (raised v ++ (1 ∷ wire ms)), strings-raised v (wire ms), pairs-wire ms)
      refl

no_nul-raised : (s r : Message) → no_nul r ≡ true → no_nul (raised s ++ r) ≡ true
no_nul-raised [] r h = h
no_nul-raised (c ∷ s) r h = ground (arith, no_nul-raised s r h)

no_nul-wire : (ms : List (Message × Message)) → no_nul (wire ms) ≡ true
unfolding wire
no_nul-wire [] = refl
no_nul-wire ((k, v) ∷ ms) =
    no_nul-raised k (1 ∷ (raised v ++ (1 ∷ wire ms)))
      (no_nul-raised v (1 ∷ wire ms) (no_nul-wire ms))

wire-Reads : Reads wire_json wire
wire-Reads = record {
  gives_back = λ members key v e clean. ap (member key) (pairs-wire members) ∙ e;
  escapes = no_nul-wire;
}

typed_line-comes_back_example :
    (typing_loop wire ((codes "hi", true) ∷ []) ≡ returned (said wire (codes "hi") ∷ []))
    × Echoed redis wire_json 1024 remote_a [] (said wire (codes "hi")) (said wire (codes "hi"))
    × (fields_of wire_json (receive (some (said wire (codes "hi"))) []).1
        ≡ returned
            (record { line = codes "fly_pig:hi"; info = codes "fly_pig-SUST"; cmd = codes "None" }))
unfolding wire
typed_line-comes_back_example =
    typed_line-comes_back redis redis-Keeps wire_json wire wire-Reads 1024 remote_a [] (codes "hi")
      [] (omega arith) (omega arith) (omega arith) (omega arith) refl
