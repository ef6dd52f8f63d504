-- ===== src/Small/Reads.antt =====
-- What the small programs get from `read` and `recv`, and their loops' common results.
use network_code.Base.{ℕ, Option, none, some, List, [], ◌∷◌, ◌++◌, Bool, true, false}

-- Each call in order: `none` for an error, no bytes at the end of the stream. A call gives at most the
-- bytes that the program asks for.
abbrev pub Reads : Type 0
Reads = List (Option (List ℕ))

-- The bytes of the calls before the first error or end.
unfoldable pub bytes_before_end : Reads → List ℕ
bytes_before_end [] = []
bytes_before_end (none ∷ rs) = []
bytes_before_end (some [] ∷ rs) = []
bytes_before_end (some (c ∷ bytes) ∷ rs) = c ∷ (bytes ++ bytes_before_end rs)

-- Whether some call fails or finds the end.
unfoldable pub comes_to_end : Reads → Bool
comes_to_end [] = false
comes_to_end (none ∷ rs) = true
comes_to_end (some [] ∷ rs) = true
comes_to_end (some (c ∷ bytes) ∷ rs) = comes_to_end rs
