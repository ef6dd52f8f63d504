-- ===== src/Sniffer/Dump/Read.antt =====
-- The dump of NetWorkSniffer/Show_Packet.c can be read back.
use network_code.Base.{
  ℕ, zero, suc, ◌+◌, ◌-◌, ◌*◌, ◌/◌, ◌%◌, ◌<◌, ◌≡◌, refl, ap, ◌∙◌, ℤ, rounds, Bool, true, false,
  List, [], ◌∷◌, ◌++◌, ltb, ◌==◌, if◌then◌else◌, arith, append_assoc,
}
use network_code.Sniffer.Dump.{Memory, hex_digit, hex_byte, dump_byte, dump_from, print_data}

-- The value of a hexadecimal digit in upper case.
abbrev pub digit_value : ℕ → ℕ
digit_value c = if ltb c 65 then c - 48 else c - 55

-- A reader that knows nothing of lines: it skips blanks and line ends and takes two digits a byte.
pub read_hex : List ℕ → List ℕ
read_hex [] = []
read_hex (c ∷ []) = []
read_hex (c ∷ d ∷ []) = []
read_hex (c ∷ d ∷ e ∷ s) =
    if c == 10 then read_hex (d ∷ e ∷ s) else (digit_value d * 16 + digit_value e) ∷ read_hex s

-- The bytes `i` to `i + n - 1`.
abbrev pub bytes_from : ℕ → ℕ → Memory → List ℕ
bytes_from i zero m = []
bytes_from i (suc n) m = m i ∷ bytes_from (i + 1) n m

digit_value-hex_digit : (d : ℕ) → d < 16 → digit_value (hex_digit d) ≡ d
digit_value-hex_digit d h = ground arith

read_hex-byte :
    (b : ℕ) (rest : List ℕ) → b < 256 → read_hex (hex_byte b ++ rest) ≡ b ∷ read_hex rest
unfolding read_hex
read_hex-byte b rest h =
    ap (λ (v : ℕ). v ∷ read_hex rest)
      (ground (
        arith,
        digit_value-hex_digit (b / 16 % 16) (omega arith),
        digit_value-hex_digit (b % 16) (omega arith),
      ))

read_hex-line_end : (rest : List ℕ) → read_hex (10 ∷ rest) ≡ read_hex rest
unfolding read_hex
read_hex-line_end [] = refl
read_hex-line_end (d ∷ []) = refl
read_hex-line_end (d ∷ e ∷ s) = refl

read_hex-maybe :
    (b : Bool) (rest : List ℕ) → read_hex ((if b then 10 ∷ [] else []) ++ rest) ≡ read_hex rest
read_hex-maybe true rest = read_hex-line_end rest
read_hex-maybe false rest = refl

read_hex-dump_byte :
    (m : Memory) (size i : ℕ) (rest : List ℕ)
    → m i < 256
    → read_hex (dump_byte m size i ++ rest) ≡ m i ∷ read_hex rest
read_hex-dump_byte m size i rest h =
    let ends : List ℕ = if i + 1 == size then 10 ∷ [] else [] in
    ap read_hex (append_assoc (if i % 16 == 0 then 10 ∷ [] else []) (hex_byte (m i) ++ ends) rest)
    ∙ read_hex-maybe (i % 16 == 0) ((hex_byte (m i) ++ ends) ++ rest)
    ∙ ap read_hex (append_assoc (hex_byte (m i)) ends rest)
    ∙ read_hex-byte (m i) (ends ++ rest) h
    ∙ ap (λ (l : List ℕ). m i ∷ l) (read_hex-maybe (i + 1 == size) rest)

read_hex-dump_from :
    (n i size : ℕ) (m : Memory)
    → ((k : ℕ) → m k < 256)
    → read_hex (dump_from n i size m) ≡ bytes_from i n m
unfolding dump_from read_hex
read_hex-dump_from zero i size m small = refl
read_hex-dump_from (suc n) i size m small =
    read_hex-dump_byte m size i (dump_from n (i + 1) size m) (small i)
    ∙ ap (λ (l : List ℕ). m i ∷ l) (read_hex-dump_from n (i + 1) size m small)

-- The dump of bytes, read back, gives exactly the bytes from the pointer on, as many as the size
-- says, in order; and nothing where the size is negative.
pub read_hex-print_data :
    (m : Memory) (size : ℤ)
    → ((k : ℕ) → m k < 256)
    → read_hex (print_data m size) ≡ bytes_from 0 (rounds size) m
unfolding print_data
read_hex-print_data m size small = read_hex-dump_from (rounds size) 0 (rounds size) m small
