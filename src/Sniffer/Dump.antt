-- ===== src/Sniffer/Dump.antt =====
-- `PrintData` of NetWorkSniffer/Show_Packet.c: a hexadecimal dump.
pub mod Read
use network_code.Base.{
  ℕ, zero, suc, ◌+◌, ◌-◌, ◌/◌, ◌%◌, ◌≡◌, refl, ℤ, pos, negsuc, rounds, Bool, List, [], ◌∷◌, ◌++◌,
  ltb, ◌==◌, if◌then◌else◌, codes,
}

-- The bytes from a pointer on.
abbrev pub Memory : Type 0
Memory = ℕ → ℕ

abbrev pub offset : ℕ → Memory → Memory
offset n m i = m (i + n)

abbrev pub hex_digit : ℕ → ℕ
hex_digit d = if ltb d 10 then 48 + d else 55 + d

-- `" %02X"` of a byte.
abbrev pub hex_byte : ℕ → List ℕ
hex_byte b = 32 ∷ hex_digit (b / 16 % 16) ∷ hex_digit (b % 16) ∷ []

-- One round of the loop.
abbrev pub dump_byte : Memory → ℕ → ℕ → List ℕ
dump_byte m size i =
    (if i % 16 == 0 then 10 ∷ [] else [])
    ++ (hex_byte (m i) ++ (if i + 1 == size then 10 ∷ [] else []))

-- The rounds left, with the index of the next.
unfoldable pub dump_from : ℕ → ℕ → ℕ → Memory → List ℕ
dump_from zero i size m = []
dump_from (suc n) i size m = dump_byte m size i ++ dump_from n (i + 1) size m

-- A negative size prints nothing.
unfoldable pub print_data : Memory → ℤ → List ℕ
print_data m size = dump_from (rounds size) 0 (rounds size) m

print_data_runs : print_data (λ i. 200 + i) (pos 3) ≡ codes "\n C8 C9 CA\n"
unfolding print_data dump_from
print_data_runs = refl
