-- ===== src/Sniffer/Fields.antt =====
-- The fields of the packet headers that NetWorkSniffer/Show_Packet.c reads from memory, on a
-- little-endian machine (`struct iphdr`, `tcphdr`, `udphdr` and `icmphdr` of the C library).
use network_code.Base.{
  ℕ, ◌+◌, ◌-◌, ◌*◌, ◌/◌, ◌%◌, ◌^◌, ◌≤◌, ℤ, pos, negsuc, List, ◌++◌, ltb, if◌then◌else◌, print_nat,
  codes, arith,
}
use network_code.Sniffer.Dump.{Memory}

-- `ntohs` of the two bytes at `i`: the first byte is the high one.
abbrev pub ntohs_at : Memory → ℕ → ℕ
ntohs_at m i = m i * 256 + m (i + 1)

-- `ntohl` of the four bytes at `i`.
abbrev pub ntohl_at : Memory → ℕ → ℕ
ntohl_at m i = ntohs_at m i * 2 ^ 16 + ntohs_at m (i + 2)

-- A 16-bit field that is read as it stands in memory.
abbrev pub raw_at : Memory → ℕ → ℕ
raw_at m i = m i + m (i + 1) * 256

-- The bit `k` of the byte at `i`.
abbrev pub bit_at : Memory → ℕ → ℕ → ℕ
bit_at m i k = m i / 2 ^ k % 2

-- `iph->ihl` and `iph->version`.
abbrev pub ihl : Memory → ℕ
ihl m = m 0 % 16

abbrev pub version : Memory → ℕ
version m = m 0 / 16 % 16

-- `iphdrlen`
abbrev pub iphdrlen : Memory → ℕ
iphdrlen m = ihl m * 4

abbrev pub protocol : Memory → ℕ
protocol m = m 9

-- `tcph->doff`, with the memory from the TCP header on.
abbrev pub doff : Memory → ℕ
doff t = t 12 / 16 % 16

-- `inet_ntoa` of the address at `i`.
unfoldable pub inet_ntoa : Memory → ℕ → List ℕ
inet_ntoa m i =
    print_nat (m i)
    ++ (codes "."
        ++ (print_nat (m (i + 1))
            ++ (codes "." ++ (print_nat (m (i + 2)) ++ (codes "." ++ print_nat (m (i + 3)))))))

-- The `int` a - b, for numbers below 2 ^ 31.
abbrev pub int_sub : ℕ → ℕ → ℤ
int_sub a b = if ltb a b then negsuc (b - a - 1) else pos (a - b)

-- The header is at most 60 bytes long.
iphdrlen-le : (m : Memory) → iphdrlen m ≤ 60
iphdrlen-le m = omega arith
