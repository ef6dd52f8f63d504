-- ===== src/Sniffer/Show/Parts.antt =====
-- The three dumps of a packet in NetWorkSniffer/Show_Packet.c.
use network_code.Base.{
  ℕ, zero, suc, ◌+◌, ◌-◌, ◌*◌, ◌<◌, ◌≤◌, ◌≡◌, refl, ap, ap₂, ◌∙◌, ℤ, pos, rounds, List, ◌∷◌, ◌++◌,
  arith,
}
use network_code.Sniffer.Dump.{Memory, offset, print_data}
use network_code.Sniffer.Dump.Read.{read_hex, bytes_from, read_hex-print_data}
use network_code.Sniffer.Fields.{ihl, iphdrlen, int_sub}
use network_code.Sniffer.Show.{dump_parts}

bytes_from-offset : (i n k : ℕ) (m : Memory) → bytes_from i n (offset k m) ≡ bytes_from (i + k) n m
bytes_from-offset i zero k m = refl
bytes_from-offset i (suc n) k m =
    ap (λ (l : List ℕ). m (i + k) ∷ l)
      (bytes_from-offset (i + 1) n k m ∙ ap (λ (j : ℕ). bytes_from j n m) (omega arith))

bytes_from-add :
    (i a j b n : ℕ) (m : Memory)
    → i + a ≡ j
    → a + b ≡ n
    → bytes_from i a m ++ bytes_from j b m ≡ bytes_from i n m
bytes_from-add i zero j b n m e f =
    let e' : j ≡ i = omega arith in
    let f' : b ≡ n = omega arith in ap₂ (λ (x y : ℕ). bytes_from x y m) e' f'
bytes_from-add i (suc a) j b zero m e f = absurd (omega arith)
bytes_from-add i (suc a) j b (suc n) m e f =
    ap (λ (l : List ℕ). m i ∷ l) (bytes_from-add (i + 1) a j b n m (omega arith) (omega arith))

rounds-int_sub : (a b : ℕ) → rounds (int_sub a b) ≡ a - b
rounds-int_sub a b = ground arith

-- Where the packet is at least as long as its two headers, the three dumps, read back one after the
-- other, give exactly the `size` bytes of the packet.
pub dump_parts_cover :
    (m : Memory) (size len : ℕ)
    → ((k : ℕ) → m k < 256)
    → iphdrlen m + len ≤ size
    → let (ip, header, payload) = dump_parts m size len in
      read_hex ip ++ (read_hex header ++ read_hex payload) ≡ bytes_from 0 size m
unfolding dump_parts
dump_parts_cover m size len small h =
    ap₂ ◌++◌ (read_hex-print_data m (pos (iphdrlen m)) small) (
      ap₂ ◌++◌ (part (iphdrlen m) len (pos len) refl) (
        part (iphdrlen m + len) (size - (len + ihl m * 4)) (int_sub size (len + ihl m * 4))
          (rounds-int_sub size (len + ihl m * 4))))
    ∙ ap (λ (l : List ℕ). bytes_from 0 (iphdrlen m) m ++ l)
        (bytes_from-add (iphdrlen m) len (iphdrlen m + len) (size - (len + ihl m * 4))
          (size - iphdrlen m) m refl (omega arith))
    ∙ bytes_from-add 0 (iphdrlen m) (iphdrlen m) (size - iphdrlen m) size m (omega arith)
        (omega arith)
  where
    part :
        (k n : ℕ) (z : ℤ) → rounds z ≡ n → read_hex (print_data (offset k m) z) ≡ bytes_from k n m
    part k n z e =
        read_hex-print_data (offset k m) z (λ i. small (i + k))
        ∙ ap (λ (r : ℕ). bytes_from 0 r (offset k m)) e
        ∙ bytes_from-offset 0 n k m
        ∙ ap (λ (j : ℕ). bytes_from j n m) (omega arith)
