-- ===== src/Sniffer/Process.antt =====
-- `ProcessPacket` of NetWorkSniffer/main.c: the counters, and the log.
use network_code.Base.{ℕ, ◌+◌, ◌%◌, ◌^◌, ◌≡◌, ◌≢◌, List, ◌++◌, ◌==◌, if◌then◌else◌, arith}
use network_code.Sniffer.Dump.{Memory, offset}
use network_code.Sniffer.Fields.{protocol}
use network_code.Sniffer.Show.{print_tcp_packet, print_udp_packet, print_icmp_packet}

-- `t_protocol`: the counters as 32-bit patterns. `main` asks for less memory than they take, and sets none
-- of them; what they hold at first is an argument of the model of `main`.
pub record Counters : Type 0 where
  pub tcp : ℕ
  pub udp : ℕ
  pub icmp : ℕ
  pub igmp : ℕ
  pub others : ℕ
  pub total : ℕ

-- `t_sniffer`, with what has been written to the log file.
pub record Sniffer : Type 0 where
  pub prot : Counters
  pub log : List ℕ

abbrev pub inc : ℕ → ℕ
inc n = (n + 1) % 2 ^ 32

-- `buf + 6 + 6 + 3`
abbrev pub skipped : ℕ
skipped = 15

-- The `switch` over the protocol, on the pointer moved forward. `size` is still that of the frame.
unfoldable pub classify : Memory → ℕ → Sniffer → Sniffer
classify m size s =
    let n : Counters = record s.prot { total = inc s.prot.total } in
    if protocol m == 1
    then record s { prot = record n { icmp = inc n.icmp }; log = s.log ++ print_icmp_packet m size }
    else if protocol m == 2
    then record s { prot = record n { igmp = inc n.igmp } }
    else if protocol m == 6
    then record s { prot = record n { tcp = inc n.tcp }; log = s.log ++ print_tcp_packet m size }
    else if protocol m == 17
    then record s { prot = record n { udp = inc n.udp }; log = s.log ++ print_udp_packet m size }
    else record s { prot = record n { others = inc n.others } }

unfoldable pub process_packet : Memory → ℕ → Sniffer → Sniffer
process_packet frame size s = classify (offset skipped frame) size s

-- The total is the sum of the others, modulo 2 ^ 32.
abbrev Balanced : Counters → Type 0
Balanced n = n.total ≡ (n.tcp + n.udp + n.icmp + n.igmp + n.others) % 2 ^ 32

classify-Balanced :
    (m : Memory) (size : ℕ) (s : Sniffer) → Balanced s.prot → Balanced (classify m size s).prot
unfolding classify
classify-Balanced m size s h = ground arith

-- Every packet, of whatever protocol, keeps the counters balanced, and is counted in the total.
process_packet-Balanced :
    (frame : Memory) (size : ℕ) (s : Sniffer)
    → Balanced s.prot
    → Balanced (process_packet frame size s).prot
      × ((process_packet frame size s).prot.total ≡ inc s.prot.total)
unfolding process_packet classify
process_packet-Balanced frame size s h =
    (classify-Balanced (offset skipped frame) size s h, ground arith)

-- In an Ethernet frame the IP header begins at byte 14, and its protocol is byte 23; the program
-- reads byte 24, the first of the header's checksum. So a TCP packet whose checksum does not begin
-- with the byte 6 is not counted as TCP.
tcp_missed :
    (frame : Memory) (size : ℕ) (s : Sniffer)
    → protocol (offset 14 frame) ≡ 6
    → frame 24 ≢ 6
    → (process_packet frame size s).prot.tcp ≡ s.prot.tcp
unfolding process_packet classify
tcp_missed frame size s p ne = ground arith
