-- ===== src/Tests/Packets.antt =====
-- The sniffer of NetWorkSniffer/ at a concrete frame.
use network_code.Base.{
  ℕ, ◌%◌, ◌<◌, ◌≡◌, pos, none, some, List, [], ◌∷◌, ◌++◌, arith, codes, ◌==◌, if◌then◌else◌,
}
use network_code.Sniffer.Dump.{Memory, print_data}
use network_code.Sniffer.Dump.Read.{read_hex, bytes_from, read_hex-print_data}
use network_code.Sniffer.Show.{dump_parts}
use network_code.Sniffer.Show.Parts.{dump_parts_cover}
use network_code.Sniffer.Process.{Sniffer}
use network_code.Sniffer.Session.{
  Ready, failed, ready, session, state, Counted, frames_read, session-Counted,
}

-- Twenty-four bytes: an IP header without options, and four more.
abbrev packet : Memory
packet i = if i == 0 then 69 else if i == 23 then 171 else i % 256

packet-byte : (i : ℕ) → packet i < 256
packet-byte i = ground arith

read_hex-print_data_example : read_hex (print_data packet (pos 4)) ≡ 69 ∷ 1 ∷ 2 ∷ 3 ∷ []
read_hex-print_data_example = read_hex-print_data packet (pos 4) packet-byte

dump_parts_cover_example :
    read_hex (dump_parts packet 30 8).0
      ++ (read_hex (dump_parts packet 30 8).1 ++ read_hex (dump_parts packet 30 8).2)
    ≡ bytes_from 0 30 packet
dump_parts_cover_example = dump_parts_cover packet 30 8 packet-byte (omega arith)

abbrev idle : Sniffer
idle = record {
  prot = record { tcp = 1; udp = 2; icmp = 0; igmp = 0; others = 4; total = 7 };
  log = [];
}

abbrev day : List Ready
day =
    ready none [] (some (record { size = pos 60; buf = packet }))
    ∷ ready (some (codes "what")) [] none
    ∷ ready none [] none
    ∷ failed
    ∷ []

session-Counted_example : Counted idle.prot (frames_read day) (state (session day idle)).prot
session-Counted_example = session-Counted day idle
