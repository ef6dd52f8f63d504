-- ===== src/Sniffer/Show.antt =====
-- The functions of NetWorkSniffer/Show_Packet.c that write a packet to the log file. Each returns
-- the bytes that it appends.
pub mod Parts
use network_code.Base.{
  ℕ, ◌+◌, ◌*◌, ℤ, pos, List, [], ◌∷◌, ◌++◌, ◌==◌, if◌then◌else◌, print_nat, codes, String,
}
use mathlib.Core.List.{flatten}
use network_code.Sniffer.Dump.{Memory, offset, print_data}
use network_code.Sniffer.Fields.{
  ntohs_at, ntohl_at, raw_at, bit_at, ihl, version, iphdrlen, protocol, doff, inet_ntoa, int_sub,
}

-- `"label%d\n"` of a number that is not negative.
abbrev pub field : String → ℕ → List ℕ
field label n = codes label ++ (print_nat n ++ codes "\n")

-- `"label%d DWORDS or %d unit\n"`
abbrev pub words_field : String → ℕ → String → List ℕ
words_field label n unit =
    codes label ++ (print_nat n ++ (codes " DWORDS or " ++ (print_nat (n * 4) ++ codes unit)))

unfoldable pub print_ip_header : Memory → List ℕ
print_ip_header m = flatten (
    codes "\nIP Header\n"
    ∷ field "   |-IP Version        : " (version m)
    ∷ words_field "   |-IP Header Length  : " (ihl m) " Bytes\n"
    ∷ field "   |-Type Of Service   : " (m 1)
    ∷ codes "   |-IP Total Length   : "
    ∷ print_nat (ntohs_at m 2)
    ∷ codes "  Bytes(size of Packet)\n"
    ∷ field "   |-Identification    : " (ntohs_at m 4)
    ∷ field "   |-TTL      : " (m 8)
    ∷ field "   |-Protocol : " (protocol m)
    ∷ field "   |-Checksum : " (ntohs_at m 10)
    ∷ codes "   |-Source IP        : "
    ∷ inet_ntoa m 12
    ∷ codes "\n   |-Destination IP   : "
    ∷ inet_ntoa m 16
    ∷ codes "\n"
    ∷ [])

abbrev pub rule : List ℕ
rule = codes "\n###########################################################"

-- The lines of the TCP header, from its start `t`. The urgent pointer is not put through `ntohs`.
unfoldable pub tcp_header : Memory → List ℕ
tcp_header t = flatten (
    codes "\nTCP Header\n"
    ∷ field "   |-Source Port      : " (ntohs_at t 0)
    ∷ field "   |-Destination Port : " (ntohs_at t 2)
    ∷ field "   |-Sequence Number    : " (ntohl_at t 4)
    ∷ field "   |-Acknowledge Number : " (ntohl_at t 8)
    ∷ words_field "   |-Header Length      : " (doff t) " BYTES\n"
    ∷ field "   |-Urgent Flag          : " (bit_at t 13 5)
    ∷ field "   |-Acknowledgement Flag : " (bit_at t 13 4)
    ∷ field "   |-Push Flag            : " (bit_at t 13 3)
    ∷ field "   |-Reset Flag           : " (bit_at t 13 2)
    ∷ field "   |-Synchronise Flag     : " (bit_at t 13 1)
    ∷ field "   |-Finish Flag          : " (bit_at t 13 0)
    ∷ field "   |-Window         : " (ntohs_at t 14)
    ∷ field "   |-Checksum       : " (ntohs_at t 16)
    ∷ field "   |-Urgent Pointer : " (raw_at t 18)
    ∷ [])

-- The dumps of the IP header, the header of `len` bytes behind it, and the rest of `size` bytes.
unfoldable pub dump_parts : Memory → ℕ → ℕ → List ℕ × List ℕ × List ℕ
dump_parts m size len = (
  print_data m (pos (iphdrlen m)),
  print_data (offset (iphdrlen m) m) (pos len),
  print_data (offset (iphdrlen m + len) m) (int_sub size (len + ihl m * 4)),
)

-- The same with their titles.
unfoldable pub dumps : Memory → ℕ → String → ℕ → List ℕ
dumps m size label len =
    let (ip, header, payload) = dump_parts m size len in
    flatten (
      codes "IP Header\n"
      ∷ ip
      ∷ codes label
      ∷ header
      ∷ codes "Data Payload\n"
      ∷ payload
      ∷ rule
      ∷ [])

unfoldable pub print_tcp_packet : Memory → ℕ → List ℕ
print_tcp_packet m size =
    let t : Memory = offset (iphdrlen m) m in
    flatten (
      print_ip_header m
      ∷ tcp_header t
      ∷ codes "\n                        DATA Dump                         \n"
      ∷ dumps m size "TCP Header\n" (doff t * 4)
      ∷ [])

-- `sizeof(udph)`, the size of a pointer.
abbrev pub sizeof_pointer : ℕ
sizeof_pointer = 8

unfoldable pub print_udp_packet : Memory → ℕ → List ℕ
print_udp_packet m size =
    let u : Memory = offset (iphdrlen m) m in
    flatten (
      codes "\n\n***********************UDP Packet*************************\n"
      ∷ print_ip_header m
      ∷ codes "\nUDP Header\n"
      ∷ field "   |-Source Port      : " (ntohs_at u 0)
      ∷ field "   |-Destination Port : " (ntohs_at u 2)
      ∷ field "   |-UDP Length       : " (ntohs_at u 4)
      ∷ field "   |-UDP Checksum     : " (ntohs_at u 6)
      ∷ codes "\n"
      ∷ dumps m size "UDP Header\n" sizeof_pointer
      ∷ [])

-- The name of an ICMP type; other types print nothing, not even a line end.
abbrev pub icmp_name : ℕ → List ℕ
icmp_name type =
    if type == 11
    then codes "  (TTL Expired)\n"
    else if type == 0
    then codes "  (ICMP Echo Reply)\n"
    else []

unfoldable pub print_icmp_packet : Memory → ℕ → List ℕ
print_icmp_packet m size =
    let c : Memory = offset (iphdrlen m) m in
    flatten (
      codes "\n\n***********************ICMP Packet*************************\n"
      ∷ print_ip_header m
      ∷ codes "\nICMP Header\n"
      ∷ codes "   |-Type : "
      ∷ print_nat (c 0)
      ∷ icmp_name (c 0)
      ∷ field "   |-Code : " (c 1)
      ∷ field "   |-Checksum : " (ntohs_at c 2)
      ∷ codes "\n"
      ∷ dumps m size "UDP Header\n" sizeof_pointer
      ∷ [])
