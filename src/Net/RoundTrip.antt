-- ===== src/Net/RoundTrip.antt =====
-- A printed IPv4 address is read back. (The server prints the addresses of its TUN configuration,
-- and the client parses them.)
use easynet.Prelude.{ℕ, ◌<◌, ◌≡◌, some, arith}
use easynet.Text.Split.{Lacks, split_cons, split_last}
use easynet.Net.{
  Ipv4Addr, IsOctets, parse_octet, four_octets, parse_ipv4, display_octet, display_ipv4,
}

parse_octet-display_octet : (n : ℕ) → n < 256 → parse_octet (display_octet n) ≡ some n
unfolding parse_octet display_octet
parse_octet-display_octet n h = ground arith

display_octet-Lacks : (n : ℕ) → n < 256 → Lacks b'.' (display_octet n)
unfolding display_octet
display_octet-Lacks n h = ground arith

-- Parsing the printed form of an address of four octets gives the address.
pub parse_ipv4-display_ipv4 : (ip : Ipv4Addr) → IsOctets ip → parse_ipv4 (display_ipv4 ip) ≡ some ip
unfolding parse_ipv4 display_ipv4 four_octets
parse_ipv4-display_ipv4 ip v = rw (
  split_cons b'.' (display_octet ip.a) _ (display_octet-Lacks ip.a v.a_lt),
  split_cons b'.' (display_octet ip.b) _ (display_octet-Lacks ip.b v.b_lt),
  split_cons b'.' (display_octet ip.c) _ (display_octet-Lacks ip.c v.c_lt),
  split_last b'.' (display_octet ip.d) (display_octet-Lacks ip.d v.d_lt),
  parse_octet-display_octet ip.a v.a_lt,
  parse_octet-display_octet ip.b v.b_lt,
  parse_octet-display_octet ip.c v.c_lt,
  parse_octet-display_octet ip.d v.d_lt,
)
