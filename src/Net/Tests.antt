-- ===== src/Net/Tests.antt =====
-- The round trip of addresses at a concrete one.
use easynet.Prelude.{◌≡◌, refl, some, none, arith}
use easynet.Text.{codes}
use easynet.Text
use easynet.Net.{Ipv4Addr, octets, IsOctets, parse_octet, parse_ipv4, display_ipv4, four_octets}
use easynet.Net.RoundTrip.{parse_ipv4-display_ipv4}

parse_leading_zero : parse_ipv4 (codes "10.0.01.2") ≡ none
unfolding parse_ipv4 parse_octet four_octets Text.split Text.scan_digits
parse_leading_zero = refl

abbrev public_dns : Ipv4Addr
public_dns = octets 114 114 8 0

public_dns-IsOctets : IsOctets public_dns
public_dns-IsOctets = record {
  a_lt = omega arith;
  b_lt = omega arith;
  c_lt = omega arith;
  d_lt = omega arith;
}

parse_ipv4-display_ipv4_example : parse_ipv4 (display_ipv4 public_dns) ≡ some public_dns
parse_ipv4-display_ipv4_example = parse_ipv4-display_ipv4 public_dns public_dns-IsOctets
