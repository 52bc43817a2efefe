-- ===== src/Geoip/Tests.antt =====
-- The private addresses at a concrete one.
use easynet.Prelude.{◌≡◌, ◌↔◌, true, arith, Any}
use easynet.Net.{Ipv4Addr, octets, IsOctets, to_u32}
use easynet.Geoip.{is_private_ip}
use easynet.Geoip.Private.{InBlock, private_blocks, is_private_ip_iff}

abbrev carrier : Ipv4Addr
carrier = octets 100 72 3 4

carrier-IsOctets : IsOctets carrier
carrier-IsOctets = record {
  a_lt = omega arith;
  b_lt = omega arith;
  c_lt = omega arith;
  d_lt = omega arith;
}

is_private_ip_iff_example :
    (is_private_ip carrier ≡ true) ↔ Any (InBlock (to_u32 carrier)) private_blocks
is_private_ip_iff_example = is_private_ip_iff carrier carrier-IsOctets
