-- ===== src/Filter/Tests.antt =====
-- The filters at concrete addresses.
use easynet.Prelude.{◌≡◌, ◌↔◌, true, List, [], ◌∷◌, All, arith}
use easynet.Net.{IpAddr, v4, octets, IsOctets}
use easynet.Filter.{IpFilter, with_non_broadcast, add_all, is_allowed}
use easynet.Filter.Allowed.{IsUnicast, is_allowed_iff}

abbrev host : IpAddr
host = v4 (octets 10 0 0 2)

host-IsOctets : IsOctets (octets 10 0 0 2)
host-IsOctets = record {
  a_lt = omega arith;
  b_lt = omega arith;
  c_lt = omega arith;
  d_lt = omega arith;
}

abbrev extra : List IpFilter
extra = (λ src dst. true) ∷ []

is_allowed_iff_example :
    (is_allowed (add_all with_non_broadcast extra) host host ≡ true)
    ↔ (IsUnicast host × IsUnicast host × All (λ f. f host host ≡ true) extra)
is_allowed_iff_example = is_allowed_iff extra host host host-IsOctets host-IsOctets
