-- ===== src/Filter/Allowed.antt =====
-- Which packets the filters of src/transparent_proxy/filter.rs let through.
use easynet.Prelude.{
  ◌/◌, ◌^◌, ◌≤◌, ◌≡◌, ◌≢◌, refl, ◌↔◌, true, List, [], ◌∷◌, all, All, arith, and_split,
}
use easynet.Net.{
  IpAddr, v4, v6, IsOctets, to_u32, is_broadcast, is_multicast, is_unspecified, is_multicast_v6,
  is_unspecified_v6,
}
use easynet.Filter.{IpFilter, with_non_broadcast, non_broadcast, add_all, is_allowed}

-- An address of one host: for IPv4 neither 0.0.0.0 nor 255.255.255.255 nor one of 224.0.0.0 to
-- 239.255.255.255; for IPv6 not zero, and not in ff00::/8.
abbrev pub IsUnicast : IpAddr → Type 0
IsUnicast (v4 ip) =
    (to_u32 ip ≢ 0)
    × (to_u32 ip ≢ 0xFFFFFFFF)
    × ¬ ((0xE0000000 ≤ to_u32 ip) × (to_u32 ip ≤ 0xEFFFFFFF))
IsUnicast (v6 x) = (x ≢ 0) × (x / 2 ^ 120 ≢ 255)

-- Four octets, for an IPv4 address.
abbrev pub IsAddress : IpAddr → Type 0
IsAddress (v4 ip) = IsOctets ip
IsAddress (v6 x) = Unit

non_broadcast_iff : (a : IpAddr) → IsAddress a → (non_broadcast a ≡ true) ↔ IsUnicast a
unfolding non_broadcast is_broadcast is_multicast is_unspecified is_multicast_v6 is_unspecified_v6
    to_u32
non_broadcast_iff (v4 ip) h = ground arith
non_broadcast_iff (v6 x) h = ground arith

all_iff :
    (src dst : IpAddr) (fs : List IpFilter)
    → (all (λ f. f src dst) fs ≡ true) ↔ All (λ f. f src dst ≡ true) fs
all_iff src dst [] = (λ _. tt, λ _. refl)
all_iff src dst (f ∷ fs) = (
  λ h. let (here, later) = and_split _ _ h in (here, (all_iff src dst fs).0 later),
  λ (here, later). rw (here, (all_iff src dst fs).1 later),
)

-- The filters that the proxy starts from, with others put behind them, let a packet through exactly
-- when its source and its destination are addresses of one host and each of the other filters lets it
-- through.
pub is_allowed_iff :
    (fs : List IpFilter) (src dst : IpAddr)
    → IsAddress src
    → IsAddress dst
    → (is_allowed (add_all with_non_broadcast fs) src dst ≡ true)
      ↔ (IsUnicast src × IsUnicast dst × All (λ f. f src dst ≡ true) fs)
unfolding is_allowed add_all
is_allowed_iff fs src dst hs hd = (
  λ h.
      let (both, rest) = and_split _ _ h in
      let (s, d) = and_split _ _ both in
      ((non_broadcast_iff src hs).0 s, (non_broadcast_iff dst hd).0 d, (all_iff src dst fs).0 rest),
  λ (s, d, rest).
      rw (
        (non_broadcast_iff src hs).1 s,
        (non_broadcast_iff dst hd).1 d,
        (all_iff src dst fs).1 rest,
      ),
)
