-- ===== src/Filter.antt =====
-- src/transparent_proxy/filter.rs: the filters on the two addresses of a packet.
pub mod Allowed
pub mod Tests
use easynet.Prelude.{Bool, true, false, ◌&&◌, ◌||◌, List, [], ◌∷◌, ◌++◌, not, all}
use easynet.Net.{
  Ipv4Addr, IpAddr, v4, v6, is_broadcast, is_multicast, is_unspecified, is_multicast_v6,
  is_unspecified_v6,
}

abbrev pub IpFilter : Type 0
IpFilter = IpAddr → IpAddr → Bool

pub record IpFilters : Type 0 where
  pub filters : List IpFilter

-- `new`, and `default`.
abbrev pub new_filters : IpFilters
new_filters = record { filters = [] }

-- The macro of `with_non_broadcast`.
unfoldable pub non_broadcast : IpAddr → Bool
non_broadcast (v4 a) = not (is_broadcast a || is_multicast a || is_unspecified a)
non_broadcast (v6 a) = not (is_multicast_v6 a || is_unspecified_v6 a)

abbrev pub with_non_broadcast : IpFilters
with_non_broadcast = record { filters = (λ src dst. non_broadcast src && non_broadcast dst) ∷ [] }

-- `add`, and `add_fn`, which boxes its argument first.
unfoldable pub add_filter : IpFilters → IpFilter → IpFilters
add_filter fs filter = record { filters = fs.filters ++ filter ∷ [] }

unfoldable pub add_all : IpFilters → List IpFilter → IpFilters
add_all fs filters = record { filters = fs.filters ++ filters }

unfoldable pub is_allowed : IpFilters → IpAddr → IpAddr → Bool
is_allowed fs src dst = all (λ filter. filter src dst) fs.filters
