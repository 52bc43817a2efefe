-- ===== src/Geoip.antt =====
-- src/rules/geoip.rs. The MaxMind reader is a crate's: it stands as the two calls that are made.
pub mod Private
pub mod Tests
use easynet.Prelude.{
  ℕ, Bool, true, false, ◌&&◌, ◌||◌, Option, none, some, leb, ◌==◌, if◌then◌else◌, is_empty, not,
}
use easynet.Text.{Text, codes, text_eq, trim, to_ascii_uppercase, eq_ignore_ascii_case}
use easynet.Net.{
  Ipv4Addr, is_private, is_loopback, is_link_local, is_unspecified, is_broadcast, is_multicast,
}

-- The ISO codes that a decoded record may hold.
pub record Country : Type 0 where
  pub country : Option Text
  pub registered : Option Text
  pub represented : Option Text

-- `lookup` gives a result or an error; decoding the result gives a record, nothing, or an error.
pub record Reader : Type 0 where
  pub lookup : Ipv4Addr → Option ℕ
  pub decode : ℕ → Option (Option Country)

pub record GeoIpMatcher : Type 0 where
  pub reader : Option Reader

-- `load`, over the crate's `Reader::open_readfile`.
unfoldable pub load : (Text → Option Reader) → Option Text → GeoIpMatcher
load open_readfile none = record { reader = none }
load open_readfile (some path) = record {
  reader = if not (is_empty (trim path)) then open_readfile path else none;
}

abbrev pub without_database : GeoIpMatcher
without_database = record { reader = none }

unfoldable pub is_cgnat : Ipv4Addr → Bool
is_cgnat ip = ip.a == 100 && (leb 64 ip.b && leb ip.b 127)

unfoldable pub is_private_ip : Ipv4Addr → Bool
unfolding is_private is_loopback is_link_local is_unspecified is_broadcast is_multicast is_cgnat
is_private_ip ip =
    is_private ip
    || is_loopback ip
    || is_link_local ip
    || is_unspecified ip
    || is_broadcast ip
    || is_multicast ip
    || is_cgnat ip

abbrev pub is_code : Option Text → Text → Bool
is_code none code = false
is_code (some iso) code = text_eq iso code

-- `let … else` over a result, an error and nothing.
abbrev country_matches : Option (Option Country) → Text → Bool
country_matches none code = false
country_matches (some none) code = false
country_matches (some (some c)) code =
    is_code c.country code || is_code c.registered code || is_code c.represented code

abbrev reader_matches : Option Reader → Ipv4Addr → Text → Bool
reader_matches none ip code = false
reader_matches (some r) ip code = elim (r.lookup ip) [
  | none ↦ false
  | some found ↦ country_matches (r.decode found) (to_ascii_uppercase code)
]

unfoldable pub matches : GeoIpMatcher → Ipv4Addr → Text → Bool
unfolding is_private_ip eq_ignore_ascii_case
matches g ip code =
    if eq_ignore_ascii_case code (codes "PRIVATE")
    then is_private_ip ip
    else reader_matches g.reader ip code
