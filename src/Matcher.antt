-- ===== src/Matcher.antt =====
-- src/rules/matcher.rs: whether a rule matches a packet.
pub mod Domains
pub mod Conditions
pub mod Tests
use easynet.Prelude.{
  ℕ, ◌≡◌, refl, Bool, true, false, ◌&&◌, ◌||◌, Option, none, some, List, [], ◌∷◌, ◌++◌, leb,
  if◌then◌else◌, any, Result, ok, err,
}
use easynet.Text.{Text, Unicode, text_eq, ends_with, contains}
use easynet.Net.{Ipv4Addr, ipv4_eq, parse_ipv4}
use easynet.Rule.{Protocol, Rule, protocol_from_str, protocol_eq}
use easynet.Context.{PacketContext}
use easynet.Geoip.{GeoIpMatcher}
use easynet.Geoip
use easynet.Config.{Ipv4Network, Parsers, PortError, parse_port_range}

abbrev same_address : Option Ipv4Addr → Ipv4Addr → Bool
same_address none ip = false
same_address (some a) ip = ipv4_eq a ip

unfoldable pub matches_ip : Parsers → Text → Ipv4Addr → Bool
unfolding ipv4_eq
matches_ip ps cidr ip = elim (ps.parse_network cidr) [
  | some network ↦ network.contains ip
  | none ↦ same_address (parse_ipv4 cidr) ip
]

unfoldable pub in_range : Result (ℕ × ℕ) PortError → ℕ → Bool
in_range (ok (start, stop)) port = leb start port && leb port stop
in_range (err e) port = false

unfoldable pub matches_port : Text → Option ℕ → Bool
unfolding in_range
matches_port spec none = false
matches_port spec (some port) = in_range (parse_port_range spec) port

abbrev same_protocol : Option Protocol → Protocol → Bool
same_protocol none packet_proto = false
same_protocol (some proto) packet_proto = protocol_eq proto packet_proto

unfoldable pub matches_protocol : Unicode → Text → Protocol → Bool
unfolding protocol_eq protocol_from_str
matches_protocol uni text packet_proto = same_protocol (protocol_from_str uni text) packet_proto

unfoldable pub matches_domain : Text → List Text → Bool
unfolding text_eq
matches_domain domain domains = any (λ value. text_eq value domain) domains

unfoldable pub matches_domain_suffix : Text → List Text → Bool
unfolding text_eq ends_with
matches_domain_suffix suffix domains =
    any (λ value. text_eq value suffix || ends_with (b'.' ∷ suffix) value) domains

unfoldable pub matches_domain_keyword : Text → List Text → Bool
unfolding contains
matches_domain_keyword keyword domains = any (λ value. contains keyword value) domains

-- A condition that is absent holds; one that is present is tested.
abbrev pub holds : Option Text → (Text → Bool) → Bool
holds none test = true
holds (some value) test = test value

-- `Matcher::matches`: each failing condition returns false at once.
unfoldable pub matches : Parsers → Rule → PacketContext → GeoIpMatcher → Bool
matches ps rule packet geoip =
    holds rule.src_ip_cidr (λ cidr. matches_ip ps cidr packet.src_ip)
    && holds rule.dst_ip_cidr (λ cidr. matches_ip ps cidr packet.dst_ip)
    && holds rule.src_port (λ spec. matches_port spec packet.src_port)
    && holds rule.dst_port (λ spec. matches_port spec packet.dst_port)
    && holds rule.proto (λ text. matches_protocol ps.unicode text packet.protocol)
    && holds rule.domain (λ domain. matches_domain domain packet.domains)
    && holds rule.domain_suffix (λ suffix. matches_domain_suffix suffix packet.domains)
    && holds rule.domain_keyword (λ keyword. matches_domain_keyword keyword packet.domains)
    && holds rule.geoip (λ code. Geoip.matches geoip packet.dst_ip code)
