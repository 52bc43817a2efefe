-- ===== src/Context.antt =====
-- src/rules/context.rs. `etherparse` slices the packet; the slices are what this code reads.
use easynet.Prelude.{ℕ, Option, none, some, List, []}
use easynet.Text.{Text}
use easynet.Net.{Ipv4Addr}
use easynet.Rule.{Protocol, tcp, udp, icmp, other}

-- The transport layer that `etherparse` recognised, with the ports.
pub data TransportSlice : Type 0 where
  tcp_slice udp_slice : ℕ → ℕ → TransportSlice
  icmpv4_slice icmpv6_slice : TransportSlice

pub data InternetSlice : Type 0 where
  ipv4_slice : Ipv4Addr → Ipv4Addr → InternetSlice
  ipv6_slice : InternetSlice

pub record SlicedPacket : Type 0 where
  pub net : Option InternetSlice
  pub transport : Option TransportSlice
  -- The bytes behind the UDP header, where the transport is UDP.
  pub udp_payload : List ℕ

-- `SlicedPacket::from_ip`.
abbrev pub Slicer : Type 0
Slicer = List ℕ → Option SlicedPacket

pub record PacketContext : Type 0 where
  pub src_ip : Ipv4Addr
  pub dst_ip : Ipv4Addr
  pub src_port : Option ℕ
  pub dst_port : Option ℕ
  pub protocol : Protocol
  pub domains : List Text

abbrev pub new_context : Ipv4Addr → Ipv4Addr → Option ℕ → Option ℕ → Protocol → PacketContext
new_context src dst sport dport protocol = record {
  src_ip = src;
  dst_ip = dst;
  src_port = sport;
  dst_port = dport;
  protocol = protocol;
  domains = [];
}

abbrev pub with_domains : PacketContext → List Text → PacketContext
with_domains p domains = record p { domains = domains }

-- The part of `from_ip_packet` behind the addresses.
unfoldable pub of_transport : Ipv4Addr → Ipv4Addr → Option TransportSlice → Option PacketContext
of_transport src dst none = some (new_context src dst none none (other 0))
of_transport src dst (some (tcp_slice sport dport)) =
    some (new_context src dst (some sport) (some dport) tcp)
of_transport src dst (some (udp_slice sport dport)) =
    some (new_context src dst (some sport) (some dport) udp)
of_transport src dst (some icmpv4_slice) = some (new_context src dst none none icmp)
of_transport src dst (some icmpv6_slice) = none

unfoldable pub of_slices : Option InternetSlice → Option TransportSlice → Option PacketContext
unfolding of_transport
of_slices (some (ipv4_slice src dst)) transport = of_transport src dst transport
of_slices (some ipv6_slice) transport = none
of_slices none transport = none

unfoldable pub from_ip_packet : Slicer → List ℕ → Option PacketContext
unfolding of_slices
from_ip_packet from_ip packet = elim (from_ip packet) [
  | none ↦ none
  | some sliced ↦ of_slices sliced.net sliced.transport
]
