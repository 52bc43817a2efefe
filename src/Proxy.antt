-- ===== src/Proxy.antt =====
-- src/transparent_proxy: the translation of destinations in src/transparent_proxy/mod.rs, and the TCP
-- relay of src/transparent_proxy/tcp_proxy.rs. UDP and ICMP have modules of their own.
pub mod Sessions
pub mod Tcp
pub mod Udp
pub mod Icmp
pub mod Tests
use easynet.Prelude.{
  ℕ, ◌+◌, ◌-◌, Bool, true, false, Option, none, some, List, [], ◌∷◌, Result, ok, err, if◌then◌else◌,
}
use easynet.Net.{socket_addr, Ipv4Addr, IpAddr, v4, v6, SocketAddr}

pub record UpstreamServer : Type 0 where
  pub ip : Option IpAddr

abbrev socket_to : Option IpAddr → SocketAddr → SocketAddr
socket_to none addr = addr
socket_to (some ip) addr = socket_addr ip addr.port

abbrev ipv4_to : Option IpAddr → Ipv4Addr → Result Ipv4Addr IpAddr
ipv4_to none addr = ok addr
ipv4_to (some (v4 ip)) addr = ok ip
ipv4_to (some (v6 ip)) addr = err (v6 ip)

unfoldable pub translate_socket : UpstreamServer → SocketAddr → SocketAddr
translate_socket upstream addr = socket_to upstream.ip addr

unfoldable pub translate_ipv4 : UpstreamServer → Ipv4Addr → Result Ipv4Addr IpAddr
translate_ipv4 upstream addr = ipv4_to upstream.ip addr
