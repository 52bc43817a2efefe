-- ===== src/Proxy/Icmp/Smoltcp.antt =====
-- What src/transparent_proxy/icmp_proxy.rs calls of the crate `smoltcp`, and what the crate says of
-- these calls.
use easynet.Prelude.{ℕ, ◌+◌, ◌*◌, ◌∷◌, ◌≤◌, ◌<◌, ◌^◌, ◌≡◌, Bool, true, Option, some, length}
use easynet.Message.{Bytes}
use easynet.Net.{Ipv4Addr}

-- The fields of an IPv4 packet that are read and written.
pub record Ipv4View : Type 0 where
  pub src_addr : Ipv4Addr
  pub dst_addr : Ipv4Addr
  pub next_header : ℕ
  pub hop_limit : ℕ
  pub payload : Bytes

-- `IpProtocol::Icmp`, `Icmpv4Message::EchoRequest` and `Icmpv4Message::EchoReply` by their numbers.
abbrev pub icmp_protocol : ℕ
icmp_protocol = 1

abbrev pub echo_request : ℕ
echo_request = 8

abbrev pub echo_reply : ℕ
echo_reply = 0

-- `Ipv4Packet::new_checked` with the accessors, `Ipv4Repr::emit` with the payload and its checksum,
-- and the same of `Icmpv4Packet`.
pub record Wire : Type 0 where
  pub parse_ipv4 : Bytes → Option Ipv4View
  pub emit_ipv4 : Ipv4View → Bytes
  pub is_icmp : Bytes → Bool
  pub msg_type : Bytes → ℕ
  pub echo_ident : Bytes → ℕ
  pub set_echo_ident : ℕ → Bytes → Bytes
  pub fill_checksum : Bytes → Bytes

-- An echo request as `Icmpv4Packet` reads it: a type, a code, a checksum and eight bytes or more in
-- all, of which the bytes 4 and 5 are the identifier.
pub record IsEchoLayout (w : Wire) (p : Bytes) : Type 0 where
  pub code : ℕ
  pub sum_high : ℕ
  pub sum_low : ℕ
  pub high : ℕ
  pub low : ℕ
  pub seq_high : ℕ
  pub seq_low : ℕ
  pub body : Bytes
  pub layout : p ≡ echo_request ∷ code ∷ sum_high ∷ sum_low ∷ high ∷ low ∷ seq_high ∷ seq_low ∷ body
  pub ident : w.echo_ident p ≡ high * 256 + low

-- An echo request has the layout; an identifier is set and read back, the other fields that are read stay; a checksum changes none of
-- them; and an emitted packet of a size that fits is parsed to its fields.
pub record IsLawful (w : Wire) : Type 0 where
  pub echo_layout :
      (p : Bytes) → w.is_icmp p ≡ true → w.msg_type p ≡ echo_request → IsEchoLayout w p
  pub echo_ident-set :
      (ident : ℕ) (p : Bytes)
      → w.is_icmp p ≡ true
      → ident < 2 ^ 16
      → w.echo_ident (w.set_echo_ident ident p) ≡ ident
  pub is_icmp-set :
      (ident : ℕ) (p : Bytes) → w.is_icmp p ≡ true → w.is_icmp (w.set_echo_ident ident p) ≡ true
  pub msg_type-set :
      (ident : ℕ) (p : Bytes)
      → w.is_icmp p ≡ true
      → w.msg_type (w.set_echo_ident ident p) ≡ w.msg_type p
  pub length-set :
      (ident : ℕ) (p : Bytes) → w.is_icmp p ≡ true → length (w.set_echo_ident ident p) ≡ length p
  pub echo_ident-fill :
      (p : Bytes) → w.is_icmp p ≡ true → w.echo_ident (w.fill_checksum p) ≡ w.echo_ident p
  pub msg_type-fill :
      (p : Bytes) → w.is_icmp p ≡ true → w.msg_type (w.fill_checksum p) ≡ w.msg_type p
  pub length-fill : (p : Bytes) → w.is_icmp p ≡ true → length (w.fill_checksum p) ≡ length p
  pub parse-emit :
      (view : Ipv4View)
      → view.next_header ≡ icmp_protocol
      → view.hop_limit < 256
      → length view.payload ≤ 65515
      → w.parse_ipv4 (w.emit_ipv4 view) ≡ some view
  pub hop_limit-lt :
      (packet : Bytes) (view : Ipv4View) → w.parse_ipv4 packet ≡ some view → view.hop_limit < 256
