-- ===== src/Proxy/Icmp/Tests.antt =====
-- Echo messages through the ICMP proxy at concrete packets.
use easynet.Prelude.{
  ℕ, ◌<◌, ◌*◌, ◌+◌, ◌/◌, ◌%◌, ap, ◌≡◌, refl, Bool, true, false, ◌&&◌, Option, none, some, [], ◌∷◌,
  ltb, ◌==◌, if◌then◌else◌, length, arith, ok,
}
use easynet.Message.{Bytes}
use easynet.Net.{octets}
use easynet.Proxy.Udp.{udp_key}
use easynet.Proxy.Icmp.Smoltcp.{Ipv4View, Wire, IsEchoLayout, IsLawful, echo_request}
use easynet.Proxy.Icmp.{IcmpKey, InboundIcmpPacket, parse_inbound_icmp_packet}
use easynet.Proxy.Icmp.Session
use easynet.Proxy.Icmp.Session.{icmp_loop}
use easynet.Proxy.Icmp.Echo.{IsEchoRequest, IsEchoReply, ReachesClient, echo_comes_back}

-- A stand-in for the crate: an ICMP message is eight bytes or more without a checksum, and an IPv4
-- packet a mark, the two addresses, the protocol, the hop limit and the payload.
abbrev toy_parse : Bytes → Option Ipv4View
toy_parse (v ∷ a ∷ b ∷ c ∷ d ∷ e ∷ f ∷ g ∷ h ∷ next ∷ hop ∷ payload) =
    if v == 69 && ltb hop 256
    then some (record {
      src_addr = octets a b c d;
      dst_addr = octets e f g h;
      next_header = next;
      hop_limit = hop;
      payload = payload;
    })
    else none
toy_parse _ = none

abbrev toy_emit : Ipv4View → Bytes
toy_emit view =
    let s = view.src_addr in
    let t = view.dst_addr in
    69 ∷ s.a ∷ s.b ∷ s.c ∷ s.d ∷ t.a ∷ t.b ∷ t.c ∷ t.d ∷ view.next_header ∷ view.hop_limit
    ∷ view.payload

abbrev toy_is_icmp : Bytes → Bool
toy_is_icmp (kind ∷ code ∷ c ∷ d ∷ high ∷ low ∷ g ∷ h ∷ rest) = true
toy_is_icmp _ = false

abbrev toy_type : Bytes → ℕ
toy_type [] = 0
toy_type (kind ∷ rest) = kind

abbrev toy_ident : Bytes → ℕ
toy_ident (kind ∷ code ∷ c ∷ d ∷ high ∷ low ∷ rest) = high * 256 + low
toy_ident _ = 0

abbrev toy_set : ℕ → Bytes → Bytes
toy_set ident (kind ∷ code ∷ c ∷ d ∷ high ∷ low ∷ rest) =
    kind ∷ code ∷ c ∷ d ∷ ident / 256 ∷ ident % 256 ∷ rest
toy_set ident p = p

abbrev toy : Wire
toy = record {
  parse_ipv4 = toy_parse;
  emit_ipv4 = toy_emit;
  is_icmp = toy_is_icmp;
  msg_type = toy_type;
  echo_ident = toy_ident;
  set_echo_ident = toy_set;
  fill_checksum = λ p. p;
}

toy_set_ident : (ident : ℕ) (p : Bytes) → toy_is_icmp p ≡ true → toy_ident (toy_set ident p) ≡ ident
toy_set_ident ident (kind ∷ code ∷ c ∷ d ∷ high ∷ low ∷ g ∷ h ∷ rest) e = omega arith
toy_set_ident ident _ h = cc

toy_set_icmp : (ident : ℕ) (p : Bytes) → toy_is_icmp p ≡ true → toy_is_icmp (toy_set ident p) ≡ true
toy_set_icmp ident (kind ∷ code ∷ c ∷ d ∷ high ∷ low ∷ g ∷ h ∷ rest) e = refl
toy_set_icmp ident _ h = cc

toy_set_type :
    (ident : ℕ) (p : Bytes) → toy_is_icmp p ≡ true → toy_type (toy_set ident p) ≡ toy_type p
toy_set_type ident (kind ∷ code ∷ c ∷ d ∷ high ∷ low ∷ g ∷ h ∷ rest) e = refl
toy_set_type ident _ h = cc

length-toy_set :
    (ident : ℕ) (p : Bytes) → toy_is_icmp p ≡ true → length (toy_set ident p) ≡ length p
length-toy_set ident (kind ∷ code ∷ c ∷ d ∷ high ∷ low ∷ g ∷ h ∷ rest) e = refl
length-toy_set ident _ h = cc

toy_hop : (p : Bytes) (view : Ipv4View) → toy_parse p ≡ some view → view.hop_limit < 256
toy_hop (v ∷ a ∷ b ∷ c ∷ d ∷ e ∷ f ∷ g ∷ h ∷ next ∷ hop ∷ payload) view found = ground arith
toy_hop _ view found = cc

toy_layout : (p : Bytes) → toy_is_icmp p ≡ true → toy_type p ≡ echo_request → IsEchoLayout toy p
toy_layout (kind ∷ code ∷ c ∷ d ∷ high ∷ low ∷ g ∷ h ∷ rest) checked request = record {
  code = code;
  sum_high = c;
  sum_low = d;
  high = high;
  low = low;
  seq_high = g;
  seq_low = h;
  body = rest;
  layout = ap (λ k. k ∷ code ∷ c ∷ d ∷ high ∷ low ∷ g ∷ h ∷ rest) request;
  ident = refl;
}
toy_layout _ checked request = cc

toy-IsLawful : IsLawful toy
toy-IsLawful = record {
  echo_layout = toy_layout;
  echo_ident-set = λ ident p h small. toy_set_ident ident p h;
  is_icmp-set = toy_set_icmp;
  msg_type-set = toy_set_type;
  length-set = length-toy_set;
  echo_ident-fill = λ p h. refl;
  msg_type-fill = λ p h. refl;
  length-fill = λ p h. refl;
  parse-emit = λ view icmp small fits. ground arith;
  hop_limit-lt = toy_hop;
}

abbrev pinger : IcmpKey
pinger = record {
  client = octets 10 0 0 2;
  target = octets 1 1 1 1;
  kind = 8;
  code = 0;
  identifier = some 589;
}

-- An echo request with the identifier 2 * 256 + 77 and the sequence number 5.
abbrev ping : Bytes
ping = 8 ∷ 0 ∷ 0 ∷ 0 ∷ 2 ∷ 77 ∷ 0 ∷ 5 ∷ 97 ∷ []

abbrev asked : Ipv4View
asked = record {
  src_addr = octets 10 0 0 2;
  dst_addr = octets 1 1 1 1;
  next_header = 1;
  hop_limit = 64;
  payload = ping;
}

abbrev ping_packet : Bytes
ping_packet = 69 ∷ 10 ∷ 0 ∷ 0 ∷ 2 ∷ 1 ∷ 1 ∷ 1 ∷ 1 ∷ 1 ∷ 64 ∷ ping

ping-IsEchoRequest : IsEchoRequest toy ping_packet asked
ping-IsEchoRequest = record {
  parsed = refl;
  is_icmp_packet = refl;
  checked = refl;
  request = refl;
  is_u16 = omega arith;
}

abbrev pong : Bytes
pong = 0 ∷ 0 ∷ 0 ∷ 0 ∷ 64 ∷ 0 ∷ 0 ∷ 5 ∷ 97 ∷ []

pong-IsEchoReply : IsEchoReply toy 0x4000 pong
pong-IsEchoReply = record { checked = refl; is_reply = refl; same_ident = refl; fits = omega arith }

echo_comes_back_example :
    (inbound : InboundIcmpPacket) × (sent : Bytes) × (back : Bytes) × (parse_inbound_icmp_packet toy
        ping_packet
      ≡ ok inbound)
    × (icmp_loop toy inbound.key 0x4000
          (Session.requested ping_packet (some (length sent)) ∷ Session.replied pong true ∷ [])
        ≡ record { outbound = sent ∷ []; inbound = back ∷ []; ending = none })
    × (toy_type sent ≡ echo_request)
    × (toy_ident sent ≡ 0x4000)
    × ReachesClient toy asked back
echo_comes_back_example =
    echo_comes_back toy toy-IsLawful ping_packet asked 0x4000 pong (omega arith) ping-IsEchoRequest
      pong-IsEchoReply
