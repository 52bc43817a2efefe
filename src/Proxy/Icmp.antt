-- ===== src/Proxy/Icmp.antt =====
-- src/transparent_proxy/icmp_proxy.rs: the packets from the TUN side, the identifiers of echo
-- messages, and the loop of one session. The packet views are those of the crate `smoltcp`.
pub mod Smoltcp
pub mod Session
pub mod Echo
pub mod Tests
use easynet.Prelude.{
  ℕ, ◌+◌, ◌*◌, ◌%◌, ◌^◌, ◌≡◌, ◌↔◌, refl, arith, Bool, true, false, ◌&&◌, Option, none, some, List,
  [], ◌∷◌, ltb, leb, ◌==◌, not, if◌then◌else◌, length, Result, ok, err, ◌>>=◌, ◌>>◌, guard, ok_or,
}
use easynet.Message.{Bytes}
use easynet.Assoc.{Key}
use easynet.Net.{Ipv4Addr, ipv4_eq, ipv4_eq_iff, v4}
use easynet.Filter.{IpFilters, is_allowed}
use easynet.Proxy.Sessions.{Table, take_channel}
use easynet.Proxy.Icmp.Smoltcp.{Ipv4View, Wire, icmp_protocol, echo_request, echo_reply}

-- `IcmpSessionKey`.
pub record IcmpKey : Type 0 where
  pub client : Ipv4Addr
  pub target : Ipv4Addr
  pub kind : ℕ
  pub code : ℕ
  pub identifier : Option ℕ

abbrev pub same_identifier : Option ℕ → Option ℕ → Bool
same_identifier none none = true
same_identifier (some a) (some b) = a == b
same_identifier _ _ = false

same_identifier_iff : (a b : Option ℕ) → (same_identifier a b ≡ true) ↔ (a ≡ b)
same_identifier_iff none none = ground arith
same_identifier_iff none (some b) = ground arith
same_identifier_iff (some a) none = ground arith
same_identifier_iff (some a) (some b) = ground arith

abbrev pub icmp_key_eq : IcmpKey → IcmpKey → Bool
icmp_key_eq x y =
    ipv4_eq x.client y.client
    && ipv4_eq x.target y.target
    && x.kind == y.kind
    && x.code == y.code
    && same_identifier x.identifier y.identifier

pub icmp_key_eq_iff : (x y : IcmpKey) → (icmp_key_eq x y ≡ true) ↔ (x ≡ y)
icmp_key_eq_iff x y = ground (
  arith,
  ipv4_eq_iff x.client y.client,
  ipv4_eq_iff x.target y.target,
  same_identifier_iff x.identifier y.identifier,
)

instance abbrev pub icmp_key : Key IcmpKey
icmp_key = record { beq = icmp_key_eq; beq_iff = icmp_key_eq_iff }

pub data IcmpError : Type 0 where
  not_ipv4 not_icmp too_short invalid_icmp ident_mismatch write_failed short_write : IcmpError
  tun_send_failed socket_failed : IcmpError

-- `extract_icmp_identifier`: the bytes 4 and 5 of an echo message of eight bytes or more.
unfoldable pub extract_icmp_identifier : Bytes → Option ℕ
extract_icmp_identifier (kind ∷ b ∷ c ∷ d ∷ high ∷ low ∷ g ∷ h ∷ rest) =
    if kind == 0
    then some (high * 256 + low)
    else if kind == 8
    then some (high * 256 + low)
    else none
extract_icmp_identifier _ = none

pub record InboundIcmpPacket : Type 0 where
  pub key : IcmpKey
  pub icmp_payload : Bytes

-- The fields of the payload, which has four bytes or more.
unfoldable pub of_payload : Ipv4View → Bytes → Result InboundIcmpPacket IcmpError
unfolding extract_icmp_identifier
of_payload view (kind ∷ code ∷ c ∷ d ∷ rest) = ok (record {
  key = record {
    client = view.src_addr;
    target = view.dst_addr;
    kind = kind;
    code = code;
    identifier = extract_icmp_identifier (kind ∷ code ∷ c ∷ d ∷ rest);
  };
  icmp_payload = kind ∷ code ∷ c ∷ d ∷ rest;
})
of_payload view _ = err too_short

module _ (w : Wire) where
  unfoldable pub parse_inbound_icmp_packet : Bytes → Result InboundIcmpPacket IcmpError
  unfolding of_payload
  parse_inbound_icmp_packet packet = do
    view ← ok_or not_ipv4 (w.parse_ipv4 packet)
    guard (view.next_header == icmp_protocol) not_icmp
    of_payload view view.payload

  -- The original identifier is only logged.
  unfoldable pub rewrite_icmp_echo_request : ℕ → Bytes → Result Bytes IcmpError
  rewrite_icmp_echo_request proxy_ident payload = do
    guard (w.is_icmp payload) invalid_icmp
    ok (
        if w.msg_type payload == echo_request
        then w.fill_checksum (w.set_echo_ident proxy_ident payload)
        else payload)

  abbrev pub original_or : Option ℕ → ℕ → ℕ
  original_or none proxy_ident = proxy_ident
  original_or (some ident) proxy_ident = ident

  unfoldable pub rewrite_icmp_echo_reply : Option ℕ → ℕ → Bytes → Result Bytes IcmpError
  rewrite_icmp_echo_reply original_ident proxy_ident payload = do
    guard (w.is_icmp payload) invalid_icmp
    (if not (w.msg_type payload == echo_reply)
        then ok payload
        else if w.echo_ident payload == proxy_ident
        then ok
            (w.fill_checksum (w.set_echo_ident (original_or original_ident proxy_ident) payload))
        else err ident_mismatch)

  -- `forward_icmp_request`: the payload that is sent, by how many bytes the send takes, if any.
  unfoldable pub forward_icmp_request : ℕ → Bytes → Option ℕ → Result Bytes IcmpError
  unfolding rewrite_icmp_echo_request
  forward_icmp_request proxy_ident packet taken = do
    view ← ok_or not_ipv4 (w.parse_ipv4 packet)
    guard (view.next_header == icmp_protocol) not_icmp
    payload ← rewrite_icmp_echo_request proxy_ident view.payload
    sent ← ok_or write_failed taken
    guard (sent == length payload) short_write
    ok payload

  -- The hop limit and the ICMP message of a reply: those of the IPv4 packet that it is, or the default
  -- and the whole of it.
  abbrev pub bare : Bytes → ℕ × Bytes
  bare reply = (64, reply)

  abbrev pub reply_parts : Bytes → Option Ipv4View → ℕ × Bytes
  reply_parts reply none = bare reply
  reply_parts reply (some view) =
      if view.next_header == icmp_protocol then (view.hop_limit, view.payload) else bare reply

  unfoldable pub build_icmp_reply_packet :
      Ipv4Addr → Ipv4Addr → Bytes → Option ℕ → ℕ → Result Bytes IcmpError
  unfolding rewrite_icmp_echo_reply
  build_icmp_reply_packet client target reply original_ident proxy_ident = do
    let parts = reply_parts reply (w.parse_ipv4 reply)
    payload ← rewrite_icmp_echo_reply original_ident proxy_ident parts.1
    ok (
        w.emit_ipv4 (record {
          src_addr = target;
          dst_addr = client;
          next_header = icmp_protocol;
          hop_limit = parts.0;
          payload = payload;
        }))

  abbrev pub inbound_icmp :
      IpFilters → Table IcmpKey → Result InboundIcmpPacket IcmpError → Table IcmpKey
  inbound_icmp filters t (err e) = t
  inbound_icmp filters t (ok inbound) =
      if is_allowed filters (v4 (inbound.key).client) (v4 (inbound.key).target)
      then take_channel t inbound.key
      else t

  -- The body of the loop of `handle_inbound_icmp`, up to the send on the channel, behind a receive.
  unfoldable pub handle_inbound_icmp : IpFilters → Table IcmpKey → Bytes → Table IcmpKey
  unfolding parse_inbound_icmp_packet
  handle_inbound_icmp filters t packet = inbound_icmp filters t (parse_inbound_icmp_packet packet)

-- The counter NEXT_ICMP_PROXY_IDENT: the identifier, and the counter behind it.
unfoldable pub next_icmp_proxy_ident : ℕ → ℕ × ℕ
next_icmp_proxy_ident n = (n, (n + 1) % 2 ^ 16)

abbrev pub first_proxy_ident : ℕ
first_proxy_ident = 0x4000
