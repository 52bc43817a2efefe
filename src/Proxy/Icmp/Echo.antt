-- ===== src/Proxy/Icmp/Echo.antt =====
-- The identifiers of echo messages on their way through src/transparent_proxy/icmp_proxy.rs.
use easynet.Prelude.{
  ℕ, ◌^◌, ◌≤◌, ◌<◌, ◌≡◌, refl, ◌∙◌, true, none, some, [], ◌∷◌, ◌==◌, length, ok, arith, ==_iff,
  Bool-cases, Option-cases, inl, inr,
}
use easynet.Message.{Bytes}
use easynet.Net.{Ipv4Addr}
use easynet.Proxy.Icmp.Smoltcp.{
  Ipv4View, Wire, IsEchoLayout, IsLawful, icmp_protocol, echo_request, echo_reply,
}
use easynet.Proxy.Icmp.{
  InboundIcmpPacket, parse_inbound_icmp_packet, of_payload, extract_icmp_identifier, IcmpKey,
  rewrite_icmp_echo_request, rewrite_icmp_echo_reply, forward_icmp_request, reply_parts,
  build_icmp_reply_packet,
}
use easynet.Proxy.Icmp.Session.{requested, replied, icmp_loop}

module _ (w : Wire) where
  -- An echo request in an IPv4 packet, as the crate reads it.
  pub record IsEchoRequest (packet : Bytes) (view : Ipv4View) : Type 0 where
    pub parsed : w.parse_ipv4 packet ≡ some view
    pub is_icmp_packet : view.next_header ≡ icmp_protocol
    pub checked : w.is_icmp view.payload ≡ true
    pub request : w.msg_type view.payload ≡ echo_request
    pub is_u16 : w.echo_ident view.payload < 2 ^ 16

  -- What a raw socket reads of an echo reply with the identifier: an IPv4 packet, or the message.
  pub record IsEchoReply (ident : ℕ) (reply : Bytes) : Type 0 where
    pub checked : w.is_icmp (reply_parts w reply (w.parse_ipv4 reply)).1 ≡ true
    pub is_reply : w.msg_type (reply_parts w reply (w.parse_ipv4 reply)).1 ≡ echo_reply
    pub same_ident : w.echo_ident (reply_parts w reply (w.parse_ipv4 reply)).1 ≡ ident
    pub fits : length (reply_parts w reply (w.parse_ipv4 reply)).1 ≤ 9000

  -- The request as it leaves the proxy.
  abbrev pub translated : ℕ → Bytes → Bytes
  translated proxy_ident payload = w.fill_checksum (w.set_echo_ident proxy_ident payload)

  forward_echo :
      (proxy_ident : ℕ) (packet : Bytes) (view : Ipv4View)
      → IsEchoRequest packet view
      → forward_icmp_request w proxy_ident packet
          (some (length (translated proxy_ident view.payload)))
        ≡ ok (translated proxy_ident view.payload)
  unfolding forward_icmp_request rewrite_icmp_echo_request
  forward_echo proxy_ident packet view r = rw (
    r.parsed,
    r.is_icmp_packet,
    r.checked,
    r.request,
    (==_iff (length (translated proxy_ident view.payload)) _).1 refl,
  )

  -- The session that an echo request of a client belongs to.
  abbrev key_of : Ipv4View → ℕ → IcmpKey
  key_of view code = record {
    client = view.src_addr;
    target = view.dst_addr;
    kind = echo_request;
    code = code;
    identifier = some (w.echo_ident view.payload);
  }

  parse_echo :
      (packet : Bytes) (view : Ipv4View)
      → IsEchoRequest packet view
      → (echo : IsEchoLayout w view.payload)
      → parse_inbound_icmp_packet w packet
        ≡ ok (record { key = key_of view echo.code; icmp_payload = view.payload })
  unfolding parse_inbound_icmp_packet of_payload extract_icmp_identifier
  parse_echo packet view r echo = rw (r.parsed, r.is_icmp_packet, echo.ident, echo.layout) refl

  -- The packet that a client gets of an echo reply to its own request.
  abbrev pub restored : Ipv4Addr → Ipv4Addr → ℕ → Bytes → Bytes
  restored client target ident reply = w.emit_ipv4 (record {
    src_addr = target;
    dst_addr = client;
    next_header = icmp_protocol;
    hop_limit = (reply_parts w reply (w.parse_ipv4 reply)).0;
    payload = w.fill_checksum (w.set_echo_ident ident (reply_parts w reply (w.parse_ipv4 reply)).1);
  })

  reply_own :
      (client target : Ipv4Addr) (ident proxy_ident : ℕ) (reply : Bytes)
      → IsEchoReply proxy_ident reply
      → build_icmp_reply_packet w client target reply (some ident) proxy_ident
        ≡ ok (restored client target ident reply)
  unfolding build_icmp_reply_packet rewrite_icmp_echo_reply
  reply_own client target ident proxy_ident reply r =
      rw (r.checked, r.is_reply, r.same_ident, (==_iff proxy_ident proxy_ident).1 refl)

  -- What the client's stack sees: an echo reply from the address that its request went to, to the one
  -- that it came from, with the identifier of the request.
  pub record ReachesClient (asked : Ipv4View) (packet : Bytes) : Type 0 where
    pub view : Ipv4View
    pub parsed : w.parse_ipv4 packet ≡ some view
    pub from_target : view.src_addr ≡ asked.dst_addr
    pub to_client : view.dst_addr ≡ asked.src_addr
    pub is_reply : w.msg_type view.payload ≡ echo_reply
    pub own_ident : w.echo_ident view.payload ≡ w.echo_ident asked.payload

  module _ (lawful : IsLawful w) where
    hop_limit_small : (reply : Bytes) → (reply_parts w reply (w.parse_ipv4 reply)).0 < 256
    hop_limit_small reply = elim (Option-cases (w.parse_ipv4 reply)) [
      | inl bare_reply ↦ rw bare_reply (omega arith)
      | inr (view, parsed) ↦ elim (Bool-cases (view.next_header == icmp_protocol)) [
        | inl icmp ↦ rw (parsed, icmp) (lawful.hop_limit-lt reply view parsed)
        | inr else_kind ↦ rw (parsed, else_kind) (omega arith)
      ]
    ]

    set_fits :
        (ident : ℕ) (p : Bytes)
        → w.is_icmp p ≡ true
        → length p ≤ 9000
        → length (translated ident p) ≤ 65515
    set_fits ident p checked fits = omega (
      arith,
      lawful.length-set ident p checked,
      lawful.length-fill (w.set_echo_ident ident p) (lawful.is_icmp-set ident p checked),
    )

    translated_ident :
        (ident : ℕ) (p : Bytes)
        → w.is_icmp p ≡ true
        → ident < 2 ^ 16
        → w.echo_ident (translated ident p) ≡ ident
    translated_ident ident p checked small =
        lawful.echo_ident-fill (w.set_echo_ident ident p) (lawful.is_icmp-set ident p checked)
        ∙ lawful.echo_ident-set ident p checked small

    translated_type :
        (ident : ℕ) (p : Bytes)
        → w.is_icmp p ≡ true
        → w.msg_type (translated ident p) ≡ w.msg_type p
    translated_type ident p checked =
        lawful.msg_type-fill (w.set_echo_ident ident p) (lawful.is_icmp-set ident p checked)
        ∙ lawful.msg_type-set ident p checked

    restored-ReachesClient :
        (asked : Ipv4View) (proxy_ident : ℕ) (reply : Bytes)
        → w.echo_ident asked.payload < 2 ^ 16
        → IsEchoReply proxy_ident reply
        → ReachesClient asked
            (restored asked.src_addr asked.dst_addr (w.echo_ident asked.payload) reply)
    restored-ReachesClient asked proxy_ident reply small r = record {
      view = _;
      parsed =
          lawful.parse-emit _ refl (hop_limit_small reply)
            (set_fits (w.echo_ident asked.payload) _ r.checked r.fits);
      from_target = refl;
      to_client = refl;
      is_reply = translated_type (w.echo_ident asked.payload) _ r.checked ∙ r.is_reply;
      own_ident = translated_ident (w.echo_ident asked.payload) _ r.checked small;
    }

    -- An echo request of a client, whose session is the one that its own packet names, leaves the proxy
    -- as an echo request with the proxy's identifier, and a reply to that identifier, as a message
    -- alone or inside an IPv4 packet, reaches the client as an echo reply from the address that the
    -- request went to, to the address it came from, with the identifier that the request had.
    pub echo_comes_back :
        (packet : Bytes) (asked : Ipv4View) (proxy_ident : ℕ) (reply : Bytes)
        → proxy_ident < 2 ^ 16
        → IsEchoRequest packet asked
        → IsEchoReply proxy_ident reply
        → (inbound : InboundIcmpPacket) × (sent : Bytes) × (back : Bytes)
          × (parse_inbound_icmp_packet w packet ≡ ok inbound)
          × (icmp_loop w inbound.key proxy_ident
                (requested packet (some (length sent)) ∷ replied reply true ∷ [])
              ≡ record { outbound = sent ∷ []; inbound = back ∷ []; ending = none })
          × (w.msg_type sent ≡ echo_request)
          × (w.echo_ident sent ≡ proxy_ident)
          × ReachesClient asked back
    unfolding icmp_loop
    echo_comes_back packet asked proxy_ident reply small r s =
        let echo = lawful.echo_layout asked.payload r.checked r.request in
        let ident = w.echo_ident asked.payload in
        (
          record { key = key_of asked echo.code; icmp_payload = asked.payload },
          translated proxy_ident asked.payload,
          restored asked.src_addr asked.dst_addr ident reply,
          parse_echo packet asked r echo,
          rw
              (
                forward_echo proxy_ident packet asked r,
                reply_own asked.src_addr asked.dst_addr ident proxy_ident reply s,
              )
              refl,
          translated_type proxy_ident asked.payload r.checked ∙ r.request,
          translated_ident proxy_ident asked.payload r.checked small,
          restored-ReachesClient asked proxy_ident reply r.is_u16 s,
        )
