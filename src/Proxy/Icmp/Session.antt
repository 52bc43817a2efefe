-- ===== src/Proxy/Icmp/Session.antt =====
-- `handle_icmp_session` of src/transparent_proxy/icmp_proxy.rs.
use easynet.Prelude.{ℕ, Bool, Option, none, some, List, [], ◌∷◌, Result, ok, err, if◌then◌else◌}
use easynet.Message.{Bytes}
use easynet.Net.{Ipv4Addr, IpAddr}
use easynet.Proxy.{UpstreamServer, translate_ipv4}
use easynet.Proxy.Icmp.Smoltcp.{Wire}
use easynet.Proxy.Icmp.{
  IcmpKey, IcmpError, tun_send_failed, socket_failed, forward_icmp_request, build_icmp_reply_packet,
}

-- A turn of a session: a packet of the client with what its send takes, the end of the channel, a
-- reply of the target and whether the TUN stack takes it, the end of the replies, and 60 seconds
-- without any of these.
pub data IcmpEvent : Type 0 where
  requested : Bytes → Option ℕ → IcmpEvent
  channel_closed : IcmpEvent
  replied : Bytes → Bool → IcmpEvent
  replies_ended : IcmpEvent
  idle : IcmpEvent

pub data Ending : Type 0 where
  no_ipv4_upstream : IpAddr → Ending
  finished : Ending
  failed : IcmpError → Ending

-- The payloads to the target, the packets to the client, and how the session ended, if it did.
pub record IcmpSession : Type 0 where
  pub outbound : List Bytes
  pub inbound : List Bytes
  pub ending : Option Ending

abbrev pub ends : Ending → IcmpSession
ends e = record { outbound = []; inbound = []; ending = some e }

abbrev pub after_request : Result Bytes IcmpError → IcmpSession → IcmpSession
after_request (ok payload) rest = record rest { outbound = payload ∷ rest.outbound }
after_request (err e) rest = ends (failed e)

abbrev pub after_reply : Result Bytes IcmpError → Bool → IcmpSession → IcmpSession
after_reply (ok packet) taken rest =
    if taken then record rest { inbound = packet ∷ rest.inbound } else ends (failed tun_send_failed)
after_reply (err e) taken rest = ends (failed e)

module _ (w : Wire) (key : IcmpKey) (proxy_ident : ℕ) where
  abbrev pub icmp_turn : IcmpEvent → IcmpSession → IcmpSession
  icmp_turn (requested packet taken) rest =
      after_request (forward_icmp_request w proxy_ident packet taken) rest
  icmp_turn channel_closed rest = ends finished
  icmp_turn (replied reply taken) rest =
      after_reply (build_icmp_reply_packet w key.client key.target reply key.identifier proxy_ident)
        taken rest
  icmp_turn replies_ended rest = ends finished
  icmp_turn idle rest = ends finished

  unfoldable pub icmp_loop : List IcmpEvent → IcmpSession
  unfolding forward_icmp_request build_icmp_reply_packet
  icmp_loop [] = record { outbound = []; inbound = []; ending = none }
  icmp_loop (e ∷ es) = let rest = icmp_loop es in icmp_turn e rest

  abbrev for_target : Result Ipv4Addr IpAddr → Bool → List IcmpEvent → IcmpSession
  for_target (err ip) bound es = ends (no_ipv4_upstream ip)
  for_target (ok outbound_target) bound es =
      if bound then icmp_loop es else ends (failed socket_failed)

  -- The session from its start: `bound` is the outcome of `new_icmp_socket`.
  unfoldable pub handle_icmp_session : UpstreamServer → Bool → List IcmpEvent → IcmpSession
  unfolding icmp_loop translate_ipv4
  handle_icmp_session upstream bound es = for_target (translate_ipv4 upstream key.target) bound es
