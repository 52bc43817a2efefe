-- ===== src/Proxy/Tcp/Tests.antt =====
-- The relays of TCP connections at a concrete connection.
use easynet.Prelude.{refl, none, some, [], Picks, here}
use easynet.Net.{socket_addr, octets, v4, SocketAddr}
use easynet.Proxy.{UpstreamServer, translate_socket}
use easynet.Net
use easynet.Filter.{with_non_broadcast, non_broadcast, is_allowed}
use easynet.Proxy.Tcp
use easynet.Proxy.Tcp.{
  Inbound, Relay, Relays, no_relays, handle_inbound_stream, begin_relay, end_relay, connect_failed,
}
use easynet.Proxy.Tcp.Counted.{Counted, Reach-Counted}
use easynet.Proxy.Udp.{udp_key}

abbrev web : Inbound
web = record {
  peer_addr = socket_addr (v4 (octets 10 0 0 2)) 40000;
  local_addr = socket_addr (v4 (octets 93 184 215 14)) 443;
}

abbrev no_upstream : UpstreamServer
no_upstream = record { ip = none }

abbrev one_relay : Relays
one_relay =
    begin_relay with_non_broadcast no_upstream
      (handle_inbound_stream with_non_broadcast no_upstream no_relays (some web)) web []

waits_Picks :
    Picks web (handle_inbound_stream with_non_broadcast no_upstream no_relays (some web)).spawned []
unfolding handle_inbound_stream is_allowed non_broadcast Net.is_private Net.is_broadcast
    Net.is_multicast Net.is_unspecified
waits_Picks = here []

one_relay-Reach : Tcp.Reach with_non_broadcast no_upstream one_relay
one_relay-Reach =
    Tcp.later (Tcp.later Tcp.start (Tcp.accepts no_relays (some web) refl))
      (Tcp.begins _ web [] waits_Picks)

abbrev relayed : Relay
relayed = record { inbound = web; outbound_addr = web.local_addr }

runs_Picks : Picks relayed one_relay.running []
unfolding begin_relay handle_inbound_stream translate_socket is_allowed non_broadcast Net.is_private
    Net.is_broadcast Net.is_multicast Net.is_unspecified
runs_Picks = here []

-- The connect of the relay fails.
abbrev given_up : Relays
given_up = end_relay with_non_broadcast no_upstream one_relay connect_failed []

given_up-Reach : Tcp.Reach with_non_broadcast no_upstream given_up
given_up-Reach = Tcp.later one_relay-Reach (Tcp.ends one_relay relayed connect_failed [] runs_Picks)

Reach-Counted_example : Counted with_non_broadcast no_upstream given_up
Reach-Counted_example = Reach-Counted with_non_broadcast no_upstream given_up given_up-Reach
