-- ===== src/Server/Tests.antt =====
-- The theorems on the server at concrete handshakes, packets and runs.
use easynet.Prelude.{
  inl, ◌+◌, ◌<◌, ◌≤◌, ◌≡◌, refl, ◌↔◌, ◌≢◌, true, false, Option, some, none, List, [], ◌∷◌, arith,
  All, inr, ap,
}
use easynet.Text.{Text, codes, text_eq, text_eq_iff}
use easynet.Assoc
use easynet.Assoc.{get}
use easynet.Net.{socket_addr, octets, v4, SocketAddr}
use easynet.Message.{data_message, Bytes, MessageType, payload, keepalive}
use easynet.Server.{
  Client, ServerState, ServerConfig, Surroundings, initial, text_key, handle_handshake,
  build_tun_config,
}
use easynet.Server.Delivery.{tun_packet_reaches}
use easynet.Server.Packets.{handle_tun_packet, send_to_client, get_destination_ip}
use easynet.Server.Lifetime.{
  cleanup_expired_sessions, after_messages, session_timeout, Holds, cleanup_iff,
  traffic_does_not_keep,
}
use easynet.Server.Addresses.{DistinctAddresses, GivenOut}
use easynet.Server.Interleaved
use easynet.Server.Interleaved.{Handlers, choose}
use easynet.Server.Interleaved.Moves.{MayStore, AllAgree}
use easynet.Server.Interleaved.Sound.{Reachable-AllAgree}
use easynet.Server.Collision.{new_session_collides}
use easynet.Server.Runs.{Reachable, starts, goes_on, handshakes, cleans_up}

abbrev config : ServerConfig
config = record {
  tun_name = codes "easynet";
  tun_netmask = v4 (octets 255 255 255 0);
  tun_destination = v4 (octets 10 0 0 1);
  tun_dns_servers = [];
  tun_mtu = 1500;
  token = codes "secret";
}

abbrev around : Surroundings
around = record {
  config = some config;
  show_v6 = λ n. [];
  fresh_id = codes "b";
  now = 1000;
  send_ok = true;
  forward_ok = true;
}

abbrev peer : SocketAddr
peer = socket_addr (v4 (octets 192 0 2 7)) 4000

abbrev old_client : Client
old_client = record {
  addr = socket_addr (v4 (octets 192 0 2 9)) 4001;
  virtual_ip = octets 10 0 0 2;
  tx = 1;
  tun_config = build_tun_config (λ n. []) config (octets 10 0 0 2);
  last_seen = 500;
}

-- One session, under the id "a".
abbrev one : ServerState
one = record { next_client_id = 3; sessions = (codes "a", old_client) ∷ [] }

-- The header of a packet to 10.0.0.2.
abbrev packet : Bytes
packet = 69 ∷ 0 ∷ 0 ∷ 20 ∷ 0 ∷ 0 ∷ 0 ∷ 0 ∷ 64 ∷ 17 ∷ 0 ∷ 0 ∷ 192 ∷ 0 ∷ 2 ∷ 7 ∷ 10 ∷ 0 ∷ 0 ∷ 2 ∷ []

packet_destination : get_destination_ip packet ≡ some (octets 10 0 0 2)
unfolding get_destination_ip
packet_destination = refl

tun_packet_reaches_example :
    (handle_tun_packet one packet ≡ some (1, packet))
    × (send_to_client one packet (octets 10 0 0 2) ≡ (old_client.addr, data_message packet) ∷ [])
tun_packet_reaches_example =
    tun_packet_reaches one packet (codes "a") old_client (tt, tt) (inl refl) packet_destination

cleanup_iff_example :
    Holds (codes "a") old_client (cleanup_expired_sessions one 900).sessions
    ↔ ((500 ≤ 900) × (900 < 500 + session_timeout) × Holds (codes "a") old_client one.sessions)
cleanup_iff_example = cleanup_iff one 900 (codes "a") old_client

-- A client that stays in contact.
abbrev contact : List (Surroundings × Option MessageType)
contact = (around, some (keepalive 7)) ∷ (around, some (payload packet)) ∷ []

one_is_old :
    (client : Client)
    → Holds (codes "a") client one.sessions
    → client.last_seen + session_timeout ≤ 3600500
one_is_old client (inl same) =
    let e = ap (λ (p : Text × Client). (p.1).last_seen) same in omega (arith, e)
one_is_old client (inr later) = elim later [ ]

traffic_does_not_keep_example :
    ¬ Holds
      (codes "a")
      old_client
      (cleanup_expired_sessions (after_messages one peer peer 1 contact) 3600500).sessions
traffic_does_not_keep_example =
    traffic_does_not_keep one peer peer 1 contact 3600500 (codes "a") (tt, (tt, tt)) one_is_old
      old_client

-- Two clients arrive, and a round of the cleanup follows.
abbrev first : ServerState
first = (handle_handshake around initial peer 1 none none).state

abbrev second : ServerState
second = (handle_handshake (record around { fresh_id = codes "c" }) first peer 2 none none).state

two_arrive : Reachable 3 (cleanup_expired_sessions second 2000)
two_arrive =
    goes_on 2 second (cleanup_expired_sessions second 2000)
      (goes_on 1 first second
        (goes_on 0 initial first starts (handshakes around initial peer 1 none none))
        (handshakes (record around { fresh_id = codes "c" }) first peer 2 none none))
      (cleans_up second 2000)

-- The session under "a" got its address from 2, and the counter has come to 258.
abbrev gone_round : ServerState
gone_round = record one { next_client_id = 258 }

fresh_differs : codes "b" ≢ codes "a"
unfolding text_eq
fresh_differs e = let clash : false ≡ true = (text_eq_iff (codes "b") (codes "a")).1 e in cc

new_session_collides_example :
    let m = ((handle_handshake around gone_round peer 2 none none).state).sessions in
    (get (codes "a") m ≡ some old_client)
    × ((c : Client) × (get (codes "b") m ≡ some c) × (c.virtual_ip ≡ old_client.virtual_ip))
    × (¬ DistinctAddresses m)
unfolding Assoc.get text_eq
new_session_collides_example =
    new_session_collides around config gone_round peer 2 none none (codes "a") old_client 2 refl
      refl refl tt refl refl refl fresh_differs

-- Two peers shake hands at once, and the first to come is stored last.
abbrev second_peer : SocketAddr
second_peer = socket_addr (v4 (octets 192 0 2 8)) 4001

abbrev both_wait : Handlers
both_wait =
    choose (choose (record { state = initial; waiting = [] }) around config peer 1 none) around
      config second_peer 2 none

both_Reachable : Interleaved.Reachable 2 both_wait
both_Reachable =
    Interleaved.goes_on 1 _ _
      (Interleaved.goes_on 0 _ _ Interleaved.starts
        (Interleaved.chooses _ around config peer 1 none none refl))
      (Interleaved.chooses _ around config second_peer 2 none none refl)

Reachable-AllAgree_example :
    DistinctAddresses (both_wait.state).sessions
    × All (GivenOut (both_wait.state).next_client_id) (both_wait.state).sessions
    × ((both_wait.state).next_client_id ≤ 256)
    × All (MayStore both_wait.state) both_wait.waiting
    × AllAgree both_wait.waiting
Reachable-AllAgree_example = Reachable-AllAgree 2 both_wait both_Reachable (omega arith)
