-- ===== src/Connection/Tests.antt =====
-- The loops of the transports at concrete events.
use easynet.Prelude.{
  ◌≡◌, refl, ap, true, false, Option, some, none, List, [], ◌∷◌, ◌++◌, map, All, Result, ok, err,
  arith, retain,
}
use easynet.Text.{codes}
use easynet.Net.{socket_addr, v4, octets, SocketAddr}
use easynet.Message.{Bytes, Message, Prost, payload, disconnect, keepalive_message}
use easynet.Server.{Surroundings, initial}
use easynet.Connection.{
  Receipt, ClientEvent, message, tun_packet, ticked, client_transport_io_task,
  handle_tcp_connection,
}
use easynet.Codec.{CodecError, Decoded, encode, decode, u32_le}
use easynet.Connection.{read_ended, transport_io_task}
use easynet.Connection.Datagrams.{
  UdpFramed, HandsOn, arrival, Sent, says, has, leaves, serve_udp, inputs_of, events_of, IsEncoded,
}
use easynet.Connection.Oversized.{oversized_datagram_ends}
use easynet.Connection.Unknown.{only_data, unknown_peer_forwards}
use easynet.Connection.Tunnel.{CarriesAll, client_transport_io_task-CarriesAll}

abbrev peer : SocketAddr
peer = socket_addr (v4 (octets 203 0 113 5)) 5555

abbrev around : Surroundings
around = record {
  config = none;
  show_v6 = λ n. [];
  fresh_id = [];
  now = 0;
  send_ok = true;
  forward_ok = true;
}

abbrev packets : List (Surroundings × Bytes)
packets = (around, 69 ∷ []) ∷ (around, 70 ∷ []) ∷ []

unknown_peer_forwards_example :
    ((handle_tcp_connection initial peer 1 (only_data packets)).forwarded
      ≡ map
          (λ (p : Surroundings × Bytes). p.1)
          (retain (λ (p : Surroundings × Bytes). (p.0).forward_ok) packets))
    × ((handle_tcp_connection initial peer 1 (only_data packets)).sent ≡ [])
    × ((handle_tcp_connection initial peer 1 (only_data packets)).state ≡ initial)
unknown_peer_forwards_example = unknown_peer_forwards initial peer 1 packets tt

abbrev receipt : Receipt
receipt = record { taken = true; now = 1000; overflow_checks = true }

abbrev events : List ClientEvent
events =
    tun_packet (1 ∷ []) true
    ∷ message (some (payload (2 ∷ []))) receipt
    ∷ ticked 7 true
    ∷ message (some (disconnect (codes "bye"))) receipt
    ∷ tun_packet (3 ∷ []) true
    ∷ []

client_transport_io_task-CarriesAll_example : CarriesAll events (client_transport_io_task events)
client_transport_io_task-CarriesAll_example = client_transport_io_task-CarriesAll events

-- A toy code for one message.
abbrev prost : Prost
prost = record {
  encode_to_vec = λ m. 1 ∷ [];
  decode = λ bytes. elim bytes [ [] ↦ none | b ∷ bs ↦ some (keepalive_message 7) ];
}

-- What the crate does with a datagram, up to what it leaves of it.
abbrev read :
    Result (Option Message) CodecError
    → SocketAddr
    → List (Result (Message × SocketAddr) CodecError)
read (ok none) src = []
read (ok (some m)) src = ok (m, src) ∷ []
read (err e) src = err e ∷ []

abbrev framed : UdpFramed
framed = record {
  next = λ c src bytes. ((decode prost c bytes).codec, read (decode prost c bytes).result src);
}

framed-HandsOn : HandsOn prost framed
framed-HandsOn = record {
  messages = λ c c' src bytes m h. ap (λ (d : Decoded). (d.codec, read d.result src)) h;
  errors = λ c src bytes e h. ([], ap (λ r. read r src) h);
}

abbrev served : List Sent
served =
    says around peer (keepalive_message 7) (1 ∷ 0 ∷ 0 ∷ 0 ∷ 1 ∷ [])
    ∷ leaves initial
    ∷ has (69 ∷ [])
    ∷ []

served-IsEncoded : All (IsEncoded prost) served
unfolding encode u32_le
served-IsEncoded = ((refl, refl), (tt, (tt, tt)))

oversized_datagram_ends_example :
    (serve_udp framed initial
        (inputs_of served ++ (arrival (λ n. around) peer (0 ∷ 0 ∷ 0 ∷ 255 ∷ []) ∷ inputs_of served))
      ≡ transport_io_task initial (events_of served ++ read_ended ∷ []))
    × ((transport_io_task initial (events_of served ++ read_ended ∷ [])).is_open ≡ false)
oversized_datagram_ends_example =
    oversized_datagram_ends prost framed initial served (λ n. around) peer 0 0 0 255 []
      (inputs_of served) framed-HandsOn served-IsEncoded (omega arith)
