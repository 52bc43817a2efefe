-- ===== src/Connection/Tunnel.antt =====
-- What the client's loop, `client_transport_io_task` of src/transport/mod.rs, carries.
use easynet.Prelude.{
  Bool-cases, inl, inr, ltb, ◌&&◌, true, false, none, some, List, [], ◌∷◌, Delivers, Delivers-start,
  Delivers-ended, Delivers-next,
}
use easynet.Message.{Bytes, Message, handshake, payload, keepalive, disconnect}
use easynet.Connection.{
  ClientEvent, message, failed, ended, tun_packet, tun_ended, ticked, Link, client_turn,
  client_transport_io_task,
}

-- The packets that the server's data messages held, and those that the TUN task handed over.
abbrev pub arrived : List ClientEvent → List Bytes
arrived [] = []
arrived (message (some (payload packet)) taken ∷ es) = packet ∷ arrived es
arrived (_ ∷ es) = arrived es

abbrev pub handed : List ClientEvent → List Bytes
handed [] = []
handed (tun_packet packet send_ok ∷ es) = packet ∷ handed es
handed (_ ∷ es) = handed es

-- The packets in the data messages sent.
abbrev pub carried : List Message → List Bytes
carried [] = []
carried (m ∷ ms) = elim m.msg [ some (payload packet) ↦ packet ∷ carried ms | _ ↦ carried ms ]

abbrev pub CarriesAll : List ClientEvent → Link → Type 0
CarriesAll es link =
    Delivers link.forwarded (arrived es) link.error
    × Delivers (carried link.sent) (handed es) link.error

client_turn-CarriesAll :
    (e : ClientEvent) (es : List ClientEvent) (rest : Link)
    → CarriesAll es rest
    → CarriesAll (e ∷ es) (client_turn e rest)
client_turn-CarriesAll (message (some (payload packet)) r) es rest h = elim (Bool-cases r.taken) [
  | inl taken ↦ rw taken (Delivers-next packet _ _ _ h.0, h.1)
  | inr refused ↦ rw refused (Delivers-ended _ _, Delivers-ended _ _)
]
client_turn-CarriesAll (message (some (keepalive timestamp)) r) es rest h =
    elim (Bool-cases (r.overflow_checks && ltb r.now timestamp)) [
      | inl panics ↦ rw panics (Delivers-ended _ _, Delivers-ended _ _)
      | inr goes_on ↦ rw goes_on h
    ]
client_turn-CarriesAll (message (some (disconnect reason)) taken) es rest h =
    (Delivers-ended _ _, Delivers-ended _ _)
client_turn-CarriesAll (message (some (handshake s)) taken) es rest h = h
client_turn-CarriesAll (message none taken) es rest h = h
client_turn-CarriesAll failed es rest h = (Delivers-ended _ _, Delivers-ended _ _)
client_turn-CarriesAll ended es rest h = (Delivers-ended _ _, Delivers-ended _ _)
client_turn-CarriesAll (tun_packet packet true) es rest h = (h.0, Delivers-next packet _ _ _ h.1)
client_turn-CarriesAll (tun_packet packet false) es rest h =
    (Delivers-ended _ _, Delivers-ended _ _)
client_turn-CarriesAll tun_ended es rest h = (Delivers-ended _ _, Delivers-ended _ _)
client_turn-CarriesAll (ticked timestamp true) es rest h = h
client_turn-CarriesAll (ticked timestamp false) es rest h = (Delivers-ended _ _, Delivers-ended _ _)

-- Over a run of the client's loop, the packets of the server's data messages go to the TUN task and
-- the packets of the TUN task go to the server as data messages, each once and in order: all of
-- them, or, if an error or a panic ended the run, the first of them.
pub client_transport_io_task-CarriesAll :
    (es : List ClientEvent) → CarriesAll es (client_transport_io_task es)
unfolding client_transport_io_task
client_transport_io_task-CarriesAll [] = (Delivers-start, Delivers-start)
client_transport_io_task-CarriesAll (e ∷ es) =
    client_turn-CarriesAll e es (client_transport_io_task es)
      (client_transport_io_task-CarriesAll es)
