-- ===== src/Server/Packets.antt =====
-- Packets to and from the clients: `get_destination_ip`, `handle_tun_packet`, `send_to_client`,
-- `handle_data` and `handle_keepalive` of src/server.rs.
use easynet.Prelude.{
  ℕ, zero, suc, ◌/◌, ◌^◌, ◌≡◌, refl, ◌↔◌, Bool, Option, none, some, List, [], ◌∷◌, ◌++◌, arith,
  if◌then◌else◌, length, find, drop, ltb, ◌==◌, not, ap, length-append, drop_exact,
}
use easynet.Text.{Text}
use easynet.Net.{Ipv4Addr, octets, SocketAddr, ipv4_eq}
use easynet.Message.{Bytes, Message, data_message, keepalive_message}
use easynet.Server.{Client, ServerState}

address_of : Bytes → Option Ipv4Addr
address_of (a ∷ b ∷ c ∷ d ∷ rest) = some (octets a b c d)
address_of _ = none

unfoldable pub get_destination_ip : Bytes → Option Ipv4Addr
unfolding address_of
get_destination_ip [] = none
get_destination_ip (version_ihl ∷ rest) =
    if ltb (length (version_ihl ∷ rest)) 20
    then none
    else if not (version_ihl / 2 ^ 4 == 4)
    then none
    else address_of (drop 15 rest)

abbrev pub of_entry : Option (Text × Client) → Option Client
of_entry none = none
of_entry (some (id, client)) = some client

abbrev pub has_address : Ipv4Addr → Text × Client → Bool
has_address ip (id, client) = ipv4_eq client.virtual_ip ip

-- `sessions_map.values().find(|c| c.virtual_ip == dest_ip)`.
unfoldable pub client_at : ServerState → Ipv4Addr → Option Client
client_at s ip = of_entry (find (has_address ip) s.sessions)

abbrev to_channel : Option Client → Bytes → Option (ℕ × Bytes)
to_channel none packet = none
to_channel (some client) packet = some (client.tx, packet)

abbrev if_address : ServerState → Option Ipv4Addr → Bytes → Option (ℕ × Bytes)
if_address s none packet = none
if_address s (some ip) packet = to_channel (client_at s ip) packet

-- The body of the loop of `handle_tun_packet`: the channel that the packet is sent to.
unfoldable pub handle_tun_packet : ServerState → Bytes → Option (ℕ × Bytes)
unfolding client_at get_destination_ip
handle_tun_packet s packet = if_address s (get_destination_ip packet) packet

abbrev to_peer : Option Client → Bytes → List (SocketAddr × Message)
to_peer none packet = []
to_peer (some client) packet = (client.addr, data_message packet) ∷ []

-- The message that `send_to_client` sends.
unfoldable pub send_to_client : ServerState → Bytes → Ipv4Addr → List (SocketAddr × Message)
unfolding client_at
send_to_client s packet ip = to_peer (client_at s ip) packet

-- What `handle_data` hands to the TUN task: the packet, if the channel takes it. A failure is only
-- logged.
abbrev pub handle_data : Bool → Bytes → List Bytes
handle_data taken packet = if taken then packet ∷ [] else []

-- The reply of `handle_keepalive`, which repeats the timestamp.
abbrev pub handle_keepalive : SocketAddr → ℕ → List (SocketAddr × Message)
handle_keepalive src timestamp = (src, keepalive_message timestamp) ∷ []

-- A packet with this destination: version 4 in the first four bits, and the address in the four
-- bytes from the seventeenth on.
pub record IsPacketTo (ip : Ipv4Addr) (packet : Bytes) : Type 0 where
  pub first : ℕ
  pub middle : Bytes
  pub rest : Bytes
  pub layout : packet ≡ first ∷ (middle ++ ip.a ∷ ip.b ∷ ip.c ∷ ip.d ∷ rest)
  pub offset : length middle ≡ 15
  pub version : first / 2 ^ 4 ≡ 4

-- The bytes in front of an address found at an offset.
address_of_sound :
    (n : ℕ) (l : Bytes) (ip : Ipv4Addr)
    → address_of (drop n l) ≡ some ip
    → (front : Bytes) × (rest : Bytes) × (l ≡ front ++ ip.a ∷ ip.b ∷ ip.c ∷ ip.d ∷ rest)
      × (length front ≡ n)
unfolding address_of
address_of_sound zero [] ip h = cc
address_of_sound zero (a ∷ []) ip h = cc
address_of_sound zero (a ∷ b ∷ []) ip h = cc
address_of_sound zero (a ∷ b ∷ c ∷ []) ip h = cc
address_of_sound zero (a ∷ b ∷ c ∷ d ∷ rest) ip h = ([], rest, ground arith, refl)
address_of_sound (suc n) [] ip h = cc
address_of_sound (suc n) (x ∷ l) ip h =
    let (front, rest, layout, offset) = address_of_sound n l ip h in
    (x ∷ front, rest, ap (λ t. x ∷ t) layout, ap suc offset)

address_of_complete :
    (front rest : Bytes) (a b c d : ℕ)
    → address_of (drop (length front) (front ++ a ∷ b ∷ c ∷ d ∷ rest)) ≡ some (octets a b c d)
unfolding address_of
address_of_complete front rest a b c d = rw (drop_exact front (a ∷ b ∷ c ∷ d ∷ rest))

get_destination_ip_sound :
    (packet : Bytes) (ip : Ipv4Addr) → get_destination_ip packet ≡ some ip → IsPacketTo ip packet
unfolding get_destination_ip
get_destination_ip_sound [] ip h = cc
get_destination_ip_sound (v ∷ l) ip h =
    let at : address_of (drop 15 l) ≡ some ip = ground arith in
    let (front, rest, layout, offset) = address_of_sound 15 l ip at in
    record {
      first = v;
      middle = front;
      rest = rest;
      layout = ap (λ t. v ∷ t) layout;
      offset = offset;
      version = ground arith;
    }

get_destination_ip_complete :
    (packet : Bytes) (ip : Ipv4Addr) → IsPacketTo ip packet → get_destination_ip packet ≡ some ip
unfolding get_destination_ip
get_destination_ip_complete packet ip p = rw p.layout (
    ground (
      arith,
      length-append p.middle (ip.a ∷ ip.b ∷ ip.c ∷ ip.d ∷ p.rest),
      rw p.offset at (address_of_complete p.middle p.rest ip.a ip.b ip.c ip.d),
    ))

-- A destination is read from exactly the packets that have it as an IPv4 header says.
pub get_destination_ip_iff :
    (packet : Bytes) (ip : Ipv4Addr) → (get_destination_ip packet ≡ some ip) ↔ IsPacketTo ip packet
get_destination_ip_iff packet ip =
    (get_destination_ip_sound packet ip, get_destination_ip_complete packet ip)
