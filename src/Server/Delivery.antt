-- ===== src/Server/Delivery.antt =====
-- Where `handle_tun_packet` and `send_to_client` of src/server.rs deliver a packet.
use easynet.Prelude.{◌≡◌, ap, sym, some, [], ◌∷◌, subst, find, All, Bool-cases, inl, inr}
use easynet.Text.{Text}
use easynet.Net.{ipv4_eq, ipv4_eq_iff}
use easynet.Message.{Bytes, data_message}
use easynet.Server.{Client, ServerState}
use easynet.Server.Packets.{
  has_address, client_at, get_destination_ip, handle_tun_packet, send_to_client,
}
use easynet.Server.Lifetime.{Holds}
use easynet.Server.Addresses.{Sessions, Apart, DistinctAddresses}

All-Holds :
    (P : Text × Client → Type 0) (id : Text) (c : Client) (m : Sessions)
    → All P m
    → Holds id c m
    → P (id, c)
All-Holds P id c [] h held = elim held [ ]
All-Holds P id c (e ∷ m) h (inl same) = subst P same h.0
All-Holds P id c (e ∷ m) h (inr later) = All-Holds P id c m h.1 later

-- Where no two sessions share an address, the first one with a client's address is that client's.
find-Holds :
    (id : Text) (c : Client) (m : Sessions)
    → DistinctAddresses m
    → Holds id c m
    → find (has_address c.virtual_ip) m ≡ some (id, c)
find-Holds id c [] d held = elim held [ ]
find-Holds id c ((j, w) ∷ m) d (inl same) =
    rw
      ((ipv4_eq_iff w.virtual_ip c.virtual_ip).1
        (ap (λ (e : Text × Client). (e.1).virtual_ip) same))
      (ap some same)
find-Holds id c ((j, w) ∷ m) d (inr later) = elim (Bool-cases (ipv4_eq w.virtual_ip c.virtual_ip)) [
  | inl same ↦ absurd (
      (All-Holds (Apart j w.virtual_ip) id c m d.0 later).1
        (sym ((ipv4_eq_iff w.virtual_ip c.virtual_ip).0 same)))
  | inr other ↦ rw other (find-Holds id c m d.1 later)
]

-- Where no two sessions share an address, a packet to the virtual address of a session's client goes
-- to the channel of that client, and over UDP in one data message to its address.
pub tun_packet_reaches :
    (s : ServerState) (packet : Bytes) (id : Text) (client : Client)
    → DistinctAddresses s.sessions
    → Holds id client s.sessions
    → get_destination_ip packet ≡ some client.virtual_ip
    → (handle_tun_packet s packet ≡ some (client.tx, packet))
      × (send_to_client s packet client.virtual_ip ≡ (client.addr, data_message packet) ∷ [])
unfolding handle_tun_packet send_to_client client_at
tun_packet_reaches s packet id client d held dest =
    (rw (dest, find-Holds id client s.sessions d held), rw (find-Holds id client s.sessions d held))
