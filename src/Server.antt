-- ===== src/Server.antt =====
-- src/server.rs: the sessions of the server, and what a message, a packet and the passing of time do
-- to them. One handler runs at a time; the reading of the configuration, the clock, the outcome of a
-- send and the random session id are arguments. Times are milliseconds.
pub mod Handshake
pub mod Addresses
pub mod Reachable
pub mod Runs
pub mod Collision
pub mod Interleaved
pub mod Packets
pub mod Delivery
pub mod Lifetime
pub mod Tests
use easynet.Prelude.{
  ℕ, ◌+◌, ◌-◌, ◌*◌, ◌/◌, ◌%◌, ◌^◌, ◌≡◌, refl, Bool, true, false, ◌&&◌, Option, none, some, List, [],
  ◌∷◌, map, ltb, leb, ◌==◌, if◌then◌else◌, is_empty, length, find, retain, drop,
}
use easynet.Text.{Text, text_eq, text_eq_iff}
use easynet.Assoc.{Key, get, insert, remove}
use easynet.Net.{Ipv4Addr, octets, IpAddr, v4, v6, SocketAddr, socket_eq, ipv4_eq, display_ipv4}
use easynet.Message.{Bytes, TunConfig, Message, handshake_message, data_message, keepalive_message}

instance abbrev pub text_key : Key Text
text_key = record { beq = text_eq; beq_iff = text_eq_iff }

-- The sending end `tx` of a client's channel is its number.
pub record Client : Type 0 where
  pub addr : SocketAddr
  pub virtual_ip : Ipv4Addr
  pub tx : ℕ
  pub tun_config : TunConfig
  pub last_seen : ℕ

-- The statics NEXT_CLIENT_ID and SESSIONS.
pub record ServerState : Type 0 where
  pub next_client_id : ℕ
  pub sessions : List (Text × Client)

abbrev pub initial : ServerState
initial = record { next_client_id = 2; sessions = [] }

-- The fields of `ServerConfig` that the sessions use.
pub record ServerConfig : Type 0 where
  pub tun_name : Text
  pub tun_netmask : IpAddr
  pub tun_destination : IpAddr
  pub tun_dns_servers : List IpAddr
  pub tun_mtu : ℕ
  pub token : Text

unfoldable pub validate_token : Text → Text → Bool
unfolding text_eq
validate_token token server_token =
    if is_empty server_token then true else text_eq token server_token

-- Eight bits of the counter go into the address.
abbrev pub client_address : ℕ → Ipv4Addr
client_address id = octets 10 0 0 (id % 256)

unfoldable pub allocate_virtual_ip : ServerState → Ipv4Addr × ServerState
allocate_virtual_ip s =
    (client_address s.next_client_id, record s { next_client_id = (s.next_client_id + 1) % 2 ^ 32 })

-- `Display` of an address, over that of an IPv6 address.
abbrev pub display_ip : (ℕ → Text) → IpAddr → Text
display_ip show_v6 (v4 ip) = display_ipv4 ip
display_ip show_v6 (v6 x) = show_v6 x

unfoldable pub build_tun_config : (ℕ → Text) → ServerConfig → Ipv4Addr → TunConfig
build_tun_config show_v6 config virtual_ip = record {
  name = config.tun_name;
  address = display_ipv4 virtual_ip;
  netmask = display_ip show_v6 config.tun_netmask;
  destination = display_ip show_v6 config.tun_destination;
  dns = map (display_ip show_v6) config.tun_dns_servers;
  mtu = config.tun_mtu % 2 ^ 32;
}

-- The state behind a handler, and the messages that it tried to send.
pub record Outcome : Type 0 where
  pub state : ServerState
  pub sent : List (SocketAddr × Message)

-- What a message is given from outside: of a handshake the configuration, a fresh id, the time and the
-- outcome of the reply, of a packet whether the channel to the TUN task takes it.
pub record Surroundings : Type 0 where
  pub config : Option ServerConfig
  pub show_v6 : ℕ → Text
  pub fresh_id : Text
  pub now : ℕ
  pub send_ok : Bool
  pub forward_ok : Bool

-- The session that a handshake is answered with, and the state once an address is taken.
pub record Choice : Type 0 where
  pub session_id : Text
  pub virtual_ip : Ipv4Addr
  pub tun_config : TunConfig
  pub state : ServerState

unfoldable pub new_session : Surroundings → ServerConfig → ServerState → Choice
unfolding allocate_virtual_ip
new_session w config s =
    let (ip, s') = allocate_virtual_ip s in
    record {
      session_id = w.fresh_id;
      virtual_ip = ip;
      tun_config = build_tun_config w.show_v6 config ip;
      state = s';
    }

abbrev pub known_or_new : Surroundings → ServerConfig → ServerState → Text → Option Client → Choice
known_or_new w config s id none = new_session w config s
known_or_new w config s id (some client) = record {
  session_id = id;
  virtual_ip = client.virtual_ip;
  tun_config = client.tun_config;
  state = s;
}

unfoldable pub choose_session : Surroundings → ServerConfig → ServerState → Option Text → Choice
choose_session w config s none = new_session w config s
choose_session w config s (some id) = known_or_new w config s id (get id s.sessions)

abbrev pub refusal : Message
refusal = handshake_message (record { token = []; session_id = []; tun_config = none })

abbrev pub acceptance : ServerConfig → Choice → Message
acceptance config c =
    handshake_message
      (record { token = config.token; session_id = c.session_id; tun_config = some c.tun_config })

-- The reply is sent, and the session is stored if that went well.
unfoldable pub answer : Surroundings → ServerConfig → SocketAddr → ℕ → Choice → Outcome
answer w config src tx c = record {
  state =
      (if w.send_ok
        then record (c.state) {
          sessions =
              insert c.session_id
                (record {
                  addr = src;
                  virtual_ip = c.virtual_ip;
                  tx = tx;
                  tun_config = c.tun_config;
                  last_seen = w.now;
                })
                (c.state).sessions;
        }
        else c.state);
  sent = (src, acceptance config c) ∷ [];
}

-- No token at all is not checked.
abbrev pub admits : ServerConfig → Option Text → Bool
admits config none = true
admits config (some token) = validate_token token config.token

abbrev pub handshake_with :
    Surroundings
    → Option ServerConfig
    → ServerState
    → SocketAddr
    → ℕ
    → Option Text
    → Option Text
    → Outcome
handshake_with w none s src tx id token = record { state = s; sent = [] }
handshake_with w (some config) s src tx id token =
    if admits config token
    then answer w config src tx (choose_session w config s id)
    else record { state = s; sent = (src, refusal) ∷ [] }

unfoldable pub handle_handshake :
    Surroundings → ServerState → SocketAddr → ℕ → Option Text → Option Text → Outcome
unfolding answer choose_session new_session validate_token
handle_handshake w s src tx id token = handshake_with w w.config s src tx id token

-- The first session at the address, in the order in which the table is walked.
unfoldable pub handle_disconnect : ServerState → SocketAddr → ServerState
handle_disconnect s addr =
    elim (find (λ (e : Text × Client). socket_eq (e.1).addr addr) s.sessions) [
      | none ↦ s
      | some (id, client) ↦ record s { sessions = remove id s.sessions }
    ]
