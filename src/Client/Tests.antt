-- ===== src/Client/Tests.antt =====
-- The client at a concrete handshake and at concrete attempts.
use easynet.Prelude.{◌≡◌, refl, true, false, some, [], ◌∷◌, ok, err}
use easynet.Text.{codes, to_ascii_lowercase, Unicode}
use easynet.Text
use easynet.Assoc.{get}
use easynet.Net.{socket_addr, v4, octets, SocketAddr}
use easynet.Message.{Message}
use easynet.Server.{ServerConfig, Surroundings, Choice, initial, text_key, acceptance}
use easynet.Server.Handshake.{stored}
use easynet.Client.{
  ClientConfig, invalid_token, connect_failed, ClientCalls, IpParser, timed_out, handshake_async,
  run_client_from_config, run_client_with_retry,
}
use easynet.Client.Session.{replied, serve, handshake_succeeds, handshake_fails}
use easynet.Client.Backoff.{delays_from, run_client_with_retry-delays}

abbrev server : ServerConfig
server = record {
  tun_name = codes "easynet";
  tun_netmask = v4 (octets 255 255 255 0);
  tun_destination = v4 (octets 10 0 0 1);
  tun_dns_servers = [];
  tun_mtu = 1500;
  token = codes "secret";
}

abbrev around : Surroundings
around = record {
  config = some server;
  show_v6 = λ n. [];
  fresh_id = codes "b";
  now = 1000;
  send_ok = true;
  forward_ok = true;
}

abbrev peer : SocketAddr
peer = socket_addr (v4 (octets 192 0 2 7)) 4000

abbrev config : ClientConfig
config = record {
  token = codes "secret";
  session_id = [];
  transport_type = codes "TCP";
  server_addr = codes "192.0.2.1:80";
}

abbrev stranger : ClientConfig
stranger = record config { token = [] }

handshake_succeeds_example :
    (c : Choice) × ((serve around initial peer 1 config).sent ≡ (peer, acceptance server c) ∷ [])
    × (get c.session_id ((serve around initial peer 1 config).state).sessions
        ≡ some (stored around peer 1 c))
    × ((handshake_async config (replied (acceptance server c))).result ≡ ok c.tun_config)
    × (((handshake_async config (replied (acceptance server c))).config).session_id ≡ c.session_id)
handshake_succeeds_example = handshake_succeeds around server initial peer 1 config refl refl refl

handshake_fails_example :
    (m : Message) × ((serve around initial peer 1 stranger).sent ≡ (peer, m) ∷ [])
    × ((handshake_async stranger (replied m)).result ≡ err invalid_token)
handshake_fails_example = handshake_fails around server initial peer 1 stranger refl refl (λ e. cc)

abbrev unicode : Unicode
unicode = record { to_lowercase = to_ascii_lowercase; to_lowercase_ascii = λ s h. refl }

-- A parser that knows one address.
abbrev parser : IpParser
parser t = some (v4 (octets 10 0 0 2))

-- A server that cannot be reached, and one that can.
abbrev away : ClientCalls
away = record {
  connect = λ t. false;
  shake = record { send_ok = true; reply = timed_out; load_ok = true; save_ok = true };
  create_tun_device = λ a. true;
  run_ok = true;
}

abbrev back : ClientCalls
back = record away {
  connect = λ t. true;
  shake = replied (
      acceptance server (record {
        session_id = codes "b";
        virtual_ip = octets 10 0 0 2;
        tun_config = record {
          name = codes "easynet";
          address = codes "10.0.0.2";
          netmask = codes "255.255.255.0";
          destination = codes "10.0.0.1";
          dns = [];
          mtu = 1500;
        };
        state = initial;
      }));
}

away_fails : run_client_from_config unicode parser config away ≡ err connect_failed
unfolding run_client_from_config Text.to_ascii_lowercase Text.text_eq
away_fails = refl

back_succeeds : run_client_from_config unicode parser config back ≡ ok tt
unfolding run_client_from_config Text.to_ascii_lowercase Text.text_eq
back_succeeds = refl

run_client_with_retry-delays_example :
    run_client_with_retry unicode parser config (away ∷ away ∷ back ∷ []) ≡ (delays_from 0 2, true)
run_client_with_retry-delays_example =
    run_client_with_retry-delays unicode parser config (away ∷ away ∷ []) [] back
      ((connect_failed, away_fails), ((connect_failed, away_fails), tt)) back_succeeds
