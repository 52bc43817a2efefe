-- ===== src/Client.antt =====
-- src/client.rs: the handshake of a client, the choice of its transport, and the retries. Sockets,
-- the TUN device and the state file stand as the outcomes of the calls to them.
pub mod Session
pub mod Backoff
pub mod Tests
use easynet.Prelude.{
  ℕ, ◌*◌, ◌%◌, ◌^◌, ◌≡◌, Bool, true, false, Option, none, some, List, [], ◌∷◌, ◌++◌, Result, ok,
  err, ◌>>=◌, ◌>>◌, guard, map_err, ok_or, if◌then◌else◌, not, min, leb,
}
use easynet.Text.{Text, codes, text_eq, Unicode}
use easynet.Net.{IpAddr}
use easynet.Message.{
  TunConfig, Handshake, Message, MessageType, handshake, payload, keepalive, disconnect,
  handshake_message,
}

-- The fields of `ClientConfig` that the handshake uses, and those that the transport is chosen by.
pub record ClientConfig : Type 0 where
  pub token : Text
  pub session_id : Text
  pub transport_type : Text
  pub server_addr : Text

-- What `select!` hands over: a message, a failure, the end of the transport, or the timeout.
pub data Reply : Type 0 where
  answered : Message → Reply
  receive_failed transport_closed timed_out : Reply

pub data ClientError : Type 0 where
  send_failed invalid_token state_not_loaded state_not_saved no_tun_config : ClientError
  unexpected_message error_during_handshake closed_during_handshake handshake_timed_out :
      ClientError
  connect_failed invalid_address tun_not_created transport_failed : ClientError
  unknown_transport_type : Text → ClientError

-- The outcomes of the calls of a handshake.
pub record HandshakeCalls : Type 0 where
  pub send_ok : Bool
  pub reply : Reply
  pub load_ok : Bool
  pub save_ok : Bool

-- The configuration behind the handshake, the session id written to the state file, and the result.
pub record Shaken : Type 0 where
  pub config : ClientConfig
  pub saved : Option Text
  pub result : Result TunConfig ClientError

abbrev pub failed : ClientConfig → ClientError → Shaken
failed config e = record { config = config; saved = none; result = err e }

-- The new id is set before the state file is read.
abbrev pub adopt_session : ClientConfig → HandshakeCalls → Text → TunConfig → Shaken
adopt_session config calls id tun =
    let config' = record config { session_id = id } in
    if not calls.load_ok
    then failed config' state_not_loaded
    else if not calls.save_ok
    then failed config' state_not_saved
    else record { config = config'; saved = some id; result = ok tun }

abbrev pub take_tun : ClientConfig → HandshakeCalls → Text → Option TunConfig → Shaken
take_tun config calls id none = failed config no_tun_config
take_tun config calls id (some tun) =
    if text_eq id config.session_id
    then record { config = config; saved = none; result = ok tun }
    else adopt_session config calls id tun

abbrev pub take_message : ClientConfig → HandshakeCalls → Option MessageType → Shaken
take_message config calls (some (handshake h)) =
    if text_eq h.token config.token
    then take_tun config calls h.session_id h.tun_config
    else failed config invalid_token
take_message config calls _ = failed config unexpected_message

abbrev pub take_reply : ClientConfig → HandshakeCalls → Reply → Shaken
take_reply config calls (answered m) = take_message config calls m.msg
take_reply config calls receive_failed = failed config error_during_handshake
take_reply config calls transport_closed = failed config closed_during_handshake
take_reply config calls timed_out = failed config handshake_timed_out

-- The handshake that the client sends.
abbrev pub request : ClientConfig → Handshake
request config = record { token = config.token; session_id = config.session_id; tun_config = none }

unfoldable pub handshake_async : ClientConfig → HandshakeCalls → Shaken
unfolding text_eq
handshake_async config calls =
    if calls.send_ok then take_reply config calls calls.reply else failed config send_failed

-- The arguments of `create_tun_device`.
pub record TunArguments : Type 0 where
  pub name : Text
  pub address : IpAddr
  pub netmask : IpAddr
  pub destination : IpAddr
  pub dns : List IpAddr
  pub mtu : ℕ

-- `parse` to an address, which is the standard library's.
abbrev pub IpParser : Type 0
IpParser = Text → Option IpAddr

-- `collect` of the parsed DNS servers.
unfoldable pub parse_all : IpParser → List Text → Result (List IpAddr) ClientError
parse_all parse [] = ok []
parse_all parse (t ∷ ts) = do
  a ← ok_or invalid_address (parse t)
  rest ← parse_all parse ts
  ok (a ∷ rest)

unfoldable pub tun_arguments : IpParser → TunConfig → Result TunArguments ClientError
unfolding parse_all
tun_arguments parse tun = do
  address ← ok_or invalid_address (parse tun.address)
  netmask ← ok_or invalid_address (parse tun.netmask)
  destination ← ok_or invalid_address (parse tun.destination)
  dns ← parse_all parse tun.dns
  ok (record {
    name = tun.name;
    address = address;
    netmask = netmask;
    destination = destination;
    dns = dns;
    mtu = tun.mtu % 2 ^ 16;
  })

-- What is connected to: a TCP server, a local UDP port, or the URL of a web socket.
pub data Target : Type 0 where
  tcp_to udp_from ws_to : Text → Target

-- The arms of the match of `run_client_from_config` on the type of the transport.
unfoldable pub choose_target : Unicode → ClientConfig → Result Target ClientError
unfolding text_eq
choose_target uni config =
    let kind = uni.to_lowercase config.transport_type in
    if text_eq kind (codes "tcp")
    then ok (tcp_to config.server_addr)
    else if text_eq kind (codes "udp")
    then ok (udp_from (codes "0.0.0.0:0"))
    else if text_eq kind (codes "ws")
    then ok (ws_to (codes "ws://" ++ config.server_addr))
    else if text_eq kind (codes "wss")
    then ok (ws_to (codes "wss://" ++ config.server_addr))
    else err (unknown_transport_type config.transport_type)

-- The outcomes of the calls of a connection: `connect` or `bind`, `create_tun_device`, and the loop
-- that then runs until it fails or ends.
pub record ClientCalls : Type 0 where
  pub connect : Target → Bool
  pub shake : HandshakeCalls
  pub create_tun_device : TunArguments → Bool
  pub run_ok : Bool

-- Every arm connects, shakes hands, makes the device and runs.
unfoldable pub run_client_from_config :
    Unicode → IpParser → ClientConfig → ClientCalls → Result (Unit {0}) ClientError
unfolding choose_target handshake_async tun_arguments
run_client_from_config uni parse config calls = do
  target ← choose_target uni config
  guard (calls.connect target) connect_failed
  tun ← (handshake_async config calls.shake).result
  arguments ← tun_arguments parse tun
  guard (calls.create_tun_device arguments) tun_not_created
  guard calls.run_ok transport_failed

abbrev pub max_retry_delay : ℕ
max_retry_delay = 300

-- The loop of `run_client_with_retry`, over the outcomes of the calls of its attempts, each of which
-- gets a clone of the configuration: the delays that are slept, in seconds, and whether an attempt
-- succeeded.
unfoldable pub retry : Unicode → IpParser → ClientConfig → ℕ → List ClientCalls → List ℕ × Bool
retry uni parse config retry_delay [] = ([], false)
retry uni parse config retry_delay (calls ∷ attempts) =
    elim (run_client_from_config uni parse config calls) [
      | ok u ↦ ([], true)
      | err e ↦
          let rest = retry uni parse config (min (retry_delay * 2) max_retry_delay) attempts in
          (retry_delay ∷ rest.0, rest.1)
    ]

unfoldable pub run_client_with_retry :
    Unicode → IpParser → ClientConfig → List ClientCalls → List ℕ × Bool
unfolding retry
run_client_with_retry uni parse config attempts = retry uni parse config 1 attempts
