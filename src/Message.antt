-- ===== src/Message.antt =====
-- proto/message.proto as the Rust types that src/codec/mod.rs passes on, and the constructors of
-- src/codec/codec.rs. The code that `prost` generates is outside: it stands as its two calls.
use easynet.Prelude.{ℕ, ◌≡◌, Option, some, List}
use easynet.Text.{Text}

abbrev pub Bytes : Type 0
Bytes = List ℕ

pub record TunConfig : Type 0 where
  pub name : Text
  pub address : Text
  pub netmask : Text
  pub destination : Text
  pub dns : List Text
  pub mtu : ℕ

pub record Handshake : Type 0 where
  pub token : Text
  pub session_id : Text
  pub tun_config : Option TunConfig

-- The variants of the `oneof`. A timestamp (`int64`) is its 64-bit pattern.
pub data MessageType : Type 0 where
  handshake : Handshake → MessageType
  payload : Bytes → MessageType
  keepalive : ℕ → MessageType
  disconnect : Text → MessageType

pub record Message : Type 0 where
  pub msg : Option MessageType

-- `Message::handshake`, `Message::data` and `Message::keepalive`.
abbrev pub handshake_message : Handshake → Message
handshake_message h = record { msg = some (handshake h) }

abbrev pub data_message : Bytes → Message
data_message bytes = record { msg = some (payload bytes) }

abbrev pub keepalive_message : ℕ → Message
keepalive_message timestamp = record { msg = some (keepalive timestamp) }

-- The generated protobuf code: `none` is a decode error.
pub record Prost : Type 0 where
  pub encode_to_vec : Message → Bytes
  pub decode : Bytes → Option Message

-- What `prost` documents of a message: it is decoded from its own encoding.
abbrev pub Decodes : Prost → Message → Type 0
Decodes p m = p.decode (p.encode_to_vec m) ≡ some m
