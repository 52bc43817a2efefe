-- ===== src/Codec.antt =====
-- src/codec/codec.rs: length-prefixed frames over a byte buffer. Lengths are `usize`, without bound;
-- the header keeps the length modulo 2^32.
pub mod Frame
pub mod Stream
pub mod Bounds
pub mod Tests
use easynet.Prelude.{
  ℕ, ◌+◌, ◌*◌, ◌/◌, ◌%◌, ◌^◌, ◌≡◌, refl, Bool, true, false, Option, none, some, List, [], ◌∷◌, ◌++◌,
  ltb, if◌then◌else◌, length, take, drop, Result, ok, err,
}
use easynet.Message.{Bytes, Message, Prost}

abbrev pub header_size : ℕ
header_size = 4

abbrev pub default_max_frame_size : ℕ
default_max_frame_size = 1024 * 1024

pub data DecodeState : Type 0 where
  head : DecodeState
  body : ℕ → DecodeState

pub record ByteCodec : Type 0 where
  pub state : DecodeState
  pub max_frame_size : ℕ

-- `ByteCodec::new` and `with_max_frame_size`.
abbrev pub new_codec : ByteCodec
new_codec = record { state = head; max_frame_size = default_max_frame_size }

abbrev pub with_max_frame_size : ℕ → ByteCodec
with_max_frame_size n = record { state = head; max_frame_size = n }

-- The errors of kind `InvalidData`.
pub data CodecError : Type 0 where
  frame_too_large : ℕ → ℕ → CodecError
  data_too_large : ℕ → ℕ → CodecError
  bad_message : CodecError

-- `put_u32_le(len as u32)`.
unfoldable pub u32_le : ℕ → Bytes
u32_le n =
    let m = n % 2 ^ 32 in m % 256 ∷ (m / 2 ^ 8) % 256 ∷ (m / 2 ^ 16) % 256 ∷ (m / 2 ^ 24) % 256 ∷ []

-- The new contents of the buffer; an error leaves it alone.
unfoldable pub encode : Prost → ByteCodec → Message → Bytes → Result Bytes CodecError
unfolding u32_le
encode p codec item dst =
    let body = p.encode_to_vec item in
    let required = header_size + length body in
    if ltb codec.max_frame_size required
    then err (frame_too_large required codec.max_frame_size)
    else ok (dst ++ (u32_le (length body) ++ body))

-- What a call of `decode` leaves behind.
pub record Decoded : Type 0 where
  pub result : Result (Option Message) CodecError
  pub codec : ByteCodec
  pub rest : Bytes

abbrev pub of_option : Option Message → Result (Option Message) CodecError
of_option none = err bad_message
of_option (some m) = ok (some m)

-- The arm `DecodeState::Body`.
unfoldable pub decode_body : Prost → ByteCodec → ℕ → Bytes → Decoded
decode_body p codec data_len src =
    if ltb (length src) data_len
    then record { result = ok none; codec = codec; rest = src }
    else record {
      result = of_option (p.decode (take data_len src));
      codec = record codec { state = head };
      rest = drop data_len src;
    }

-- The arm `DecodeState::Head` behind the length test, with the four header bytes taken.
unfoldable pub decode_header : Prost → ByteCodec → ℕ → Bytes → Decoded
unfolding decode_body
decode_header p codec data_len src =
    if ltb codec.max_frame_size data_len
    then record {
      result = err (data_too_large data_len codec.max_frame_size);
      codec = codec;
      rest = src;
    }
    else decode_body p (record codec { state = body data_len }) data_len src

unfoldable pub decode_head : Prost → ByteCodec → Bytes → Decoded
unfolding decode_header
decode_head p codec (b0 ∷ b1 ∷ b2 ∷ b3 ∷ src) =
    decode_header p codec (b0 + b1 * 2 ^ 8 + b2 * 2 ^ 16 + b3 * 2 ^ 24) src
decode_head p codec src = record { result = ok none; codec = codec; rest = src }

abbrev pub decode_at : DecodeState → Prost → ByteCodec → Bytes → Decoded
decode_at head p codec src = decode_head p codec src
decode_at (body data_len) p codec src = decode_body p codec data_len src

unfoldable pub decode : Prost → ByteCodec → Bytes → Decoded
unfolding decode_head decode_body
decode p codec src = decode_at codec.state p codec src
