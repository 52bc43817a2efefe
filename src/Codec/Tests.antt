-- ===== src/Codec/Tests.antt =====
-- Runs of the codec, and its theorems at concrete inputs.
use easynet.Prelude.{◌≡◌, refl, some, none, [], ◌∷◌, ◌++◌, arith, ok, err}
use easynet.Message.{Bytes, Message, payload, Prost, data_message}
use easynet.Codec.{ByteCodec, body, with_max_frame_size, data_too_large, encode, decode}
use easynet.Codec.Stream.{encode_all, Reads, encode_all-Reads}
use easynet.Codec.Bounds.{IsSafe, decode-IsSafe}

-- A stand-in for the generated code, which keeps the payload of a data message.
abbrev toy_bytes : Message → Bytes
toy_bytes m = elim m.msg [ some (payload bytes) ↦ bytes | _ ↦ [] ]

abbrev toy : Prost
toy = record { encode_to_vec = toy_bytes; decode = λ bytes. some (data_message bytes) }

abbrev codec : ByteCodec
codec = with_max_frame_size 16

abbrev two : Message
two = data_message (7 ∷ 9 ∷ [])

encode-two : encode toy codec two [] ≡ ok (2 ∷ 0 ∷ 0 ∷ 0 ∷ 7 ∷ 9 ∷ [])
unfolding encode
encode-two = refl

-- A header in one piece with part of its body.
decode_part :
    decode toy codec (2 ∷ 0 ∷ 0 ∷ 0 ∷ 7 ∷ [])
    ≡ record { result = ok none; codec = record codec { state = body 2 }; rest = 7 ∷ [] }
unfolding decode
decode_part = refl

decode_too_large : (decode toy codec (0 ∷ 1 ∷ 0 ∷ 0 ∷ [])).result ≡ err (data_too_large 256 16)
unfolding decode
decode_too_large = refl

-- The decoder's limit is on the body alone: it admits a body that the encoder refuses.
decode_long :
    (decode toy (with_max_frame_size 4) (2 ∷ 0 ∷ 0 ∷ 0 ∷ 7 ∷ 9 ∷ [])).result ≡ ok (some two)
unfolding decode
decode_long = refl

part : Bytes
part = 2 ∷ 0 ∷ 0 ∷ 0 ∷ 7 ∷ []

part_waits : (decode toy codec part).result ≡ ok none
unfolding decode part
part_waits = refl

abbrev one : Message
one = data_message (5 ∷ [])

encode_both :
    encode_all toy codec (two ∷ one ∷ []) [] ≡ ok (2 ∷ 0 ∷ 0 ∷ 0 ∷ 7 ∷ 9 ∷ 1 ∷ 0 ∷ 0 ∷ 0 ∷ 5 ∷ [])
unfolding encode_all encode
encode_both = refl

encode_all-Reads_example :
    Reads toy codec
      ((2 ∷ 0 ∷ 0 ∷ 0 ∷ 7 ∷ 9 ∷ 1 ∷ 0 ∷ 0 ∷ 0 ∷ 5 ∷ []) ++ 4 ∷ [])
      (two ∷ one ∷ [])
      codec
      (4 ∷ [])
encode_all-Reads_example =
    encode_all-Reads toy codec (two ∷ one ∷ []) (2 ∷ 0 ∷ 0 ∷ 0 ∷ 7 ∷ 9 ∷ 1 ∷ 0 ∷ 0 ∷ 0 ∷ 5 ∷ [])
      (4 ∷ []) refl (omega arith) (refl, (refl, tt)) encode_both

decode-IsSafe_example : IsSafe 16 part (decode toy codec part)
decode-IsSafe_example = decode-IsSafe toy codec part tt
