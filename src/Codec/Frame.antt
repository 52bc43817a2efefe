-- ===== src/Codec/Frame.antt =====
-- One frame: what `encode` of src/codec/codec.rs writes is what `decode` reads.
use easynet.Prelude.{
  ℕ, ◌+◌, ◌^◌, ◌≤◌, ◌<◌, ◌≡◌, ap, ◌∙◌, false, Option, some, [], ◌++◌, append_assoc, arith, ltb,
  length, ok, err, take_exact, drop_exact, length-append,
}
use easynet.Message.{Bytes, Message, Prost, Decodes}
use easynet.Codec.{
  head, body, ByteCodec, frame_too_large, u32_le, encode, decode_body, decode_header, decode_head,
  decode_at, decode, of_option, header_size,
}

-- A frame is written exactly when header and body fit into the limit; it is appended to the buffer,
-- and a refusal names both sizes.
pub encode_outcome :
    (p : Prost) (c : ByteCodec) (m : Message) (dst : Bytes)
    → let body = p.encode_to_vec m in
      ((header_size + length body ≤ c.max_frame_size)
        → encode p c m dst ≡ ok (dst ++ (u32_le (length body) ++ body)))
      × ((c.max_frame_size < header_size + length body)
          → encode p c m dst ≡ err (frame_too_large (header_size + length body) c.max_frame_size))
unfolding encode
encode_outcome p c m dst = ground arith

header_round_trip :
    (p : Prost) (c : ByteCodec) (n : ℕ) (src : Bytes)
    → n < 2 ^ 32
    → decode_head p c (u32_le n ++ src) ≡ decode_header p c n src
unfolding u32_le decode_head
header_round_trip p c n src h = ap (λ k. decode_header p c k src) (omega arith)

decode_body_exact :
    (p : Prost) (c : ByteCodec) (bytes rest : Bytes)
    → decode_body p c (length bytes) (bytes ++ rest) ≡ record {
      result = of_option (p.decode bytes);
      codec = record c { state = head };
      rest = rest;
    }
unfolding decode_body
decode_body_exact p c bytes rest =
    let enough : ltb (length (bytes ++ rest)) (length bytes) ≡ false =
      ground (arith, length-append bytes rest) in
    rw (enough, take_exact bytes rest, drop_exact bytes rest)

-- The bytes that `encode` writes into an empty buffer.
pub frame : Prost → Message → Bytes
frame p m = u32_le (length (p.encode_to_vec m)) ++ p.encode_to_vec m

pub encode-frame :
    (p : Prost) (c : ByteCodec) (m : Message) (dst out : Bytes)
    → encode p c m dst ≡ ok out
    → (out ≡ dst ++ frame p m) × (header_size + length (p.encode_to_vec m) ≤ c.max_frame_size)
unfolding encode frame
encode-frame p c m dst out h = ground arith

decode_header_fits :
    (p : Prost) (c : ByteCodec) (bytes rest : Bytes)
    → length bytes ≤ c.max_frame_size
    → decode_header p c (length bytes) (bytes ++ rest) ≡ record {
      result = of_option (p.decode bytes);
      codec = record c { state = head };
      rest = rest;
    }
unfolding decode_header
decode_header_fits p c bytes rest fits =
    let small : ltb c.max_frame_size (length bytes) ≡ false = ground arith in
    rw small (decode_body_exact p (record c { state = body (length bytes) }) bytes rest)

pub decode-frame :
    (p : Prost) (c : ByteCodec) (m : Message) (rest : Bytes)
    → c.state ≡ head
    → header_size + length (p.encode_to_vec m) ≤ c.max_frame_size
    → c.max_frame_size < 2 ^ 32
    → Decodes p m
    → decode p c (frame p m ++ rest)
      ≡ record { result = ok (some m); codec = record c { state = head }; rest = rest }
unfolding decode frame
decode-frame p c m rest at_head fits small good =
    let bytes = p.encode_to_vec m in
    let header = u32_le (length bytes) in
    ap (λ s. decode_at s p c ((header ++ bytes) ++ rest)) at_head
    ∙ ap (decode_head p c) (append_assoc header bytes rest)
    ∙ header_round_trip p c (length bytes) (bytes ++ rest) (omega arith)
    ∙ decode_header_fits p c bytes rest (omega arith)
    ∙ ap
        (λ (o : Option Message). record {
          result = of_option o;
          codec = record c { state = head };
          rest = rest;
        })
        good

-- Whatever `encode` writes into an empty buffer, a decoder with the same limit reads back from the
-- front of any buffer: it returns the message, leaves the bytes behind it and waits for a header.
-- The limit is below 2^32, as the header holds 32 bits, and `prost` decodes its own encoding of the
-- message.
pub decode-encode :
    (p : Prost) (c : ByteCodec) (m : Message) (out rest : Bytes)
    → c.state ≡ head
    → c.max_frame_size < 2 ^ 32
    → Decodes p m
    → encode p c m [] ≡ ok out
    → decode p c (out ++ rest)
      ≡ record { result = ok (some m); codec = record c { state = head }; rest = rest }
decode-encode p c m out rest at_head small good h =
    let (written, fits) = encode-frame p c m [] out h in
    rw written (decode-frame p c m rest at_head fits small good)
