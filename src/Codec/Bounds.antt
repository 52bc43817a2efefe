-- ===== src/Codec/Bounds.antt =====
-- The decoder of src/codec/codec.rs never waits for more than the limit.
use easynet.Prelude.{ℕ, ◌≤◌, ◌≡◌, refl, [], ◌∷◌, arith, length, length-drop}
use easynet.Message.{Bytes, Prost}
use easynet.Codec.{
  DecodeState, head, body, ByteCodec, Decoded, decode_body, decode_header, decode_head, decode_at,
  decode,
}

abbrev pub WaitsWithin : ℕ → DecodeState → Type 0
WaitsWithin limit head = Unit
WaitsWithin limit (body n) = n ≤ limit

-- The length that the decoder waits for is within its limit.
abbrev pub IsBounded : ByteCodec → Type 0
IsBounded c = WaitsWithin c.max_frame_size c.state

-- What holds of a call's outcome.
pub record IsSafe (limit : ℕ) (src : Bytes) (d : Decoded) : Type 0 where
  pub bounded : IsBounded d.codec
  pub same_limit : d.codec.max_frame_size ≡ limit
  pub no_growth : length d.rest ≤ length src

module _ (p : Prost) where
  decode_body-IsSafe :
      (c : ByteCodec) (n : ℕ) (src : Bytes)
      → IsBounded c
      → IsSafe c.max_frame_size src (decode_body p c n src)
  unfolding decode_body
  decode_body-IsSafe c n src v = ground (arith, length-drop n src)

  decode_header-IsSafe :
      (c : ByteCodec) (n : ℕ) (src : Bytes)
      → IsBounded c
      → IsSafe c.max_frame_size src (decode_header p c n src)
  unfolding decode_header
  decode_header-IsSafe c n src v =
      ground (arith, decode_body-IsSafe (record c { state = body n }) n src)

  decode_head-IsSafe :
      (c : ByteCodec) (src : Bytes)
      → IsBounded c
      → IsSafe c.max_frame_size src (decode_head p c src)
  unfolding decode_head
  decode_head-IsSafe c [] v = record { bounded = v; same_limit = refl; no_growth = omega arith }
  decode_head-IsSafe c (a ∷ []) v = record {
    bounded = v;
    same_limit = refl;
    no_growth = omega arith;
  }
  decode_head-IsSafe c (a ∷ b ∷ []) v = record {
    bounded = v;
    same_limit = refl;
    no_growth = omega arith;
  }
  decode_head-IsSafe c (a ∷ b ∷ d ∷ []) v = record {
    bounded = v;
    same_limit = refl;
    no_growth = omega arith;
  }
  decode_head-IsSafe c (a ∷ b ∷ d ∷ e ∷ src) v =
      let safe = decode_header-IsSafe c _ src v in
      record {
        bounded = safe.bounded;
        same_limit = safe.same_limit;
        no_growth = omega (arith, safe.no_growth);
      }

  decode_at-IsSafe :
      (s : DecodeState) (c : ByteCodec) (src : Bytes)
      → IsBounded c
      → IsSafe c.max_frame_size src (decode_at s p c src)
  decode_at-IsSafe head c src v = decode_head-IsSafe c src v
  decode_at-IsSafe (body n) c src v = decode_body-IsSafe c n src v

-- Whatever bytes arrive, a call keeps the decoder from waiting for a body longer than its limit,
-- keeps the limit, and never makes the buffer longer.
pub decode-IsSafe :
    (p : Prost) (c : ByteCodec) (src : Bytes)
    → IsBounded c
    → IsSafe c.max_frame_size src (decode p c src)
unfolding decode
decode-IsSafe p c src v = decode_at-IsSafe p c.state c src v
