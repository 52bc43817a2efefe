-- ===== src/Codec/Stream.antt =====
-- A buffer that grows, and a run of messages: `decode` of src/codec/codec.rs may be called whenever
-- more bytes are there, and a stream of frames comes apart as it was put together.
use easynet.Prelude.{
  ℕ, ◌+◌, ◌^◌, ◌≤◌, ◌<◌, ◌≡◌, refl, ap, sym, ◌∙◌, Option, none, some, List, [], ◌∷◌, ◌++◌,
  append_assoc, append-nil, arith, ltb, length, take, Result, ok, ◌>>=◌, >>=-eq-ok, Bool-cases, inl,
  inr, All, subst, ◌⊎◌,
}
use easynet.Message.{Bytes, Message, Prost, Decodes}
use easynet.Codec.{
  DecodeState, head, body, ByteCodec, CodecError, encode, Decoded, decode_body, decode_header,
  decode_head, decode_at, decode, of_option, header_size,
}
use easynet.Codec.Frame.{frame, encode-frame, decode-frame}

of_option-ne-none : (o : Option Message) → of_option o ≡ ok none → ⊥
of_option-ne-none none h = cc
of_option-ne-none (some m) h = cc

module _ (p : Prost) where
  -- The body arm that has too few bytes changes nothing.
  decode_body_waits :
      (c : ByteCodec) (n : ℕ) (src : Bytes)
      → (decode_body p c n src).result ≡ ok none
      → decode_body p c n src ≡ record { result = ok none; codec = c; rest = src }
  unfolding decode_body
  decode_body_waits c n src h = elim (Bool-cases (ltb (length src) n)) [
    | inl short ↦ rw short
    | inr long ↦ absurd (of_option-ne-none (p.decode (take n src)) (rw (long, decode_body) at h))
  ]

  decode_at_head :
      (c : ByteCodec) (src : Bytes) → c.state ≡ head → decode p c src ≡ decode_head p c src
  unfolding decode
  decode_at_head c src at = ap (λ s. decode_at s p c src) at

  decode_at_body :
      (c : ByteCodec) (n : ℕ) (src : Bytes)
      → c.state ≡ body n
      → decode p c src ≡ decode_body p c n src
  unfolding decode
  decode_at_body c n src at = ap (λ s. decode_at s p c src) at

  -- What a call leaves behind, continued with more bytes.
  abbrev continue : Decoded → Bytes → Decoded
  continue d more = decode p d.codec (d.rest ++ more)

  decode_body-append :
      (c : ByteCodec) (n : ℕ) (src more : Bytes)
      → c.state ≡ body n
      → (decode_body p c n src).result ≡ ok none
      → decode_body p c n (src ++ more) ≡ continue (decode_body p c n src) more
  decode_body-append c n src more at h = sym (
      ap (λ d. continue d more) (decode_body_waits c n src h) ∙ decode_at_body c n (src ++ more) at)

  decode_header-append :
      (c : ByteCodec) (n : ℕ) (src more : Bytes)
      → (decode_header p c n src).result ≡ ok none
      → decode_header p c n (src ++ more) ≡ continue (decode_header p c n src) more
  unfolding decode_header
  decode_header-append c n src more h = elim (Bool-cases (ltb c.max_frame_size n)) [
    | inl big ↦ cc (rw (big, decode_header) at h)
    | inr fine ↦
        rw (fine, decode_header)
          (decode_body-append (record c { state = body n }) n src more refl
            (rw (fine, decode_header) at h))
  ]

  decode_head-append :
      (c : ByteCodec) (src more : Bytes)
      → c.state ≡ head
      → (decode_head p c src).result ≡ ok none
      → decode_head p c (src ++ more) ≡ continue (decode_head p c src) more
  unfolding decode_head
  decode_head-append c [] more at h = sym (decode_at_head c more at)
  decode_head-append c (a ∷ []) more at h = sym (decode_at_head c (a ∷ more) at)
  decode_head-append c (a ∷ b ∷ []) more at h = sym (decode_at_head c (a ∷ b ∷ more) at)
  decode_head-append c (a ∷ b ∷ d ∷ []) more at h = sym (decode_at_head c (a ∷ b ∷ d ∷ more) at)
  decode_head-append c (a ∷ b ∷ d ∷ e ∷ src) more at h = decode_header-append c _ src more h

  state_cases : (s : DecodeState) → (s ≡ head) ⊎ ((n : ℕ) × (s ≡ body n))
  state_cases head = inl refl
  state_cases (body n) = inr (n, refl)

-- A call that asks for more bytes loses nothing: whatever arrives later, going on from what it left
-- behind gives the same result, codec and rest as one call on the whole buffer.
pub decode-append :
    (p : Prost) (c : ByteCodec) (src more : Bytes)
    → (decode p c src).result ≡ ok none
    → decode p c (src ++ more) ≡ decode p (decode p c src).codec ((decode p c src).rest ++ more)
decode-append p c src more h = elim (state_cases p c.state) [
  | inl at ↦
      let same = decode_at_head p c src at in
      decode_at_head p c (src ++ more) at
      ∙ decode_head-append p c src more at (rw same at h)
      ∙ sym (ap (λ d. continue p d more) same)
  | inr (n, at) ↦
      let same = decode_at_body p c n src at in
      decode_at_body p c n (src ++ more) at
      ∙ decode_body-append p c n src more at (rw same at h)
      ∙ sym (ap (λ d. continue p d more) same)
]

-- Calls of `decode` that each return a message.
pub data Reads (p : Prost) : ByteCodec → Bytes → List Message → ByteCodec → Bytes → Type 0 where
  done : {c : ByteCodec} {src : Bytes} → Reads p c src [] c src
  more :
      {c c' d : ByteCodec} {src src' rest : Bytes} {m : Message} {ms : List Message}
      → decode p c src ≡ record { result = ok (some m); codec = d; rest = src' }
      → Reads p d src' ms c' rest
      → Reads p c src (m ∷ ms) c' rest

-- Messages encoded one behind the other into one buffer.
unfoldable pub encode_all : Prost → ByteCodec → List Message → Bytes → Result Bytes CodecError
encode_all p c [] dst = ok dst
encode_all p c (m ∷ ms) dst = do out ← encode p c m dst; encode_all p c ms out

-- The frames of messages, one behind the other.
frames : Prost → List Message → Bytes
frames p [] = []
frames p (m ∷ ms) = frame p m ++ frames p ms

abbrev Fits : Prost → ByteCodec → Message → Type 0
Fits p c m = header_size + length (p.encode_to_vec m) ≤ c.max_frame_size

encode_all-frames :
    (p : Prost) (c : ByteCodec) (ms : List Message) (dst out : Bytes)
    → encode_all p c ms dst ≡ ok out
    → (out ≡ dst ++ frames p ms) × All (Fits p c) ms
unfolding encode_all frames
encode_all-frames p c [] dst out h = (ground (arith, append-nil dst), tt)
encode_all-frames p c (m ∷ ms) dst out h =
    let (mid, first, later) = >>=-eq-ok (encode p c m dst) _ h in
    let (written, fits) = encode-frame p c m dst mid first in
    let (rest, fit) = encode_all-frames p c ms mid out later in
    (
      rest ∙ ap (λ b. b ++ frames p ms) written ∙ append_assoc dst (frame p m) (frames p ms),
      (fits, fit),
    )

module _ (p : Prost) (c : ByteCodec) (small : c.max_frame_size < 2 ^ 32) where
  Reads-frames :
      (ms : List Message) (rest : Bytes)
      → c.state ≡ head
      → All (Fits p c) ms
      → All (Decodes p) ms
      → Reads p
          (record c { state = head })
          (frames p ms ++ rest)
          ms
          (record c { state = head })
          rest
  unfolding frames
  Reads-frames [] rest at fit good = done
  Reads-frames (m ∷ ms) rest at fit good =
      subst (λ b. Reads p (record c { state = head }) b (m ∷ ms) (record c { state = head }) rest)
        (sym (append_assoc (frame p m) (frames p ms) rest))
        (more
          (decode-frame p (record c { state = head }) m (frames p ms ++ rest) refl fit.0 small
            good.0)
          (Reads-frames ms rest at fit.1 good.1))

-- Messages that were encoded one behind the other are read back in their order by as many calls of
-- `decode` with the same limit, and the bytes behind them are left. The limit is below 2^32, and
-- `prost` decodes its own encoding of each message.
pub encode_all-Reads :
    (p : Prost) (c : ByteCodec) (ms : List Message) (out rest : Bytes)
    → c.state ≡ head
    → c.max_frame_size < 2 ^ 32
    → All (Decodes p) ms
    → encode_all p c ms [] ≡ ok out
    → Reads p (record c { state = head }) (out ++ rest) ms (record c { state = head }) rest
encode_all-Reads p c ms out rest at small good h =
    let (written, fit) = encode_all-frames p c ms [] out h in
    rw written (Reads-frames p c small ms rest at fit good)
