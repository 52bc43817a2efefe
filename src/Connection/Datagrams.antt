-- ===== src/Connection/Datagrams.antt =====
-- The datagrams of src/transport/udp.rs: `UdpTransport` reads them by the codec of
-- src/codec/codec.rs, and `run_udp_server` runs `transport_io_task` over what it reads.
use easynet.Prelude.{
  ℕ, suc, ◌≡◌, refl, sym, ap, ◌∙◌, some, List, [], ◌∷◌, ◌++◌, append-nil, arith, Result, ok, err,
  All,
}
use easynet.Net.{SocketAddr}
use easynet.Message.{Bytes, Message, Prost, Decodes}
use easynet.Codec.{ByteCodec, new_codec, CodecError, encode, decode}
use easynet.Codec.Frame.{decode-encode}
use easynet.Server.{ServerState, Surroundings}
use easynet.Connection.{
  UdpEvent, datagram, read_ended, from_tun, other_tasks, Served, transport_io_task,
}

-- The crate's `UdpFramed`: a datagram from a sender gives any number of messages and errors, and leaves
-- the codec in some state.
pub record UdpFramed : Type 0 where
  pub next :
      ByteCodec → SocketAddr → Bytes → ByteCodec × List (Result (Message × SocketAddr) CodecError)

-- It hands on what the decoder makes of a datagram: a message that takes it whole, and an error,
-- whatever it gives behind it.
pub record HandsOn (p : Prost) (f : UdpFramed) : Type 0 where
  pub messages :
      (c c' : ByteCodec) (src : SocketAddr) (bytes : Bytes) (m : Message)
      → decode p c bytes ≡ record { result = ok (some m); codec = c'; rest = [] }
      → f.next c src bytes ≡ (c', ok (m, src) ∷ [])
  pub errors :
      (c : ByteCodec) (src : SocketAddr) (bytes : Bytes) (e : CodecError)
      → (decode p c bytes).result ≡ err e
      → (behind : List (Result (Message × SocketAddr) CodecError)) × ((f.next c src bytes).1
          ≡ err e ∷ behind)

-- What reaches the UDP task: a datagram, with what each message of it is given from outside, or a
-- packet of the TUN task; and what other tasks leave of the sessions.
pub data Input : Type 0 where
  arrival : (ℕ → Surroundings) → SocketAddr → Bytes → Input
  packet : Bytes → Input
  meanwhile : ServerState → Input

abbrev pub of_next :
    (ℕ → Surroundings)
    → List (Result (Message × SocketAddr) CodecError)
    → List UdpEvent
    → List UdpEvent
of_next w [] rest = rest
of_next w (ok (m, src) ∷ items) rest =
    datagram (w 0) src m.msg ∷ of_next (λ n. w (suc n)) items rest
of_next w (err e ∷ items) rest = read_ended ∷ of_next (λ n. w (suc n)) items rest

module _ (f : UdpFramed) where
  -- The events of the task, with the codec's state carried from datagram to datagram.
  unfoldable pub udp_events : ByteCodec → List Input → List UdpEvent
  udp_events codec [] = []
  udp_events codec (arrival w src bytes ∷ inputs) =
      let (codec', read) = f.next codec src bytes in of_next w read (udp_events codec' inputs)
  udp_events codec (packet bytes ∷ inputs) = from_tun bytes ∷ udp_events codec inputs
  udp_events codec (meanwhile s ∷ inputs) = other_tasks s ∷ udp_events codec inputs

  -- The UDP task over the datagrams, from the codec of `UdpTransport::new`.
  unfoldable pub serve_udp : ServerState → List Input → Served
  unfolding udp_events transport_io_task
  serve_udp s inputs = transport_io_task s (udp_events new_codec inputs)

-- What peers and the TUN task send: a message with its encoding, or a packet; and what other
-- tasks leave of the sessions.
pub data Sent : Type 0 where
  says : Surroundings → SocketAddr → Message → Bytes → Sent
  has : Bytes → Sent
  leaves : ServerState → Sent

abbrev pub inputs_of : List Sent → List Input
inputs_of [] = []
inputs_of (says w src m bytes ∷ l) = arrival (λ n. w) src bytes ∷ inputs_of l
inputs_of (has bytes ∷ l) = packet bytes ∷ inputs_of l
inputs_of (leaves s ∷ l) = meanwhile s ∷ inputs_of l

abbrev pub events_of : List Sent → List UdpEvent
events_of [] = []
events_of (says w src m bytes ∷ l) = datagram w src m.msg ∷ events_of l
events_of (has bytes ∷ l) = from_tun bytes ∷ events_of l
events_of (leaves s ∷ l) = other_tasks s ∷ events_of l

-- The bytes are what `encode` writes for the message, which decodes from its own encoding.
abbrev pub IsEncoded : Prost → Sent → Type 0
IsEncoded p (says w src m bytes) = (encode p new_codec m [] ≡ ok bytes) × Decodes p m
IsEncoded p (has bytes) = Unit
IsEncoded p (leaves s) = Unit

module _ (p : Prost) (f : UdpFramed) (hands_on : HandsOn p f) where
  next-encode :
      (src : SocketAddr) (m : Message) (bytes : Bytes)
      → encode p new_codec m [] ≡ ok bytes
      → Decodes p m
      → f.next new_codec src bytes ≡ (new_codec, ok (m, src) ∷ [])
  next-encode src m bytes encoded good = hands_on.messages new_codec new_codec src bytes m (
      ap (decode p new_codec) (sym (append-nil bytes))
      ∙ decode-encode p new_codec m bytes [] refl (omega arith) good encoded)

  pub udp_events-sent :
      (l : List Sent) (more : List Input)
      → All (IsEncoded p) l
      → udp_events f new_codec (inputs_of l ++ more) ≡ events_of l ++ udp_events f new_codec more
  unfolding udp_events
  udp_events-sent [] more h = refl
  udp_events-sent (says w src m bytes ∷ l) more ((encoded, good), h) =
      rw (next-encode src m bytes encoded good, udp_events-sent l more h) refl
  udp_events-sent (has bytes ∷ l) more (_, h) = rw (udp_events-sent l more h) refl
  udp_events-sent (leaves s ∷ l) more (_, h) = rw (udp_events-sent l more h) refl
