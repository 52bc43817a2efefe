-- ===== src/Connection/Oversized.antt =====
-- A datagram of src/transport/udp.rs that the decoder of src/codec/codec.rs turns down.
use easynet.Prelude.{
  ℕ, suc, ◌+◌, ◌*◌, ◌^◌, ◌<◌, ◌≡◌, refl, ap, ◌∙◌, false, List, [], ◌∷◌, ◌++◌, err, All, lt→ltb,
}
use easynet.Net.{SocketAddr}
use easynet.Message.{Bytes, Prost}
use easynet.Codec.{
  new_codec, default_max_frame_size, data_too_large, decode, decode_head, decode_header,
}
use easynet.Server.{ServerState, Surroundings}
use easynet.Server.Lifetime.{handle_message}
use easynet.Connection.{
  UdpEvent, datagram, read_ended, from_tun, tun_closed, other_tasks, transport_io_task,
}
use easynet.Connection.Datagrams.{
  UdpFramed, HandsOn, Input, arrival, of_next, udp_events, serve_udp, Sent, inputs_of, events_of,
  IsEncoded, udp_events-sent,
}

-- The length that the first four bytes of a frame declare.
abbrev pub declared : ℕ → ℕ → ℕ → ℕ → ℕ
declared b0 b1 b2 b3 = b0 + b1 * 2 ^ 8 + b2 * 2 ^ 16 + b3 * 2 ^ 24

decode_oversized :
    (p : Prost) (b0 b1 b2 b3 : ℕ) (tail : Bytes)
    → default_max_frame_size < declared b0 b1 b2 b3
    → (decode p new_codec (b0 ∷ b1 ∷ b2 ∷ b3 ∷ tail)).result
      ≡ err (data_too_large (declared b0 b1 b2 b3) default_max_frame_size)
unfolding decode decode_head decode_header
decode_oversized p b0 b1 b2 b3 tail large = rw (lt→ltb _ _ large) refl

-- Nothing behind the end of the reads is served.
stops :
    (s : ServerState) (es more : List UdpEvent)
    → (transport_io_task s (es ++ read_ended ∷ more) ≡ transport_io_task s (es ++ read_ended ∷ []))
      × ((transport_io_task s (es ++ read_ended ∷ [])).is_open ≡ false)
unfolding transport_io_task
stops s [] more = (refl, refl)
stops s (datagram w src m ∷ es) more =
    let (same, ended) = stops (handle_message w s src src 0 m).state es more in
    (rw same refl, ended)
stops s (read_ended ∷ es) more = (refl, refl)
stops s (from_tun packet ∷ es) more = let (same, ended) = stops s es more in (rw same refl, ended)
stops s (tun_closed ∷ es) more = (refl, refl)
stops s (other_tasks t ∷ es) more = stops t es more

-- One datagram ends the UDP server, whoever sends it. Where the crate hands on what the decoder makes
-- of a datagram, and whatever encoded messages and packets were served before from the start,
-- with other changes of the sessions between them, a
-- datagram whose first four bytes declare more than the limit of a frame ends the task: the run is
-- that of what came before, and nothing that comes after it is served.
pub oversized_datagram_ends :
    (p : Prost) (f : UdpFramed) (s : ServerState) (l : List Sent) (w : ℕ → Surroundings)
    (src : SocketAddr) (b0 b1 b2 b3 : ℕ) (tail : Bytes) (more : List Input)
    → HandsOn p f
    → All (IsEncoded p) l
    → default_max_frame_size < declared b0 b1 b2 b3
    → (serve_udp f s (inputs_of l ++ (arrival w src (b0 ∷ b1 ∷ b2 ∷ b3 ∷ tail) ∷ more))
        ≡ transport_io_task s (events_of l ++ read_ended ∷ []))
      × ((transport_io_task s (events_of l ++ read_ended ∷ [])).is_open ≡ false)
unfolding serve_udp udp_events
oversized_datagram_ends p f s l w src b0 b1 b2 b3 tail more hands_on encoded large =
    let bad = b0 ∷ b1 ∷ b2 ∷ b3 ∷ tail in
    let (behind, fails) =
      hands_on.errors new_codec src bad _ (decode_oversized p b0 b1 b2 b3 tail large) in
    let (rest, closed) =
      stops s (events_of l)
        (of_next (λ n. w (suc n)) behind (udp_events f (f.next new_codec src bad).0 more)) in
    (
      ap (transport_io_task s) (
            udp_events-sent p f hands_on l (arrival w src bad ∷ more) encoded
            ∙ ap (λ o. events_of l ++ of_next w o (udp_events f (f.next new_codec src bad).0 more))
                fails)
          ∙ rest,
      closed,
    )
