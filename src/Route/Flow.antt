-- ===== src/Route/Flow.antt =====
-- What `tun_io_task` of src/common.rs writes to the TUN device, over a whole run.
use easynet.Prelude.{
  ℕ, ◌≡◌, ◌≢◌, ◌⊎◌, refl, ap, subst, append_assoc, sym, ◌∙◌, Bool, true, false, Option, none, some,
  List, [], ◌∷◌, ◌++◌, Result, ok, err, inl, inr,
}
use easynet.Message.{Bytes}
use easynet.Context.{PacketContext, from_ip_packet}
use easynet.Rule.{RuleAction, direct, proxy, reject}
use easynet.DomainCache.{DomainCache, new_cache}
use easynet.Route.{
  Task, Channels, Sent, to_transport, to_direct, to_tun, TaskError, Event, transport_received,
  direct_received, transport_closed, direct_closed, tun_read, tun_failed, act_on, route_context,
  handle_packet_route, turn, Run, after_turn, loop, tun_io_task, send,
}

-- The packets written to the device, and those sent away from it.
abbrev pub written : List Sent → List Bytes
written [] = []
written (to_tun packet ∷ ss) = packet ∷ written ss
written (_ ∷ ss) = written ss

abbrev pub sent_out : List Sent → List Bytes
sent_out [] = []
sent_out (to_tun packet ∷ ss) = sent_out ss
sent_out (to_transport packet ∷ ss) = packet ∷ sent_out ss
sent_out (to_direct packet ∷ ss) = packet ∷ sent_out ss

-- The packets that the transport and the direct proxy delivered.
abbrev pub received : List Event → List Bytes
received [] = []
received (transport_received packet clock write_ok ∷ es) = packet ∷ received es
received (direct_received packet clock write_ok ∷ es) = packet ∷ received es
received (_ ∷ es) = received es

written-append : (xs ys : List Sent) → written (xs ++ ys) ≡ written xs ++ written ys
written-append [] ys = refl
written-append (to_tun packet ∷ xs) ys = ap (λ l. packet ∷ l) (written-append xs ys)
written-append (to_transport packet ∷ xs) ys = written-append xs ys
written-append (to_direct packet ∷ xs) ys = written-append xs ys

ok_same : {a b : List Sent} → ◌≡◌ {A = Result (List Sent) TaskError} (ok a) (ok b) → a ≡ b
ok_same e = cc

-- A packet that was routed is not written to the device.
routed_elsewhere :
    (t : Task) (ch : Channels) (now : ℕ) (cache : DomainCache) (packet : Bytes) (sent : List Sent)
    → (handle_packet_route t ch now cache packet).result ≡ ok sent
    → written sent ≡ []
unfolding handle_packet_route
routed_elsewhere t ch now cache packet sent h = by_context (from_ip_packet t.slicer packet) h
  where
    by_send :
        (b : Bool) (e : TaskError) (s : Sent)
        → written (s ∷ []) ≡ []
        → send b e s ≡ ok sent
        → written sent ≡ []
    by_send true e s none_written h = subst (λ l. written l ≡ []) (ok_same h) none_written
    by_send false e s none_written h = cc

    by_action : (act : RuleAction) → act_on ch packet act ≡ ok sent → written sent ≡ []
    by_action direct h = by_send ch.direct_proxy_tx_open _ (to_direct packet) refl h
    by_action proxy h = by_send ch.tun_tx_open _ (to_transport packet) refl h
    by_action reject h = subst (λ l. written l ≡ []) (ok_same h) refl

    by_context :
        (o : Option PacketContext)
        → (route_context t ch now cache packet o).result ≡ ok sent
        → written sent ≡ []
    by_context none h = by_send ch.tun_tx_open _ (to_transport packet) refl h
    by_context (some ctx) h = by_action _ h

wrote :
    (write_ok : Bool) (e : TaskError) (packet : Bytes) (sent : List Sent)
    → send write_ok e (to_tun packet) ≡ ok sent
    → written sent ≡ packet ∷ []
wrote true e packet sent h = subst (λ l. written l ≡ packet ∷ []) (ok_same h) refl
wrote false e packet sent h = cc

-- A turn that goes well writes what it received.
written-turn :
    (t : Task) (cache : DomainCache) (e : Event) (sent : List Sent)
    → (turn t cache e).result ≡ ok sent
    → written sent ≡ received (e ∷ [])
unfolding turn
written-turn t cache (transport_received packet clock write_ok) sent h =
    wrote write_ok _ packet sent h
written-turn t cache (direct_received packet clock write_ok) sent h = wrote write_ok _ packet sent h
written-turn t cache transport_closed sent h = cc
written-turn t cache direct_closed sent h = cc
written-turn t cache (tun_read packet now ch) sent h = routed_elsewhere t ch now cache packet sent h
written-turn t cache tun_failed sent h = cc

received_cons : (e : Event) (es : List Event) → received (e ∷ es) ≡ received (e ∷ []) ++ received es
received_cons (transport_received packet clock write_ok) es = refl
received_cons (direct_received packet clock write_ok) es = refl
received_cons transport_closed es = refl
received_cons direct_closed es = refl
received_cons (tun_read packet now ch) es = refl
received_cons tun_failed es = refl

-- The written packets are the first of those received, and all of them if no error came.
abbrev pub IsInOrder : List Event → Run → Type 0
IsInOrder es run =
    (rest : List Bytes) × (received es ≡ written run.sent ++ rest)
    × ((rest ≡ []) ⊎ (run.error ≢ none))

after_turn-IsInOrder :
    (e : Event) (es : List Event) (result : Result (List Sent) TaskError) (rest : Run)
    → ((sent : List Sent) → result ≡ ok sent → written sent ≡ received (e ∷ []))
    → IsInOrder es rest
    → IsInOrder (e ∷ es) (after_turn result rest)
after_turn-IsInOrder e es (ok sent) rest wrote_all (left, same, whole) = (
  left,
  received_cons e es
      ∙ ap (λ l. l ++ received es) (sym (wrote_all sent refl))
      ∙ ap (λ l. written sent ++ l) same
      ∙ sym (append_assoc (written sent) (written rest.sent) left)
      ∙ ap (λ l. l ++ left) (sym (written-append sent rest.sent)),
  whole,
)
after_turn-IsInOrder e es (err error) rest wrote_all _ = (received (e ∷ es), refl, inr (λ h. cc))

loop-IsInOrder : (t : Task) (cache : DomainCache) (es : List Event) → IsInOrder es (loop t cache es)
unfolding loop
loop-IsInOrder t cache [] = ([], refl, inl refl)
loop-IsInOrder t cache (e ∷ es) =
    after_turn-IsInOrder e es (turn t cache e).result _ (written-turn t cache e)
      (loop-IsInOrder t (turn t cache e).cache es)

-- Over a run of the task, the packets written to the TUN device are those that the transport and the
-- direct proxy delivered, each once and in the order of delivery: all of them, or, if an error ended
-- the run, the first of them.
pub tun_io_task-IsInOrder : (t : Task) (es : List Event) → IsInOrder es (tun_io_task t es)
unfolding tun_io_task
tun_io_task-IsInOrder t es = loop-IsInOrder t new_cache es
