-- ===== src/Route.antt =====
-- src/common.rs: the task between the TUN device, the transport and the direct proxy. Each turn of
-- its loop takes one event; the order in which `select!` picks them is the order of the list.
pub mod Decision
pub mod Flow
pub mod Tests
use easynet.Prelude.{
  ℕ, Bool, true, false, Option, none, some, List, [], ◌∷◌, ◌++◌, Result, ok, err, if◌then◌else◌,
}
use easynet.Message.{Bytes}
use easynet.Rule.{RuleAction, direct, proxy, reject}
use easynet.Context.{Slicer, PacketContext, with_domains, from_ip_packet}
use easynet.Config.{Parsers}
use easynet.Engine.{RulesEngine, match_packet}
use easynet.DomainCache.{DomainCache, DnsParser, new_cache, lookup, observe_packet}

-- What leaves the task: to the transport, to the direct proxy, and to the TUN device.
pub data Sent : Type 0 where
  to_transport to_direct to_tun : Bytes → Sent

pub data TaskError : Type 0 where
  transport_send_failed direct_send_failed tun_write_failed tun_read_failed : TaskError
  channel_disconnected direct_channel_disconnected : TaskError

-- What the task is built with, the crates' parsers included.
pub record Task : Type 0 where
  pub slicer : Slicer
  pub dns : DnsParser
  pub parsers : Parsers
  pub rules_engine : RulesEngine

-- Whether the ends of the channels out of the task are open.
pub record Channels : Type 0 where
  pub tun_tx_open : Bool
  pub direct_proxy_tx_open : Bool

pub record Turn : Type 0 where
  pub result : Result (List Sent) TaskError
  pub cache : DomainCache

abbrev pub send : Bool → TaskError → Sent → Result (List Sent) TaskError
send is_open e s = if is_open then ok (s ∷ []) else err e

abbrev pub act_on : Channels → Bytes → RuleAction → Result (List Sent) TaskError
act_on ch packet direct = send ch.direct_proxy_tx_open direct_send_failed (to_direct packet)
act_on ch packet proxy = send ch.tun_tx_open transport_send_failed (to_transport packet)
act_on ch packet reject = ok []

abbrev route_context : Task → Channels → ℕ → DomainCache → Bytes → Option PacketContext → Turn
route_context t ch now cache packet none = record {
  result = send ch.tun_tx_open transport_send_failed (to_transport packet);
  cache = cache;
}
route_context t ch now cache packet (some ctx) =
    let (domains, cache') = lookup cache now ctx.dst_ip in
    record {
      result = act_on ch packet (match_packet t.parsers t.rules_engine (with_domains ctx domains));
      cache = cache';
    }

unfoldable pub handle_packet_route : Task → Channels → ℕ → DomainCache → Bytes → Turn
handle_packet_route t ch now cache packet =
    route_context t ch now cache packet (from_ip_packet t.slicer packet)

-- One outcome of `select!`: a channel's receive, with the clock that the DNS answers are entered by
-- and whether the write to the TUN device succeeds, or a read of the device.
pub data Event : Type 0 where
  transport_received direct_received : Bytes → (ℕ → ℕ) → Bool → Event
  transport_closed direct_closed : Event
  tun_read : Bytes → ℕ → Channels → Event
  tun_failed : Event

abbrev write_tun : Task → DomainCache → Bytes → (ℕ → ℕ) → Bool → Turn
write_tun t cache packet clock write_ok = record {
  result = send write_ok tun_write_failed (to_tun packet);
  cache = observe_packet t.slicer t.dns cache clock packet;
}

-- The body of the loop of `tun_io_task`.
unfoldable pub turn : Task → DomainCache → Event → Turn
unfolding handle_packet_route
turn t cache (transport_received packet clock write_ok) = write_tun t cache packet clock write_ok
turn t cache (direct_received packet clock write_ok) = write_tun t cache packet clock write_ok
turn t cache transport_closed = record { result = err channel_disconnected; cache = cache }
turn t cache direct_closed = record { result = err direct_channel_disconnected; cache = cache }
turn t cache (tun_read packet now ch) = handle_packet_route t ch now cache packet
turn t cache tun_failed = record { result = err tun_read_failed; cache = cache }

-- What a run sent, and the error that ended it, if one did.
pub record Run : Type 0 where
  pub sent : List Sent
  pub error : Option TaskError

abbrev pub after_turn : Result (List Sent) TaskError → Run → Run
after_turn (ok sent) rest = record { sent = sent ++ rest.sent; error = rest.error }
after_turn (err e) rest = record { sent = []; error = some e }

-- The loop of `tun_io_task` over the events of a run, and from the empty cache on.
unfoldable pub loop : Task → DomainCache → List Event → Run
unfolding turn
loop t cache [] = record { sent = []; error = none }
loop t cache (e ∷ es) = let out = turn t cache e in after_turn out.result (loop t out.cache es)

unfoldable pub tun_io_task : Task → List Event → Run
unfolding loop
tun_io_task t events = loop t new_cache events
