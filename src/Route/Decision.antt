-- ===== src/Route/Decision.antt =====
-- Where `handle_packet_route` of src/common.rs sends a packet.
use easynet.Prelude.{ℕ, ◌≡◌, refl, ap, ◌∙◌, ◌↔◌, true, some, List, [], ◌∷◌, ok}
use easynet.Message.{Bytes}
use easynet.Rule.{RuleAction, direct, proxy, reject}
use easynet.Context.{PacketContext, with_domains, from_ip_packet}
use easynet.Engine.FirstMatch.{IsDecision, match_packet_iff}
use easynet.DomainCache.{DomainCache, lookup}
use easynet.Route.{Task, Channels, Sent, to_transport, to_direct, act_on, handle_packet_route}

abbrev pub all_open : Channels
all_open = record { tun_tx_open = true; direct_proxy_tx_open = true }

-- What an action asks for.
abbrev pub sends : RuleAction → Bytes → List Sent
sends direct packet = to_direct packet ∷ []
sends proxy packet = to_transport packet ∷ []
sends reject packet = []

sends_inj :
    (packet : Bytes) (a b : RuleAction) → act_on all_open packet a ≡ ok (sends b packet) → a ≡ b
sends_inj packet direct direct h = refl
sends_inj packet proxy proxy h = refl
sends_inj packet reject reject h = refl
sends_inj packet _ _ h = cc

sends_open : (packet : Bytes) (a : RuleAction) → act_on all_open packet a ≡ ok (sends a packet)
sends_open packet direct = refl
sends_open packet proxy = refl
sends_open packet reject = refl

-- With both channels open, an IPv4 packet goes where an action asks exactly when the action is that
-- of the first rule that matches the packet under the domains that are live for its destination, or,
-- if no rule matches, the direct one. The packet is sent at most once, and none other is.
pub handle_packet_route_iff :
    (t : Task) (now : ℕ) (cache : DomainCache) (packet : Bytes) (ctx : PacketContext)
    (act : RuleAction)
    → from_ip_packet t.slicer packet ≡ some ctx
    → ((handle_packet_route t all_open now cache packet).result ≡ ok (sends act packet))
      ↔ IsDecision t.parsers
          (t.rules_engine).geoip
          (with_domains ctx (lookup cache now ctx.dst_ip).0)
          (t.rules_engine).rules
          act
unfolding handle_packet_route
handle_packet_route_iff t now cache packet ctx act sliced = rw sliced (
  λ h. (match_packet_iff t.parsers t.rules_engine p act).0 (sends_inj packet _ act h),
  λ d.
      ap (act_on all_open packet) ((match_packet_iff t.parsers t.rules_engine p act).1 d)
      ∙ sends_open packet act,
)
  where
    p : PacketContext
    p = with_domains ctx (lookup cache now ctx.dst_ip).0
