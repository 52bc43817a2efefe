-- ===== src/Engine/Tests.antt =====
-- The decision of the engine for a concrete packet.
use easynet.Prelude.{◌≡◌, refl, ◌↔◌, some, none, [], ◌∷◌, true}
use easynet.Text.{codes, to_ascii_lowercase}
use easynet.Net.{octets}
use easynet.Rule.{proxy, reject, new_rule, udp}
use easynet.Context.{PacketContext, new_context, with_domains}
use easynet.Geoip.{without_database}
use easynet.Config.{Parsers}
use easynet.Engine.{RulesEngine, match_packet}
use easynet.Engine.FirstMatch.{IsDecision, match_packet_iff}

abbrev parsers : Parsers
parsers = record {
  unicode = record { to_lowercase = to_ascii_lowercase; to_lowercase_ascii = λ s h. refl };
  parse_network = λ s. none;
}

abbrev packet : PacketContext
packet =
    with_domains (new_context (octets 10 0 0 2) (octets 8 8 8 8) (some 5000) (some 53) udp)
      (codes "a.b" ∷ [])

abbrev engine : RulesEngine
engine = record {
  rules =
      record (new_rule proxy) { domain = some (codes "c.d") }
      ∷ record (new_rule reject) { match_all = true }
      ∷ [];
  geoip = without_database;
}

match_packet_iff_example :
    (match_packet parsers engine packet ≡ reject)
    ↔ IsDecision parsers without_database packet engine.rules reject
match_packet_iff_example = match_packet_iff parsers engine packet reject
