-- ===== src/Matcher/Tests.antt =====
-- The theorems on conditions at concrete rules and packets.
use easynet.Prelude.{true, ◌↔◌, ◌≡◌, refl, some, none, List, [], ◌∷◌, arith, ok}
use easynet.Text.{Text, codes, to_ascii_lowercase}
use easynet.Net.{octets}
use easynet.Rule.{display_action, Rule, proxy, udp}
use easynet.Rule.Parse.{parse_compact}
use easynet.Context.{PacketContext, new_context, with_domains}
use easynet.Geoip.{without_database}
use easynet.Config.{Parsers}
use easynet.Config.Ports.{IsPort}
use easynet.Matcher.{matches}
use easynet.Matcher.Conditions.{IsWithin, parse_compact-matches}

abbrev seen : List Text
seen = codes "www.example.com" ∷ codes "example.org" ∷ []

abbrev parsers : Parsers
parsers = record {
  unicode = record { to_lowercase = to_ascii_lowercase; to_lowercase_ascii = λ s h. refl };
  parse_network = λ s. none;
}

abbrev packet : PacketContext
packet =
    with_domains (new_context (octets 10 0 0 2) (octets 8 8 8 8) (some 5000) (some 53) udp) seen

low_text-IsPort : IsPort (codes "50")
low_text-IsPort = record {
  filled = λ e. cc;
  digits = ((omega arith, omega arith), ((omega arith, omega arith), tt));
  fits = omega arith;
}

high_text-IsPort : IsPort (codes "60")
high_text-IsPort = record {
  filled = λ e. cc;
  digits = ((omega arith, omega arith), ((omega arith, omega arith), tt));
  fits = omega arith;
}

parse_compact-matches_example :
    ((r : Rule) × (parse_compact (codes "SRC-PORT,50-60,Proxy") ≡ ok r)
      × (r.action ≡ proxy)
      × ((matches parsers r packet without_database ≡ true)
          ↔ IsWithin (codes "50") (codes "60") (some 5000)))
    × ((r : Rule) × (parse_compact (codes "DST-PORT,50-60,Proxy") ≡ ok r)
        × (r.action ≡ proxy)
        × ((matches parsers r packet without_database ≡ true)
            ↔ IsWithin (codes "50") (codes "60") (some 53)))
unfolding display_action
parse_compact-matches_example =
    parse_compact-matches (codes "50") (codes "60") proxy parsers without_database packet
      low_text-IsPort high_text-IsPort
