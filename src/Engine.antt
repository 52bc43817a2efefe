-- ===== src/Engine.antt =====
-- src/rules/engine.rs: the first matching rule decides.
pub mod FirstMatch
pub mod Tests
use easynet.Prelude.{
  ℕ, ◌≡◌, refl, Bool, true, false, Option, List, [], ◌∷◌, if◌then◌else◌, length, Result, ok, err,
  ◌>>=◌, ◌>>◌,
}
use easynet.Text.{Text}
use easynet.Rule.{RuleAction, direct, Rule}
use easynet.Context.{PacketContext}
use easynet.Geoip.{GeoIpMatcher, Reader, load}
use easynet.Config.{Parsers, RulesConfig, ConfigError, validate, from_yaml}
use easynet.Matcher.{matches}

pub record RulesEngine : Type 0 where
  pub rules : List Rule
  pub geoip : GeoIpMatcher

-- `from_config`, over the crate's `Reader::open_readfile`.
unfoldable pub from_config :
    Parsers → (Text → Option Reader) → RulesConfig → Result RulesEngine ConfigError
from_config ps open_readfile config = do
  validate ps config
  ok (record { rules = config.rules; geoip = load open_readfile config.geoip_path })

-- `from_file`, behind the reading of the file and of its YAML.
unfoldable pub from_file :
    Parsers → (Text → Option Reader) → List Text → Result RulesEngine ConfigError
unfolding from_config
from_file ps open_readfile raws = do config ← from_yaml ps raws; from_config ps open_readfile config

-- The loop of `match_packet`.
unfoldable pub match_rules : Parsers → GeoIpMatcher → PacketContext → List Rule → RuleAction
match_rules ps geoip packet [] = direct
match_rules ps geoip packet (rule ∷ rules) =
    if matches ps rule packet geoip then rule.action else match_rules ps geoip packet rules

unfoldable pub match_packet : Parsers → RulesEngine → PacketContext → RuleAction
unfolding match_rules
match_packet ps engine packet = match_rules ps engine.geoip packet engine.rules

unfoldable pub rule_count : RulesEngine → ℕ
rule_count engine = length engine.rules
