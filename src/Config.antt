-- ===== src/Config.antt =====
-- src/config.rs: the rule configuration, its validation, port ranges and the lists of DNS servers.
-- YAML decoding (`serde_yaml`) hands over the sequence of rule texts; `Ipv4Network` is a crate's.
pub mod Ports
pub mod Validate
pub mod FirstBad
pub mod Tests
use easynet.Prelude.{
  ℕ, ◌+◌, ◌≡◌, refl, Bool, true, false, Option, none, some, List, [], ◌∷◌, ◌++◌, map, leb,
  if◌then◌else◌, is_empty, any, Result, ok, err, ◌>>=◌, ◌>>◌, guard, not, is_ok, map_err,
}
use easynet.Text.{Text, codes, Unicode, trim, split, has_char, parse_u16}
use easynet.Net.{Ipv4Addr}
use easynet.Rule.{RuleAction, reject, Rule, protocol_from_str, is_some, has_conditions, comma}
use easynet.Rule.Parse.{RuleError, parse_compact, is_bad_char}

pub data PortError : Type 0 where
  range_format bad_start bad_end start_after_end bad_port : PortError

abbrev or_error {ℓ κ} : {A : Type ℓ} {E : Type κ} → E → Option A → Result A E
or_error e none = err e
or_error e (some a) = ok a

-- The parts of a text that holds a dash.
unfoldable pub range_of_parts : List Text → Result (ℕ × ℕ) PortError
range_of_parts (first ∷ last ∷ []) = do
  start ← or_error bad_start (parse_u16 first)
  stop ← or_error bad_end (parse_u16 last)
  guard (leb start stop) start_after_end
  ok (start, stop)
range_of_parts _ = err range_format

unfoldable pub parse_port_range : Text → Result (ℕ × ℕ) PortError
parse_port_range s =
    if has_char b'-' s
    then range_of_parts (split b'-' s)
    else do port ← or_error bad_port (parse_u16 s); ok (port, port)

-- `Ipv4Network` of the crate `ipnetwork`, by what is asked of it.
pub record Ipv4Network : Type 0 where
  pub contains : Ipv4Addr → Bool

pub record RulesConfig : Type 0 where
  pub default_action : RuleAction
  pub rules : List Rule
  pub geoip_path : Option Text

-- `RulesConfig::default`, and `default_rules`.
abbrev pub default_rules : RulesConfig
default_rules = record { default_action = reject; rules = []; geoip_path = none }

-- Why a rule is refused. The number is the index of the rule.
pub data Reason : Type 0 where
  no_conditions : Reason
  invalid_proto : Text → Reason
  empty_value : Text → Reason
  invalid_value : Text → Text → Reason

pub data ConfigError : Type 0 where
  parse_error : RuleError → ConfigError
  validation_error : ℕ → Reason → ConfigError
  invalid_cidr : ℕ → Text → ConfigError
  invalid_port_range : ℕ → Text → PortError → ConfigError

abbrev pub Check : Type 0
Check = Result (Unit {0}) ConfigError

-- `if let Some(value) = …`.
abbrev pub if_some : Option Text → (Text → Check) → Check
if_some none f = ok tt
if_some (some v) f = f v

-- `validate_domain_rule_value`, and `validate_geoip_rule_value`, which has the same two tests.
unfoldable pub validate_domain_rule_value : ℕ → Text → Text → Check
unfolding is_bad_char
validate_domain_rule_value index field value =
    if is_empty value
    then err (validation_error index (empty_value field))
    else if any is_bad_char value
    then err (validation_error index (invalid_value field value))
    else ok tt

unfoldable pub validate_geoip_rule_value : ℕ → Text → Check
unfolding is_bad_char
validate_geoip_rule_value index value =
    if is_empty value
    then err (validation_error index (empty_value (codes "GEOIP")))
    else if any is_bad_char value
    then err (validation_error index (invalid_value (codes "GEOIP") value))
    else ok tt

-- What the configuration takes from outside: the letter tables and the network parser.
pub record Parsers : Type 0 where
  pub unicode : Unicode
  pub parse_network : Text → Option Ipv4Network

-- `if let Err(e) = parse_port_range(port)`.
abbrev pub check_port : ℕ → Text → Result (ℕ × ℕ) PortError → Check
check_port index port (ok r) = ok tt
check_port index port (err e) = err (invalid_port_range index port e)

module _ (ps : Parsers) where
  unfoldable pub validate_cidr : ℕ → Text → Check
  validate_cidr index cidr =
      if is_some (ps.parse_network cidr) then ok tt else err (invalid_cidr index cidr)

  unfoldable pub validate_port : ℕ → Text → Check
  validate_port index port = check_port index port (parse_port_range port)

  unfoldable pub validate_proto : ℕ → Text → Check
  validate_proto index proto =
      if is_some (protocol_from_str ps.unicode proto)
      then ok tt
      else err (validation_error index (invalid_proto proto))

  -- The body of the loop of `validate`.
  unfoldable pub validate_rule : ℕ → Rule → Check
  validate_rule index rule = do
    guard (has_conditions rule) (validation_error index no_conditions)
    if_some rule.src_ip_cidr (validate_cidr index)
    if_some rule.dst_ip_cidr (validate_cidr index)
    if_some rule.src_port (validate_port index)
    if_some rule.dst_port (validate_port index)
    if_some rule.proto (validate_proto index)
    if_some rule.domain (validate_domain_rule_value index (codes "DOMAIN"))
    if_some rule.domain_suffix (validate_domain_rule_value index (codes "DOMAIN-SUFFIX"))
    if_some rule.domain_keyword (validate_domain_rule_value index (codes "DOMAIN-KEYWORD"))
    if_some rule.geoip (validate_geoip_rule_value index)

  unfoldable pub validate_from : ℕ → List Rule → Check
  validate_from index [] = ok tt
  validate_from index (rule ∷ rules) = do validate_rule index rule; validate_from (index + 1) rules

  unfoldable pub validate : RulesConfig → Check
  unfolding validate_from
  validate config = validate_from 0 config.rules

-- The loop of `visit_seq`, over the texts of the sequence.
unfoldable pub parse_rules : List Text → Result (List Rule) RuleError
parse_rules [] = ok []
parse_rules (raw ∷ raws) = do rule ← parse_compact raw; rules ← parse_rules raws; ok (rule ∷ rules)

-- `RulesVisitor::visit_seq`.
unfoldable pub visit_seq : List Text → Result RulesConfig RuleError
unfolding parse_rules
visit_seq raws = do rules ← parse_rules raws; ok (record default_rules { rules = rules })

-- `RulesConfig::from_yaml`, behind the YAML reader.
unfoldable pub from_yaml : Parsers → List Text → Result RulesConfig ConfigError
unfolding visit_seq validate
from_yaml ps raws = do config ← map_err parse_error (visit_seq raws); validate ps config; ok config
