-- ===== src/Config/Tests.antt =====
-- Runs of the port parser and the validator, and their theorems at concrete inputs.
use easynet.Prelude.{◌≡◌, refl, some, none, [], ◌∷◌, ok, err}
use easynet.Text.{Text, codes, to_ascii_lowercase, u16_max}
use easynet.Text
use easynet.Rule.{proxy, reject, new_rule, has_conditions}
use easynet.Rule.Parse.{is_bad_char}
use easynet.Config.{
  Parsers, RulesConfig, ConfigError, default_rules, parse_port_range, range_of_parts, validate,
  validate_from, validate_rule, validate_domain_rule_value, validation_error, empty_value,
}
use easynet.Config.FirstBad.{IsFirstBad, validate-IsFirstBad}

range_runs : parse_port_range (codes "80-443") ≡ ok (80, 443)
unfolding parse_port_range range_of_parts Text.split Text.has_char Text.parse_u16
    Text.parse_unsigned Text.scan_digits
range_runs = refl

abbrev parsers : Parsers
parsers = record {
  unicode = record { to_lowercase = to_ascii_lowercase; to_lowercase_ascii = λ s h. refl };
  parse_network = λ s. none;
}

abbrev two_rules : RulesConfig
two_rules = record default_rules {
  rules =
      record (new_rule proxy) { domain = some (codes "a.b") }
      ∷ record (new_rule reject) { domain = some [] }
      ∷ [];
}

abbrev second_empty : ConfigError
second_empty = validation_error 1 (empty_value (codes "DOMAIN"))

validate_runs : validate parsers two_rules ≡ err second_empty
unfolding validate validate_from validate_rule validate_domain_rule_value has_conditions is_bad_char
validate_runs = refl

validate-IsFirstBad_example : IsFirstBad parsers 0 two_rules.rules second_empty
validate-IsFirstBad_example = validate-IsFirstBad parsers two_rules second_empty validate_runs
