-- ===== src/Rule/Tests.antt =====
-- Runs of the rule parser and printer, and its theorems at a concrete rule.
use easynet.Prelude.{◌≡◌, refl, some, true, ok, err}
use easynet.Text.{codes}
use easynet.Text
use easynet.Rule.{Rule, proxy, direct, reject, new_rule, display_rule, write_rule, write_match}
use easynet.Rule.RoundTrip.{parse_compact-display_rule}
use easynet.Rule.Parse.{
  parse_compact, parse_parts, build_rule, field_of, parse_action, parse_field_rule_parts,
  parse_domain_rule_parts, normalize_domain_rule_value, parse_geoip_rule_parts,
  normalize_geoip_rule_value, is_bad_char, unknown_action, match_format,
}

parser : Unit {0}
unfolding parse_compact parse_parts build_rule field_of parse_action parse_field_rule_parts
    parse_domain_rule_parts normalize_domain_rule_value parse_geoip_rule_parts
    normalize_geoip_rule_value is_bad_char Text.split Text.trim Text.trim_end_matches
    Text.to_ascii_lowercase Text.to_ascii_uppercase Text.text_eq display_rule write_rule write_match
parser = tt

abbrev suffix_rule : Rule
suffix_rule = record (new_rule proxy) { domain_suffix = some (codes "example.com") }

parse_domain : parse_compact (codes " domain-suffix , Example.COM. ,PROXY") ≡ ok suffix_rule
unfolding parser
parse_domain = refl

pub parse_match :
    parse_compact (codes "MATCH,drop") ≡ ok (record (new_rule reject) { match_all = true })
unfolding parser
parse_match = refl

parse_match_three : parse_compact (codes "MATCH,a,drop") ≡ err match_format
unfolding parser
parse_match_three = refl

parse_bad_action : parse_compact (codes "PROTO,tcp,allow") ≡ err (unknown_action (codes "allow"))
unfolding parser
parse_bad_action = refl

display_geoip :
    display_rule (record (new_rule direct) { geoip = some (codes "CN") }) ≡ codes "GEOIP,CN,Direct"
unfolding parser
display_geoip = refl

parse_compact-display_rule_example : parse_compact (display_rule suffix_rule) ≡ ok suffix_rule
parse_compact-display_rule_example =
    parse_compact-display_rule (codes " domain-suffix , Example.COM. ,PROXY") suffix_rule
      parse_domain
