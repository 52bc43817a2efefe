-- ===== src/Rule/RoundTrip.antt =====
-- Printing a parsed rule and parsing the text again.
use easynet.Prelude.{
  ◌≡◌, refl, sym, ◌∙◌, true, List, [], ◌∷◌, map, arith, ok, is_empty_of_ne, subst,
}
use easynet.Text.{Text, trim, split, to_ascii_uppercase}
use easynet.Text.Split.{Lacks, split_cons, split_last}
use easynet.Rule.{
  RuleAction, direct, proxy, reject, Rule, comma, has_conditions, display_action, display_rule,
  write_rule, write_match,
}
use easynet.Rule.Parse.{
  Field, match_all, src_ip_cidr, dst_ip_cidr, src_port, dst_port, proto, domain, domain_suffix,
  domain_keyword, geoip, parse_action, parse_field_rule_parts, parse_domain_rule_parts,
  parse_geoip_rule_parts, build_rule, parse_parts, parse_compact, field_of, field_name,
}
use easynet.Rule.Shape.{IsPart, IsValue, rule_of}
use easynet.Rule.Compact.{parse_compact-IsCompact}

parse_action-display_action : (a : RuleAction) → parse_action (display_action a) ≡ ok a
unfolding parse_action display_action
parse_action-display_action direct = refl
parse_action-display_action proxy = refl
parse_action-display_action reject = refl

display_action-Lacks : (a : RuleAction) → Lacks comma (display_action a)
unfolding display_action
display_action-Lacks direct = omega arith
display_action-Lacks proxy = omega arith
display_action-Lacks reject = omega arith

display_action-trim : (a : RuleAction) → trim (display_action a) ≡ display_action a
unfolding display_action trim
display_action-trim direct = refl
display_action-trim proxy = refl
display_action-trim reject = refl

field_name-Lacks : (f : Field) → Lacks comma (field_name f)
field_name-Lacks match_all = omega arith
field_name-Lacks src_ip_cidr = omega arith
field_name-Lacks dst_ip_cidr = omega arith
field_name-Lacks src_port = omega arith
field_name-Lacks dst_port = omega arith
field_name-Lacks proto = omega arith
field_name-Lacks domain = omega arith
field_name-Lacks domain_suffix = omega arith
field_name-Lacks domain_keyword = omega arith
field_name-Lacks geoip = omega arith

field_name-trim : (f : Field) → trim (field_name f) ≡ field_name f
unfolding trim
field_name-trim match_all = refl
field_name-trim src_ip_cidr = refl
field_name-trim dst_ip_cidr = refl
field_name-trim src_port = refl
field_name-trim dst_port = refl
field_name-trim proto = refl
field_name-trim domain = refl
field_name-trim domain_suffix = refl
field_name-trim domain_keyword = refl
field_name-trim geoip = refl

-- The name of a field leads to its arm.
parse_parts_named :
    (f : Field) (rest : List Text)
    → parse_parts (field_name f ∷ rest) ≡ build_rule f (field_name f ∷ rest)
unfolding parse_parts field_of to_ascii_uppercase
parse_parts_named match_all rest = refl
parse_parts_named src_ip_cidr rest = refl
parse_parts_named dst_ip_cidr rest = refl
parse_parts_named src_port rest = refl
parse_parts_named dst_port rest = refl
parse_parts_named proto rest = refl
parse_parts_named domain rest = refl
parse_parts_named domain_suffix rest = refl
parse_parts_named domain_keyword rest = refl
parse_parts_named geoip rest = refl

parts_of_rule :
    (f : Field) (v : Text) (a : RuleAction)
    → IsPart v
    → map trim (split comma (write_rule (field_name f) v a))
      ≡ field_name f ∷ v ∷ display_action a ∷ []
unfolding write_rule
parts_of_rule f v a part = rw (
  split_cons comma (field_name f) _ (field_name-Lacks f),
  split_cons comma v _ part.no_comma,
  split_last comma (display_action a) (display_action-Lacks a),
  field_name-trim f,
  part.trimmed,
  display_action-trim a,
)

parse_field_rule_parts-value :
    (name field v : Text) (a : RuleAction)
    → IsPart v
    → parse_field_rule_parts (name ∷ v ∷ display_action a ∷ []) field ≡ ok (v, a)
unfolding parse_field_rule_parts
parse_field_rule_parts-value name field v a part =
    rw (is_empty_of_ne v part.filled, parse_action-display_action a)

-- A written rule with a part for its value is parsed by the arm of its field.
parse_written :
    (f : Field) (v : Text) (a : RuleAction)
    → IsPart v
    → parse_compact (write_rule (field_name f) v a)
      ≡ build_rule f (field_name f ∷ v ∷ display_action a ∷ [])
unfolding parse_compact
parse_written f v a part = rw (parts_of_rule f v a part) (parse_parts_named f _)

parse_match : (a : RuleAction) → parse_compact (write_match a) ≡ ok (rule_of match_all [] a)
unfolding parse_compact write_match parse_parts field_of build_rule split trim parse_action
    to_ascii_uppercase
parse_match direct = refl
parse_match proxy = refl
parse_match reject = refl

-- Parsing the print of a rule with one normal condition.
pub parse_compact-rule_of :
    (f : Field) (v : Text) (a : RuleAction)
    → IsValue f v
    → parse_compact (display_rule (rule_of f v a)) ≡ ok (rule_of f v a)
unfolding display_rule build_rule parse_domain_rule_parts parse_geoip_rule_parts
parse_compact-rule_of match_all v a h = parse_match a
parse_compact-rule_of src_ip_cidr v a h =
    parse_written src_ip_cidr v a h ∙ rw (parse_field_rule_parts-value _ _ v a h)
parse_compact-rule_of dst_ip_cidr v a h =
    parse_written dst_ip_cidr v a h ∙ rw (parse_field_rule_parts-value _ _ v a h)
parse_compact-rule_of src_port v a h =
    parse_written src_port v a h ∙ rw (parse_field_rule_parts-value _ _ v a h)
parse_compact-rule_of dst_port v a h =
    parse_written dst_port v a h ∙ rw (parse_field_rule_parts-value _ _ v a h)
parse_compact-rule_of proto v a h =
    parse_written proto v a h ∙ rw (parse_field_rule_parts-value _ _ v a h)
parse_compact-rule_of domain v a h =
    parse_written domain v a h.0 ∙ rw (parse_field_rule_parts-value _ _ v a h.0, h.1)
parse_compact-rule_of domain_suffix v a h =
    parse_written domain_suffix v a h.0 ∙ rw (parse_field_rule_parts-value _ _ v a h.0, h.1)
parse_compact-rule_of domain_keyword v a h =
    parse_written domain_keyword v a h.0 ∙ rw (parse_field_rule_parts-value _ _ v a h.0, h.1)
parse_compact-rule_of geoip v a h =
    parse_written geoip v a h.0 ∙ rw (parse_field_rule_parts-value _ _ v a h.0, h.1)

-- A parsed rule is printed as a text that is parsed to the same rule.
pub parse_compact-display_rule :
    (s : Text) (r : Rule) → parse_compact s ≡ ok r → parse_compact (display_rule r) ≡ ok r
parse_compact-display_rule s r h =
    let (f, v, a, value, same) = parse_compact-IsCompact s r h in
    subst (λ q. parse_compact (display_rule q) ≡ ok q) (sym same)
      (parse_compact-rule_of f v a value)

rule_of-has_conditions :
    (f : Field) (v : Text) (a : RuleAction) → has_conditions (rule_of f v a) ≡ true
unfolding has_conditions
rule_of-has_conditions match_all v a = refl
rule_of-has_conditions _ v a = refl

-- No parsed rule is without a condition, so validation never refuses a parsed rule for that.
pub parse_compact-has_conditions :
    (s : Text) (r : Rule) → parse_compact s ≡ ok r → has_conditions r ≡ true
parse_compact-has_conditions s r h =
    let (f, v, a, value, same) = parse_compact-IsCompact s r h in
    rw same (rule_of-has_conditions f v a)
