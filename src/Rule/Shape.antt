-- ===== src/Rule/Shape.antt =====
-- What a rule looks like that `Rule::parse_compact` returns: one condition, whose value is normal.
use easynet.Prelude.{
  ℕ, ◌≡◌, ap, ◌≢◌, ◌∙◌, true, false, some, [], ◌==◌, arith, is_empty, any, Result, ok, All-imp,
  any-false, not_empty, subst,
}
use easynet.Text.{
  Text, trim, trim_end_matches, strip_end, to_ascii_lowercase, to_ascii_uppercase, is_whitespace,
}
use easynet.Text.Trim.{trim_none, strip_end_idem}
use easynet.Text.Case.{to_ascii_lowercase_idem, to_ascii_uppercase_idem, trim_end_matches-lower}
use easynet.Text.Split.{Lacks}
use easynet.Rule.{RuleAction, Rule, new_rule, comma}
use easynet.Rule.Parse.{
  Field, match_all, src_ip_cidr, dst_ip_cidr, src_port, dst_port, proto, domain, domain_suffix,
  domain_keyword, geoip, RuleError, is_bad_char, normalize_domain_rule_value,
  normalize_geoip_rule_value,
}

-- A text that can stand between two commas of a rule and is read back unchanged.
pub record IsPart (v : Text) : Type 0 where
  pub no_comma : Lacks comma v
  pub trimmed : trim v ≡ v
  pub filled : v ≢ []

bad_char_parts : (c : ℕ) → is_bad_char c ≡ false → (is_whitespace c ≡ false) × (c ≢ comma)
unfolding is_bad_char
bad_char_parts c h = ground arith

clean-IsPart : (v : Text) → any is_bad_char v ≡ false → v ≢ [] → IsPart v
clean-IsPart v h ne =
    let clean = any-false is_bad_char v h in
    record {
      no_comma = All-imp v (λ c e. (bad_char_parts c e).1) clean;
      trimmed = trim_none v (All-imp v (λ c e. (bad_char_parts c e).0) clean);
      filled = ne;
    }

-- A normal value: it is a part, and normalising it again changes nothing.
abbrev pub IsNormalBy : (Text → Result Text RuleError) → Text → Type 0
IsNormalBy normalize v = IsPart v × (normalize v ≡ ok v)

lower_stable :
    (v : Text)
    → let d = to_ascii_lowercase (trim_end_matches b'.' v) in
      to_ascii_lowercase (trim_end_matches b'.' d) ≡ d
unfolding trim_end_matches
lower_stable v =
    ap to_ascii_lowercase (trim_end_matches-lower (strip_end (λ c. c == b'.') v))
    ∙ to_ascii_lowercase_idem (trim_end_matches b'.' (strip_end (λ c. c == b'.') v))
    ∙ ap to_ascii_lowercase (strip_end_idem (λ c. c == b'.') v)

pub normalize_domain_rule_value-IsNormal :
    (v d : Text) → normalize_domain_rule_value v ≡ ok d → IsNormalBy normalize_domain_rule_value d
unfolding normalize_domain_rule_value
normalize_domain_rule_value-IsNormal v d h =
    let lower = to_ascii_lowercase (trim_end_matches b'.' (trim v)) in
    let empty : is_empty lower ≡ false = ground arith in
    let clean : any is_bad_char lower ≡ false = ground arith in
    let same : lower ≡ d = ground arith in
    let part = clean-IsPart lower clean (not_empty lower empty) in
    subst (IsNormalBy normalize_domain_rule_value) same
      (part, rw (part.trimmed, lower_stable (trim v), empty, clean, normalize_domain_rule_value))

pub normalize_geoip_rule_value-IsNormal :
    (v d : Text) → normalize_geoip_rule_value v ≡ ok d → IsNormalBy normalize_geoip_rule_value d
unfolding normalize_geoip_rule_value
normalize_geoip_rule_value-IsNormal v d h =
    let upper = to_ascii_uppercase (trim v) in
    let empty : is_empty upper ≡ false = ground arith in
    let clean : any is_bad_char upper ≡ false = ground arith in
    let same : upper ≡ d = ground arith in
    let part = clean-IsPart upper clean (not_empty upper empty) in
    subst (IsNormalBy normalize_geoip_rule_value) same (
      part,
      rw (part.trimmed, to_ascii_uppercase_idem (trim v), empty, clean, normalize_geoip_rule_value),
    )

-- The rule that has one condition.
abbrev pub rule_of : Field → Text → RuleAction → Rule
rule_of match_all v a = record (new_rule a) { match_all = true }
rule_of src_ip_cidr v a = record (new_rule a) { src_ip_cidr = some v }
rule_of dst_ip_cidr v a = record (new_rule a) { dst_ip_cidr = some v }
rule_of src_port v a = record (new_rule a) { src_port = some v }
rule_of dst_port v a = record (new_rule a) { dst_port = some v }
rule_of proto v a = record (new_rule a) { proto = some v }
rule_of domain v a = record (new_rule a) { domain = some v }
rule_of domain_suffix v a = record (new_rule a) { domain_suffix = some v }
rule_of domain_keyword v a = record (new_rule a) { domain_keyword = some v }
rule_of geoip v a = record (new_rule a) { geoip = some v }

-- The values that a field admits.
abbrev pub IsValue : Field → Text → Type 0
IsValue match_all v = v ≡ []
IsValue domain v = IsNormalBy normalize_domain_rule_value v
IsValue domain_suffix v = IsNormalBy normalize_domain_rule_value v
IsValue domain_keyword v = IsNormalBy normalize_domain_rule_value v
IsValue geoip v = IsNormalBy normalize_geoip_rule_value v
IsValue _ v = IsPart v

abbrev pub IsCompact : Rule → Type 0
IsCompact r = (f : Field) × (v : Text) × (a : RuleAction) × IsValue f v × (r ≡ rule_of f v a)
