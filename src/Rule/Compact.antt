-- ===== src/Rule/Compact.antt =====
-- Every rule that `Rule::parse_compact` returns has exactly one condition, with a normal value.
use easynet.Prelude.{
  ◌≡◌, refl, false, List, [], ◌∷◌, map, arith, is_empty, Result, ok, ◌>>=◌, >>=-eq-ok, All,
  not_empty, Bool-cases, inl, inr, subst, ok_or,
}
use easynet.Text.{Text, trim, split, to_ascii_uppercase}
use easynet.Text.Trim.{trim_idem, trim-All}
use easynet.Text.Split.{Lacks, split-Lacks}
use easynet.Rule.{RuleAction, Rule, comma}
use easynet.Rule.Parse.{
  Field, match_all, src_ip_cidr, dst_ip_cidr, src_port, dst_port, proto, domain, domain_suffix,
  domain_keyword, geoip, RuleError, normalize_domain_rule_value, normalize_geoip_rule_value,
  parse_action, parse_field_rule_parts, parse_domain_rule_parts, parse_geoip_rule_parts, build_rule,
  parse_parts, parse_compact, unknown_field, field_of, fields, field_name,
}
use easynet.Rule.Shape.{
  IsPart, IsNormalBy, IsCompact, IsValue, rule_of, normalize_domain_rule_value-IsNormal,
  normalize_geoip_rule_value-IsNormal,
}

abbrev IsClean : Text → Type 0
IsClean p = Lacks comma p × (trim p ≡ p)

map-trim-IsClean : (ps : List Text) → All (Lacks comma) ps → All IsClean (map trim ps)
map-trim-IsClean [] h = tt
map-trim-IsClean (p ∷ ps) h = ((trim-All _ p h.0, trim_idem p), map-trim-IsClean ps h.1)

parse_field_rule_parts-IsPart :
    (parts : List Text) (name v : Text) (a : RuleAction)
    → All IsClean parts
    → parse_field_rule_parts parts name ≡ ok (v, a)
    → IsPart v
unfolding parse_field_rule_parts
parse_field_rule_parts-IsPart [] name v a c h = cc
parse_field_rule_parts-IsPart (p ∷ []) name v a c h = cc
parse_field_rule_parts-IsPart (p ∷ w ∷ []) name v a c h = cc
parse_field_rule_parts-IsPart (p ∷ w ∷ act ∷ []) name v a c h =
    let same : w ≡ v = ground arith in
    let full : is_empty w ≡ false = ground arith in
    subst IsPart same (record { no_comma = c.1.0.0; trimmed = c.1.0.1; filled = not_empty w full })
parse_field_rule_parts-IsPart (p ∷ w ∷ act ∷ x ∷ rest) name v a c h = cc

-- The shared tail of the arms that keep the value.
plain_arm :
    (parts : List Text) (name : Text) (f : Text → RuleAction → Rule) (r : Rule)
    → All IsClean parts
    → (do (value, action) ← parse_field_rule_parts parts name; ok (f value action)) ≡ ok r
    → (v : Text) × (a : RuleAction) × IsPart v × (r ≡ f v a)
plain_arm parts name f r c h =
    let ((v, a), e, same) = >>=-eq-ok (parse_field_rule_parts parts name) _ h in
    (v, a, parse_field_rule_parts-IsPart parts name v a c e, cc)

-- The shared tail of the arms that normalise the value.
normal_arm :
    (normalize : Text → Result Text RuleError)
    → ((w d : Text) → normalize w ≡ ok d → IsNormalBy normalize d)
    → (m : Result (Text × RuleAction) RuleError) (f : Text → RuleAction → Rule) (r : Rule)
    → (do
      (value, action) ← do (w, b) ← m; d ← normalize w; ok (d, b)
      ok (f value action))
      ≡ ok r
    → (v : Text) × (a : RuleAction) × IsNormalBy normalize v × (r ≡ f v a)
normal_arm normalize normal m f r h =
    let ((v, a), e, same) = >>=-eq-ok (do (w, b) ← m; d ← normalize w; ok (d, b)) _ h in
    let ((w, b), e', rest) = >>=-eq-ok m _ e in
    let (d, e'', last) = >>=-eq-ok (normalize w) _ rest in
    let same_d : d ≡ v = cc in (v, a, subst (IsNormalBy normalize) same_d (normal w d e''), cc)

IsCompact-of :
    (f : Field) {r : Rule}
    → ((v : Text) × (a : RuleAction) × IsValue f v × (r ≡ rule_of f v a))
    → IsCompact r
IsCompact-of f (v, a, p, e) = (f, v, a, p, e)

build_rule-IsCompact :
    (f : Field) (parts : List Text) (r : Rule)
    → All IsClean parts
    → build_rule f parts ≡ ok r
    → IsCompact r
unfolding build_rule parse_domain_rule_parts parse_geoip_rule_parts
build_rule-IsCompact match_all [] r c h = cc
build_rule-IsCompact match_all (p ∷ []) r c h = cc
build_rule-IsCompact match_all (p ∷ act ∷ []) r c h =
    let (a, e, same) = >>=-eq-ok (parse_action act) _ h in (match_all, [], a, refl, cc)
build_rule-IsCompact match_all (p ∷ act ∷ x ∷ rest) r c h = cc
build_rule-IsCompact src_ip_cidr parts r c h =
    IsCompact-of src_ip_cidr (plain_arm parts (field_name src_ip_cidr) (rule_of src_ip_cidr) r c h)
build_rule-IsCompact dst_ip_cidr parts r c h =
    IsCompact-of dst_ip_cidr (plain_arm parts (field_name dst_ip_cidr) (rule_of dst_ip_cidr) r c h)
build_rule-IsCompact src_port parts r c h =
    IsCompact-of src_port (plain_arm parts (field_name src_port) (rule_of src_port) r c h)
build_rule-IsCompact dst_port parts r c h =
    IsCompact-of dst_port (plain_arm parts (field_name dst_port) (rule_of dst_port) r c h)
build_rule-IsCompact proto parts r c h =
    IsCompact-of proto (plain_arm parts (field_name proto) (rule_of proto) r c h)
build_rule-IsCompact domain parts r c h = IsCompact-of domain (
    normal_arm normalize_domain_rule_value normalize_domain_rule_value-IsNormal _ (rule_of domain) r
      h)
build_rule-IsCompact domain_suffix parts r c h = IsCompact-of domain_suffix (
    normal_arm normalize_domain_rule_value normalize_domain_rule_value-IsNormal _
      (rule_of domain_suffix) r h)
build_rule-IsCompact domain_keyword parts r c h = IsCompact-of domain_keyword (
    normal_arm normalize_domain_rule_value normalize_domain_rule_value-IsNormal _
      (rule_of domain_keyword) r h)
build_rule-IsCompact geoip parts r c h = IsCompact-of geoip (
    normal_arm normalize_geoip_rule_value normalize_geoip_rule_value-IsNormal _ (rule_of geoip) r h)

parse_parts-IsCompact :
    (parts : List Text) (r : Rule) → All IsClean parts → parse_parts parts ≡ ok r → IsCompact r
unfolding parse_parts
parse_parts-IsCompact [] r c h = cc
parse_parts-IsCompact (p ∷ ps) r c h = elim (Bool-cases (is_empty p)) [
  | inl e ↦ cc (rw (e, parse_parts) at h)
  | inr e ↦
      let (f, found, built) =
        >>=-eq-ok (ok_or (unknown_field p) (field_of fields (to_ascii_uppercase p))) _
          (rw (e, parse_parts) at h) in
      build_rule-IsCompact f (p ∷ ps) r c built
]

-- A parsed rule has exactly one condition, and its value is normal: trimmed, not empty, without a
-- comma; a domain or country code is also unchanged by its own normalisation.
pub parse_compact-IsCompact : (s : Text) (r : Rule) → parse_compact s ≡ ok r → IsCompact r
unfolding parse_compact
parse_compact-IsCompact s r h =
    parse_parts-IsCompact (map trim (split comma s)) r
      (map-trim-IsClean (split comma s) (split-Lacks comma s)) h
