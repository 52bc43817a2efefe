-- ===== src/Rule/Parse.antt =====
-- `Rule::parse_compact` of src/rules/rule.rs and the functions that it calls.
use easynet.Prelude.{
  ℕ, Bool, true, ◌||◌, Option, none, some, List, [], ◌∷◌, map, ◌==◌, if◌then◌else◌, is_empty, any,
  Result, ok, err, ◌>>=◌, ◌>>◌, guard, not, ok_or,
}
use easynet.Text.{
  Text, codes, text_eq, trim, split, trim_end_matches, to_ascii_lowercase, to_ascii_uppercase,
  is_whitespace,
}
use easynet.Rule.{RuleAction, direct, proxy, reject, Rule, new_rule, comma}

-- The messages of the errors.
pub data RuleError : Type 0 where
  empty_rule match_format : RuleError
  field_format empty_value unknown_field unknown_action : Text → RuleError
  empty_domain empty_geoip : RuleError
  invalid_domain invalid_geoip : Text → RuleError

unfoldable pub parse_action : Text → Result RuleAction RuleError
unfolding to_ascii_lowercase text_eq
parse_action value =
    let lower = to_ascii_lowercase value in
    if text_eq lower (codes "direct")
    then ok direct
    else if text_eq lower (codes "proxy")
    then ok proxy
    else if text_eq lower (codes "reject") || text_eq lower (codes "drop")
    then ok reject
    else err (unknown_action value)

-- `ch.is_whitespace() || matches!(ch, '/' | ',')`.
unfoldable pub is_bad_char : ℕ → Bool
unfolding is_whitespace
is_bad_char c = is_whitespace c || (c == b'/' || c == comma)

unfoldable pub parse_field_rule_parts : List Text → Text → Result (Text × RuleAction) RuleError
parse_field_rule_parts (p ∷ value ∷ act ∷ []) field = do
  guard (not (is_empty value)) (empty_value field)
  action ← parse_action act
  ok (value, action)
parse_field_rule_parts _ field = err (field_format field)

unfoldable pub normalize_domain_rule_value : Text → Result Text RuleError
normalize_domain_rule_value value =
    let lower = to_ascii_lowercase (trim_end_matches b'.' (trim value)) in
    if is_empty lower
    then err empty_domain
    else if any is_bad_char lower
    then err (invalid_domain lower)
    else ok lower

unfoldable pub parse_domain_rule_parts : List Text → Text → Result (Text × RuleAction) RuleError
parse_domain_rule_parts parts field = do
  (value, action) ← parse_field_rule_parts parts field
  normal ← normalize_domain_rule_value value
  ok (normal, action)

unfoldable pub normalize_geoip_rule_value : Text → Result Text RuleError
normalize_geoip_rule_value value =
    let upper = to_ascii_uppercase (trim value) in
    if is_empty upper
    then err empty_geoip
    else if any is_bad_char upper
    then err (invalid_geoip upper)
    else ok upper

unfoldable pub parse_geoip_rule_parts : List Text → Text → Result (Text × RuleAction) RuleError
parse_geoip_rule_parts parts field = do
  (value, action) ← parse_field_rule_parts parts field
  normal ← normalize_geoip_rule_value value
  ok (normal, action)

-- The arms of the match on the first part.
pub data Field : Type 0 where
  match_all src_ip_cidr dst_ip_cidr src_port dst_port proto : Field
  domain domain_suffix domain_keyword geoip : Field

abbrev pub field_name : Field → Text
field_name match_all = codes "MATCH"
field_name src_ip_cidr = codes "SRC-IP-CIDR"
field_name dst_ip_cidr = codes "DST-IP-CIDR"
field_name src_port = codes "SRC-PORT"
field_name dst_port = codes "DST-PORT"
field_name proto = codes "PROTO"
field_name domain = codes "DOMAIN"
field_name domain_suffix = codes "DOMAIN-SUFFIX"
field_name domain_keyword = codes "DOMAIN-KEYWORD"
field_name geoip = codes "GEOIP"

abbrev pub fields : List Field
fields =
    match_all ∷ src_ip_cidr ∷ dst_ip_cidr ∷ src_port ∷ dst_port ∷ proto ∷ domain ∷ domain_suffix
    ∷ domain_keyword ∷ geoip ∷ []

-- The first arm whose literal is the text.
unfoldable pub field_of : List Field → Text → Option Field
unfolding text_eq
field_of [] name = none
field_of (f ∷ fs) name = if text_eq name (field_name f) then some f else field_of fs name

-- The body of each arm; `parts` holds the first part too.
unfoldable pub build_rule : Field → List Text → Result Rule RuleError
build_rule match_all (p ∷ act ∷ []) = do
  action ← parse_action act
  ok (record (new_rule action) { match_all = true })
build_rule match_all _ = err match_format
build_rule src_ip_cidr parts = do
  (value, action) ← parse_field_rule_parts parts (field_name src_ip_cidr)
  ok (record (new_rule action) { src_ip_cidr = some value })
build_rule dst_ip_cidr parts = do
  (value, action) ← parse_field_rule_parts parts (field_name dst_ip_cidr)
  ok (record (new_rule action) { dst_ip_cidr = some value })
build_rule src_port parts = do
  (value, action) ← parse_field_rule_parts parts (field_name src_port)
  ok (record (new_rule action) { src_port = some value })
build_rule dst_port parts = do
  (value, action) ← parse_field_rule_parts parts (field_name dst_port)
  ok (record (new_rule action) { dst_port = some value })
build_rule proto parts = do
  (value, action) ← parse_field_rule_parts parts (field_name proto)
  ok (record (new_rule action) { proto = some value })
build_rule domain parts = do
  (value, action) ← parse_domain_rule_parts parts (field_name domain)
  ok (record (new_rule action) { domain = some value })
build_rule domain_suffix parts = do
  (value, action) ← parse_domain_rule_parts parts (field_name domain_suffix)
  ok (record (new_rule action) { domain_suffix = some value })
build_rule domain_keyword parts = do
  (value, action) ← parse_domain_rule_parts parts (field_name domain_keyword)
  ok (record (new_rule action) { domain_keyword = some value })
build_rule geoip parts = do
  (value, action) ← parse_geoip_rule_parts parts (field_name geoip)
  ok (record (new_rule action) { geoip = some value })

unfoldable pub parse_parts : List Text → Result Rule RuleError
parse_parts [] = err empty_rule
parse_parts (p ∷ ps) = if is_empty p then err empty_rule else do
  field ← ok_or (unknown_field p) (field_of fields (to_ascii_uppercase p))
  build_rule field (p ∷ ps)

unfoldable pub parse_compact : Text → Result Rule RuleError
parse_compact value = parse_parts (map trim (split comma value))
