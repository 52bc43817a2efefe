-- ===== src/Rule.antt =====
-- src/rules/action.rs and the types of src/rules/rule.rs: actions, protocols, rules and their
-- printed form.
pub mod Parse
pub mod Shape
pub mod Compact
pub mod RoundTrip
pub mod Tests
use easynet.Prelude.{
  ℕ, ◌≡◌, refl, ◌↔◌, Bool, true, false, ◌||◌, Option, none, some, List, [], ◌∷◌, ◌++◌, arith, ◌==◌,
  if◌then◌else◌,
}
use easynet.Text.{Text, codes, text_eq, Unicode}

pub data RuleAction : Type 0 where
  direct proxy reject : RuleAction

-- `RuleAction::default`.
abbrev pub default_action : RuleAction
default_action = direct

-- `==` on actions, which is derived.
unfoldable pub action_eq : RuleAction → RuleAction → Bool
action_eq direct direct = true
action_eq proxy proxy = true
action_eq reject reject = true
action_eq _ _ = false

-- `Display`.
unfoldable pub display_action : RuleAction → Text
display_action direct = codes "Direct"
display_action proxy = codes "Proxy"
display_action reject = codes "Reject"

pub data Protocol : Type 0 where
  tcp udp icmp : Protocol
  other : ℕ → Protocol

-- `From<u8>`.
unfoldable pub protocol_from : ℕ → Protocol
protocol_from value =
    if value == 6
    then tcp
    else if value == 17
    then udp
    else if value == 1
    then icmp
    else other value

unfoldable pub protocol_from_str : Unicode → Text → Option Protocol
unfolding text_eq
protocol_from_str uni s =
    let lower = uni.to_lowercase s in
    if text_eq lower (codes "tcp")
    then some tcp
    else if text_eq lower (codes "udp")
    then some udp
    else if text_eq lower (codes "icmp")
    then some icmp
    else none

-- `==` on protocols, which is derived.
unfoldable pub protocol_eq : Protocol → Protocol → Bool
protocol_eq tcp tcp = true
protocol_eq udp udp = true
protocol_eq icmp icmp = true
protocol_eq (other a) (other b) = a == b
protocol_eq _ _ = false

pub record Rule : Type 0 where
  pub src_ip_cidr : Option Text
  pub dst_ip_cidr : Option Text
  pub src_port : Option Text
  pub dst_port : Option Text
  pub proto : Option Text
  pub domain : Option Text
  pub domain_suffix : Option Text
  pub domain_keyword : Option Text
  pub geoip : Option Text
  pub match_all : Bool
  pub action : RuleAction

-- `Rule::new`.
abbrev pub new_rule : RuleAction → Rule
new_rule action = record {
  src_ip_cidr = none;
  dst_ip_cidr = none;
  src_port = none;
  dst_port = none;
  proto = none;
  domain = none;
  domain_suffix = none;
  domain_keyword = none;
  geoip = none;
  match_all = false;
  action = action;
}

abbrev pub is_some {ℓ} : {A : Type ℓ} → Option A → Bool
is_some none = false
is_some (some a) = true

unfoldable pub has_conditions : Rule → Bool
has_conditions r =
    r.match_all
    || is_some r.src_ip_cidr
    || is_some r.dst_ip_cidr
    || is_some r.src_port
    || is_some r.dst_port
    || is_some r.proto
    || is_some r.domain
    || is_some r.domain_suffix
    || is_some r.domain_keyword
    || is_some r.geoip

abbrev pub comma : ℕ
comma = b','

-- `"{field},{value},{action}"`.
unfoldable pub write_rule : Text → Text → RuleAction → Text
unfolding display_action
write_rule field value action = field ++ comma ∷ (value ++ comma ∷ display_action action)

unfoldable pub write_match : RuleAction → Text
unfolding display_action
write_match action = codes "MATCH" ++ comma ∷ display_action action

-- An early return of `fmt` for a condition that is present.
abbrev pub or_else : Option Text → Text → RuleAction → Text → Text
or_else none field action rest = rest
or_else (some value) field action rest = write_rule field value action

-- `Display` of a rule: the first condition that is present.
unfoldable pub display_rule : Rule → Text
display_rule r =
    if r.match_all
    then write_match r.action
    else or_else r.src_ip_cidr (codes "SRC-IP-CIDR") r.action (
        or_else r.dst_ip_cidr (codes "DST-IP-CIDR") r.action (
          or_else r.src_port (codes "SRC-PORT") r.action (
            or_else r.dst_port (codes "DST-PORT") r.action (
              or_else r.proto (codes "PROTO") r.action (
                or_else r.domain (codes "DOMAIN") r.action (
                  or_else r.domain_suffix (codes "DOMAIN-SUFFIX") r.action (
                    or_else r.domain_keyword (codes "DOMAIN-KEYWORD") r.action
                      (or_else r.geoip (codes "GEOIP") r.action (write_match r.action)))))))))
