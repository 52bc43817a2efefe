-- ===== src/Config/Validate.antt =====
-- `RulesConfig::validate` of src/config.rs accepts exactly the well-formed rules.
use easynet.Prelude.{
  ℕ, ◌+◌, ◌≡◌, refl, ◌≢◌, ◌↔◌, Bool, true, false, Option, none, some, List, [], ◌∷◌, arith,
  is_empty, any, any-false, All, Result, ok, err, ◌>>◌, guard, if◌then◌else◌, Bool-cases, inl, inr,
}
use easynet.Text.{Text}
use easynet.Rule.{Rule, protocol_from_str, has_conditions, is_some}
use easynet.Rule.Parse.{is_bad_char}
use easynet.Config.{
  Parsers, PortError, RulesConfig, ConfigError, Check, if_some, check_port, parse_port_range,
  validate_cidr, validate_port, validate_proto, validate_domain_rule_value,
  validate_geoip_rule_value, validate_rule, validate_from, validate,
}

-- A condition, where it is present, has the property.
abbrev pub Present : Option Text → (Text → Type 0) → Type 0
Present none P = Unit
Present (some v) P = P v

abbrev pub IsClean : Text → Type 0
IsClean v = (v ≢ []) × All (λ c. is_bad_char c ≡ false) v

-- What a rule needs: a condition, and each condition that is present in its format.
pub record IsValidRule (ps : Parsers) (r : Rule) : Type 0 where
  pub conditions : has_conditions r ≡ true
  pub src_cidr : Present r.src_ip_cidr (λ v. ps.parse_network v ≢ none)
  pub dst_cidr : Present r.dst_ip_cidr (λ v. ps.parse_network v ≢ none)
  pub src_range : Present r.src_port (λ v. (ab : ℕ × ℕ) × (parse_port_range v ≡ ok ab))
  pub dst_range : Present r.dst_port (λ v. (ab : ℕ × ℕ) × (parse_port_range v ≡ ok ab))
  pub protocol : Present r.proto (λ v. protocol_from_str ps.unicode v ≢ none)
  pub domain_clean : Present r.domain IsClean
  pub suffix_clean : Present r.domain_suffix IsClean
  pub keyword_clean : Present r.domain_keyword IsClean
  pub geoip_clean : Present r.geoip IsClean

is_some_iff {ℓ} : {A : Type ℓ} (o : Option A) → (is_some o ≡ true) ↔ (o ≢ none)
is_some_iff none = (λ e. cc, λ h. absurd (h refl))
is_some_iff (some a) = (λ e. λ f. cc, λ h. refl)

>>_iff : (m k : Check) → ((m >> k) ≡ ok tt) ↔ ((m ≡ ok tt) × (k ≡ ok tt))
>>_iff (ok u) k = (λ h. (refl, h), λ h. h.1)
>>_iff (err e) k = (λ h. cc, λ h. cc (h.0))

if_some_iff :
    (o : Option Text) (f : Text → Check) (P : Text → Type 0)
    → ((v : Text) → (f v ≡ ok tt) ↔ P v)
    → (if_some o f ≡ ok tt) ↔ Present o P
if_some_iff none f P each = (λ _. tt, λ _. refl)
if_some_iff (some v) f P each = each v

guard_iff : (b : Bool) (e : ConfigError) → (guard b e ≡ ok tt) ↔ (b ≡ true)
guard_iff true e = (λ _. refl, λ _. refl)
guard_iff false e = (λ h. cc, λ h. cc)

All-false-any : (p : ℕ → Bool) (v : Text) → All (λ c. p c ≡ false) v → any p v ≡ false
All-false-any p [] h = refl
All-false-any p (c ∷ v) h = ground (arith, All-false-any p v h.1)

-- The shape that both value checks share.
IsClean-iff :
    (v : Text) (e f : ConfigError)
    → ◌≡◌ {A = Check}
        (if is_empty v then err e else if any is_bad_char v then err f else ok tt)
        (ok tt)
      ↔ IsClean v
IsClean-iff [] e f = (λ h. cc, λ h. absurd (h.0 refl))
IsClean-iff (c ∷ v) e f = elim (Bool-cases (any is_bad_char (c ∷ v))) [
  | inl bad ↦ (λ h. cc (rw bad at h), λ h. cc (All-false-any is_bad_char (c ∷ v) h.1))
  | inr good ↦ (λ h. (λ n. cc, any-false is_bad_char (c ∷ v) good), λ h. rw good)
]

module _ (ps : Parsers) (i : ℕ) where
  validate_cidr_iff : (v : Text) → (validate_cidr ps i v ≡ ok tt) ↔ (ps.parse_network v ≢ none)
  unfolding validate_cidr
  validate_cidr_iff v = grind (arith, is_some_iff (ps.parse_network v))

  validate_proto_iff :
      (v : Text) → (validate_proto ps i v ≡ ok tt) ↔ (protocol_from_str ps.unicode v ≢ none)
  unfolding validate_proto
  validate_proto_iff v = grind (arith, is_some_iff (protocol_from_str ps.unicode v))

  port_check_iff :
      (v : Text) (r : Result (ℕ × ℕ) PortError)
      → (check_port i v r ≡ ok tt) ↔ ((ab : ℕ × ℕ) × (r ≡ ok ab))
  port_check_iff v (ok ab) = (λ _. (ab, refl), λ _. refl)
  port_check_iff v (err e) = (λ h. cc, λ h. cc (h.1))

  validate_port_iff :
      (v : Text) → (validate_port ps i v ≡ ok tt) ↔ ((ab : ℕ × ℕ) × (parse_port_range v ≡ ok ab))
  unfolding validate_port
  validate_port_iff v = port_check_iff v (parse_port_range v)

  domain_iff : (field v : Text) → (validate_domain_rule_value i field v ≡ ok tt) ↔ IsClean v
  unfolding validate_domain_rule_value
  domain_iff field v = IsClean-iff v _ _

  geoip_iff : (v : Text) → (validate_geoip_rule_value i v ≡ ok tt) ↔ IsClean v
  unfolding validate_geoip_rule_value
  geoip_iff v = IsClean-iff v _ _

-- Two checks in a row.
both :
    {P Q : Type 0} (m k : Check) → (m ≡ ok tt) ↔ P → (k ≡ ok tt) ↔ Q → ((m >> k) ≡ ok tt) ↔ (P × Q)
both m k mp kq = (
  λ h. let (a, b) = (>>_iff m k).0 h in (mp.0 a, kq.0 b),
  λ h. (>>_iff m k).1 (mp.1 h.0, kq.1 h.1),
)

module _ (ps : Parsers) (i : ℕ) (r : Rule) where
  IsNetwork : Text → Type 0
  IsNetwork v = ps.parse_network v ≢ none

  IsRange : Text → Type 0
  IsRange v = (ab : ℕ × ℕ) × (parse_port_range v ≡ ok ab)

  IsProtocol : Text → Type 0
  IsProtocol v = protocol_from_str ps.unicode v ≢ none

  -- The ten checks in a row, each replaced by what it means.
  checks_iff : (validate_rule ps i r ≡ ok tt) ↔ (
      (has_conditions r ≡ true)
      × (Present r.src_ip_cidr IsNetwork
          × (Present r.dst_ip_cidr IsNetwork
              × (Present r.src_port IsRange
                  × (Present r.dst_port IsRange
                      × (Present r.proto IsProtocol
                          × (Present r.domain IsClean
                              × (Present r.domain_suffix IsClean
                                  × (Present r.domain_keyword IsClean
                                      × Present r.geoip IsClean)))))))))
  unfolding validate_rule IsNetwork IsRange IsProtocol
  checks_iff = both _ _ (guard_iff _ _) (
      both _ _ (if_some_iff r.src_ip_cidr _ _ (validate_cidr_iff ps i)) (
        both _ _ (if_some_iff r.dst_ip_cidr _ _ (validate_cidr_iff ps i)) (
          both _ _ (if_some_iff r.src_port _ _ (validate_port_iff ps i)) (
            both _ _ (if_some_iff r.dst_port _ _ (validate_port_iff ps i)) (
              both _ _ (if_some_iff r.proto _ _ (validate_proto_iff ps i)) (
                both _ _ (if_some_iff r.domain _ _ (domain_iff ps i _)) (
                  both _ _ (if_some_iff r.domain_suffix _ _ (domain_iff ps i _)) (
                    both _ _ (if_some_iff r.domain_keyword _ _ (domain_iff ps i _))
                      (if_some_iff r.geoip _ _ (geoip_iff ps i))))))))))

  pub validate_rule_sound : validate_rule ps i r ≡ ok tt → IsValidRule ps r
  unfolding IsNetwork IsRange IsProtocol
  validate_rule_sound h =
      let (c, (sc, (dc, (sr, (dr, (p, (d, (s, (k, g))))))))) = checks_iff.0 h in
      record {
        conditions = c;
        src_cidr = sc;
        dst_cidr = dc;
        src_range = sr;
        dst_range = dr;
        protocol = p;
        domain_clean = d;
        suffix_clean = s;
        keyword_clean = k;
        geoip_clean = g;
      }

  validate_rule_complete : IsValidRule ps r → validate_rule ps i r ≡ ok tt
  unfolding IsNetwork IsRange IsProtocol
  validate_rule_complete v = checks_iff.1 (
    v.conditions,
    (
      v.src_cidr,
      (
        v.dst_cidr,
        (
          v.src_range,
          (
            v.dst_range,
            (v.protocol, (v.domain_clean, (v.suffix_clean, (v.keyword_clean, v.geoip_clean)))),
          ),
        ),
      ),
    ),
  )

validate_from_sound :
    (ps : Parsers) (i : ℕ) (rules : List Rule)
    → validate_from ps i rules ≡ ok tt
    → All (IsValidRule ps) rules
unfolding validate_from
validate_from_sound ps i [] h = tt
validate_from_sound ps i (r ∷ rules) h =
    let (here, later) = (>>_iff (validate_rule ps i r) _).0 h in
    (validate_rule_sound ps i r here, validate_from_sound ps (i + 1) rules later)

validate_from_complete :
    (ps : Parsers) (i : ℕ) (rules : List Rule)
    → All (IsValidRule ps) rules
    → validate_from ps i rules ≡ ok tt
unfolding validate_from
validate_from_complete ps i [] h = refl
validate_from_complete ps i (r ∷ rules) h =
    (>>_iff (validate_rule ps i r) _).1
      (validate_rule_complete ps i r h.0, validate_from_complete ps (i + 1) rules h.1)

-- Validation accepts exactly the configurations in which every rule is valid.
pub validate_iff :
    (ps : Parsers) (config : RulesConfig)
    → (validate ps config ≡ ok tt) ↔ All (IsValidRule ps) config.rules
unfolding validate
validate_iff ps config =
    (validate_from_sound ps 0 config.rules, validate_from_complete ps 0 config.rules)
