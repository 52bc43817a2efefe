-- ===== src/Config/FirstBad.antt =====
-- The error of `RulesConfig::validate` of src/config.rs is that of the first bad rule.
use easynet.Prelude.{
  ℕ, ◌+◌, ◌≡◌, refl, ◌⊎◌, suc, ap, List, [], ◌∷◌, ◌++◌, arith, length, All, ok, err, ◌>>◌, inl, inr,
}
use easynet.Rule.{Rule}
use easynet.Config.{
  Parsers, RulesConfig, ConfigError, Check, validate_rule, validate_from, validate,
}
use easynet.Config.Validate.{IsValidRule, validate_rule_sound}

-- The rule that validation stops at, its index, and the valid rules in front of it.
pub record IsFirstBad (ps : Parsers) (i : ℕ) (rules : List Rule) (e : ConfigError) : Type 0 where
  pub before : List Rule
  pub bad : Rule
  pub after : List Rule
  pub layout : rules ≡ before ++ bad ∷ after
  pub valid : All (IsValidRule ps) before
  pub refused : validate_rule ps (i + length before) bad ≡ err e

>>_err :
    (m k : Check) (e : ConfigError) → (m >> k) ≡ err e → (m ≡ err e) ⊎ ((m ≡ ok tt) × (k ≡ err e))
>>_err (ok u) k e h = inr (refl, h)
>>_err (err f) k e h = inl h

validate_from-IsFirstBad :
    (ps : Parsers) (i : ℕ) (rules : List Rule) (e : ConfigError)
    → validate_from ps i rules ≡ err e
    → IsFirstBad ps i rules e
unfolding validate_from
validate_from-IsFirstBad ps i [] e h = cc
validate_from-IsFirstBad ps i (r ∷ rules) e h = elim (>>_err (validate_rule ps i r) _ e h) [
  | inl refused ↦ record {
    before = [];
    bad = r;
    after = rules;
    layout = refl;
    valid = tt;
    refused = let z : i + 0 ≡ i = omega arith in rw z refused;
  }
  | inr (fine, later) ↦
      let f = validate_from-IsFirstBad ps (i + 1) rules e later in
      let shift : i + suc (length f.before) ≡ i + 1 + length f.before = omega arith in
      record {
        before = r ∷ f.before;
        bad = f.bad;
        after = f.after;
        layout = ap (λ l. r ∷ l) f.layout;
        valid = (validate_rule_sound ps i r fine, f.valid);
        refused = rw shift f.refused;
      }
]

-- When validation fails, the error is that of the first bad rule, under its index, and every rule
-- in front of it is valid.
pub validate-IsFirstBad :
    (ps : Parsers) (config : RulesConfig) (e : ConfigError)
    → validate ps config ≡ err e
    → IsFirstBad ps 0 config.rules e
unfolding validate
validate-IsFirstBad ps config e h = validate_from-IsFirstBad ps 0 config.rules e h
