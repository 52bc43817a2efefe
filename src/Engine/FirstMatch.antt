-- ===== src/Engine/FirstMatch.antt =====
-- What `match_packet` of src/rules/engine.rs returns: the action of the first rule that matches.
use easynet.Prelude.{
  ◌≡◌, refl, ◌↔◌, ◌⊎◌, inl, inr, ap, true, false, List, [], ◌∷◌, ◌++◌, All, Bool-cases, subst,
}
use easynet.Rule.{RuleAction, direct, Rule}
use easynet.Context.{PacketContext}
use easynet.Geoip.{GeoIpMatcher}
use easynet.Config.{Parsers}
use easynet.Matcher.{matches}
use easynet.Engine.{RulesEngine, match_rules, match_packet}

module _ (ps : Parsers) (geoip : GeoIpMatcher) (packet : PacketContext) where
  abbrev pub Misses : List Rule → Type 0
  Misses = All (λ r. matches ps r packet geoip ≡ false)

  -- A rule that matches behind rules that do not, or no rule that matches.
  abbrev pub IsDecision : List Rule → RuleAction → Type 0
  IsDecision rules act =
      ((before : List Rule) × (rule : Rule) × (after : List Rule) × (rules ≡ before ++ rule ∷ after)
        × Misses before
        × (matches ps rule packet geoip ≡ true)
        × (act ≡ rule.action))
      ⊎ (Misses rules × (act ≡ direct))

  match_rules-IsDecision :
      (rules : List Rule) → IsDecision rules (match_rules ps geoip packet rules)
  unfolding match_rules
  match_rules-IsDecision [] = inr (tt, refl)
  match_rules-IsDecision (r ∷ rules) = elim (Bool-cases (matches ps r packet geoip)) [
    | inl hit ↦ inl ([], r, rules, refl, tt, hit, rw (hit, match_rules))
    | inr miss ↦ elim (match_rules-IsDecision rules) [
      | inl (before, rule, after, layout, missed, hit, same) ↦ inl (
        r ∷ before,
        rule,
        after,
        ap (λ l. r ∷ l) layout,
        (miss, missed),
        hit,
        rw (miss, match_rules) same,
      )
      | inr (missed, same) ↦ inr ((miss, missed), rw (miss, match_rules) same)
    ]
  ]

  match_rules_hit :
      (before : List Rule) (rule : Rule) (after : List Rule)
      → Misses before
      → matches ps rule packet geoip ≡ true
      → match_rules ps geoip packet (before ++ rule ∷ after) ≡ rule.action
  unfolding match_rules
  match_rules_hit [] rule after _ hit = rw hit
  match_rules_hit (r ∷ before) rule after (miss, missed) hit =
      rw miss (match_rules_hit before rule after missed hit)

  match_rules_miss : (rules : List Rule) → Misses rules → match_rules ps geoip packet rules ≡ direct
  unfolding match_rules
  match_rules_miss [] _ = refl
  match_rules_miss (r ∷ rules) (miss, missed) = rw miss (match_rules_miss rules missed)

  match_rules_unique :
      (rules : List Rule) (act : RuleAction)
      → IsDecision rules act
      → match_rules ps geoip packet rules ≡ act
  match_rules_unique rules act (inl (before, rule, after, layout, missed, hit, same)) =
      rw (layout, match_rules_hit before rule after missed hit, same)
  match_rules_unique rules act (inr (missed, same)) = rw (match_rules_miss rules missed, same)

-- A packet is given an action exactly when it is that of a rule which matches behind rules that do
-- not, or no rule matches and the action is Direct. The default action of the configuration has no
-- part in it.
pub match_packet_iff :
    (ps : Parsers) (engine : RulesEngine) (packet : PacketContext) (act : RuleAction)
    → (match_packet ps engine packet ≡ act) ↔ IsDecision ps engine.geoip packet engine.rules act
unfolding match_packet
match_packet_iff ps engine packet act = (
  λ e.
      subst (IsDecision ps engine.geoip packet engine.rules) e
        (match_rules-IsDecision ps engine.geoip packet engine.rules),
  match_rules_unique ps engine.geoip packet engine.rules act,
)
