-- ===== src/Matcher/Conditions.antt =====
-- Rules on ports, from their texts to the packets that they match.
use easynet.Prelude.{
  ℕ, ◌≤◌, ◌≡◌, refl, ◌↔◌, true, false, Option, none, some, [], ◌∷◌, ◌++◌, arith, ok, All-imp,
  All-append, ◌≢◌, some_inj,
}
use easynet.Text.{Text, codes, is_whitespace}
use easynet.Text.Number.{IsDigit, value}
use easynet.Text.Trim.{trim_none}
use easynet.Rule.{Rule, RuleAction, comma, display_action, display_rule, write_rule}
use easynet.Rule.Parse.{src_port, dst_port, parse_compact}
use easynet.Rule.Shape.{rule_of, IsPart}
use easynet.Rule.RoundTrip.{parse_compact-rule_of}
use easynet.Context.{PacketContext}
use easynet.Geoip.{GeoIpMatcher}
use easynet.Config.{Parsers}
use easynet.Config.Ports.{IsPort, parse_port_range_dash}
use easynet.Matcher.{matches, matches_port}

-- A port condition written as two ports with a dash holds exactly for the ports between them, both
-- included; a packet without ports never meets it.
pub matches_port_dash :
    (lo hi : Text) (port : ℕ)
    → IsPort lo
    → IsPort hi
    → ((matches_port (lo ++ b'-' ∷ hi) (some port) ≡ true)
        ↔ ((value 0 lo ≤ port) × (port ≤ value 0 hi)))
      × (matches_port (lo ++ b'-' ∷ hi) none ≡ false)
unfolding matches_port
matches_port_dash lo hi port l h = ground (arith, parse_port_range_dash lo hi l h)

-- Two ports with a dash between them.
abbrev pub dashed : Text → Text → Text
dashed lo hi = lo ++ b'-' ∷ hi

digit_shows : (c : ℕ) → IsDigit c → is_whitespace c ≡ false
unfolding is_whitespace
digit_shows c d = ground arith

dashed_filled : (lo hi : Text) → dashed lo hi ≢ []
dashed_filled [] hi e = cc
dashed_filled (c ∷ lo) hi e = cc

dashed-IsPart : (lo hi : Text) → IsPort lo → IsPort hi → IsPart (dashed lo hi)
unfolding is_whitespace
dashed-IsPart lo hi l h = record {
  no_comma =
      All-append (λ c. c ≢ comma) lo (b'-' ∷ hi) (All-imp lo (λ c d. omega arith) l.digits)
        (omega arith, All-imp hi (λ c d. omega arith) h.digits);
  trimmed = trim_none (dashed lo hi) (
      All-append (λ c. is_whitespace c ≡ false) lo (b'-' ∷ hi) (All-imp lo digit_shows l.digits)
        (refl, All-imp hi digit_shows h.digits));
  filled = dashed_filled lo hi;
}

-- The port is one of those from the first to the last.
abbrev pub IsWithin : Text → Text → Option ℕ → Type 0
IsWithin lo hi port = (n : ℕ) × (port ≡ some n) × (value 0 lo ≤ n) × (n ≤ value 0 hi)

matches_port-IsWithin :
    (lo hi : Text) (port : Option ℕ)
    → IsPort lo
    → IsPort hi
    → (matches_port (dashed lo hi) port ≡ true) ↔ IsWithin lo hi port
matches_port-IsWithin lo hi none l h =
    let (_, never) = matches_port_dash lo hi 0 l h in ground (arith, never)
matches_port-IsWithin lo hi (some n) l h =
    let (forth, back) = (matches_port_dash lo hi n l h).0 in
    (
      λ e. let (low, high) = forth e in (n, refl, low, high),
      λ (m, same, low, high). let e : n ≡ m = some_inj same in back (omega arith, omega arith),
    )

-- A compact rule "SRC-PORT,lo-hi,action" or "DST-PORT,lo-hi,action", of two ports in digits and an action as it is printed, is
-- parsed to a rule with the action, which matches exactly the packets whose source port, or whose
-- destination port, is one from lo to hi, both included: a packet without ports it never matches,
-- and nothing else of the packet counts.
pub parse_compact-matches :
    (lo hi : Text) (a : RuleAction) (ps : Parsers) (g : GeoIpMatcher) (p : PacketContext)
    → IsPort lo
    → IsPort hi
    → ((r : Rule) × (parse_compact
            (codes "SRC-PORT" ++ comma ∷ (dashed lo hi ++ comma ∷ display_action a))
          ≡ ok r)
        × (r.action ≡ a)
        × ((matches ps r p g ≡ true) ↔ IsWithin lo hi p.src_port))
      × ((r : Rule) × (parse_compact
              (codes "DST-PORT" ++ comma ∷ (dashed lo hi ++ comma ∷ display_action a))
            ≡ ok r)
          × (r.action ≡ a)
          × ((matches ps r p g ≡ true) ↔ IsWithin lo hi p.dst_port))
unfolding display_rule write_rule matches
parse_compact-matches lo hi a ps g p l h =
    let part = dashed-IsPart lo hi l h in
    (
      (
        rule_of src_port (dashed lo hi) a,
        parse_compact-rule_of src_port (dashed lo hi) a part,
        refl,
        ground (arith, matches_port-IsWithin lo hi p.src_port l h),
      ),
      (
        rule_of dst_port (dashed lo hi) a,
        parse_compact-rule_of dst_port (dashed lo hi) a part,
        refl,
        ground (arith, matches_port-IsWithin lo hi p.dst_port l h),
      ),
    )
