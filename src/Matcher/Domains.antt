-- ===== src/Matcher/Domains.antt =====
-- What the domain conditions of src/rules/matcher.rs say of the texts.
use easynet.Prelude.{
  ◌≡◌, ◌↔◌, ◌⊎◌, inl, inr, Bool, true, ◌||◌, List, [], ◌∷◌, ◌++◌, arith, Any, any, Bool-cases,
}
use easynet.Text.{Text, text_eq, text_eq_iff, ends_with}
use easynet.Text.Split.{ends_with_iff, contains_iff}
use easynet.Matcher.{matches_domain, matches_domain_suffix, matches_domain_keyword}

module _ (p : Text → Bool) (P : Text → Type 0) (each : (t : Text) → (p t ≡ true) ↔ P t) where
  any_sound : (ts : List Text) → any p ts ≡ true → Any P ts
  any_sound [] h = cc
  any_sound (t ∷ ts) h = elim (Bool-cases (p t)) [
    | inl hit ↦ inl ((each t).0 hit)
    | inr miss ↦ inr (any_sound ts (rw miss at h))
  ]

  any_complete : (ts : List Text) → Any P ts → any p ts ≡ true
  any_complete [] h = elim h [ ]
  any_complete (t ∷ ts) (inl here) = rw ((each t).1 here)
  any_complete (t ∷ ts) (inr later) = ground (arith, any_complete ts later)

-- A domain is the suffix itself or ends in a dot and the suffix: it is the domain or lies below it.
abbrev pub IsUnder : Text → Text → Type 0
IsUnder suffix domain = (domain ≡ suffix) ⊎ ((front : Text) × (domain ≡ front ++ b'.' ∷ suffix))

IsUnder-sound :
    (suffix v : Text) → (text_eq v suffix || ends_with (b'.' ∷ suffix) v) ≡ true → IsUnder suffix v
IsUnder-sound suffix v h = elim (Bool-cases (text_eq v suffix)) [
  | inl same ↦ inl ((text_eq_iff v suffix).0 same)
  | inr other ↦ inr ((ends_with_iff (b'.' ∷ suffix) v).0 (rw other at h))
]

IsUnder-complete :
    (suffix v : Text) → IsUnder suffix v → (text_eq v suffix || ends_with (b'.' ∷ suffix) v) ≡ true
IsUnder-complete suffix v (inl same) = rw ((text_eq_iff v suffix).1 same)
IsUnder-complete suffix v (inr below) = ground (arith, (ends_with_iff (b'.' ∷ suffix) v).1 below)

IsUnder-iff :
    (suffix v : Text)
    → ((text_eq v suffix || ends_with (b'.' ∷ suffix) v) ≡ true) ↔ IsUnder suffix v
IsUnder-iff suffix v = (IsUnder-sound suffix v, IsUnder-complete suffix v)

-- The suffix condition holds exactly when a domain of the packet is the suffix or lies below it, at
-- a label's boundary.
pub matches_domain_suffix_iff :
    (suffix : Text) (domains : List Text)
    → (matches_domain_suffix suffix domains ≡ true) ↔ Any (IsUnder suffix) domains
unfolding matches_domain_suffix
matches_domain_suffix_iff suffix domains = (
  any_sound _ (IsUnder suffix) (IsUnder-iff suffix) domains,
  any_complete _ (IsUnder suffix) (IsUnder-iff suffix) domains,
)

-- The domain condition holds exactly when the domain is one of the packet's.
pub matches_domain_iff :
    (domain : Text) (domains : List Text)
    → (matches_domain domain domains ≡ true) ↔ Any (λ v. v ≡ domain) domains
unfolding matches_domain
matches_domain_iff domain domains =
    let each = λ (v : Text). text_eq_iff v domain in
    (any_sound _ (λ v. v ≡ domain) each domains, any_complete _ (λ v. v ≡ domain) each domains)

-- A domain holds the keyword somewhere.
abbrev pub Holds : Text → Text → Type 0
Holds keyword v = (front : Text) × (rest : Text) × (v ≡ front ++ (keyword ++ rest))

-- A keyword condition holds exactly if one of the domains of the packet contains the keyword.
pub matches_domain_keyword_iff :
    (keyword : Text) (domains : List Text)
    → (matches_domain_keyword keyword domains ≡ true) ↔ Any (Holds keyword) domains
unfolding matches_domain_keyword
matches_domain_keyword_iff keyword domains =
    let each = λ (v : Text). contains_iff keyword v in
    (any_sound _ (Holds keyword) each domains, any_complete _ (Holds keyword) each domains)
