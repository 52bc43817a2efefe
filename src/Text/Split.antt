-- ===== src/Text/Split.antt =====
-- Splitting by a character, and the searches.
use easynet.Prelude.{
  ℕ, ◌≡◌, refl, ◌≢◌, ◌↔◌, inl, inr, ap, true, List, [], ◌∷◌, ◌++◌, arith, All, ◌==◌, Bool-cases,
}
use easynet.Text.{Text, text_eq, text_eq_iff, into_first, split, starts_with, contains, ends_with}

abbrev pub Lacks : ℕ → Text → Type 0
Lacks sep = All (λ c. c ≢ sep)

module _ (sep : ℕ) where
  into_first-append : (c : ℕ) (p : Text) (ps : List Text) → into_first c (p ∷ ps) ≡ (c ∷ p) ∷ ps
  unfolding into_first
  into_first-append c p ps = refl

  pub split_last : (p : Text) → Lacks sep p → split sep p ≡ p ∷ []
  unfolding split
  split_last [] h = refl
  split_last (c ∷ p) h = ground (arith, split_last p h.1)

  -- The first separator ends the first part.
  pub split_cons : (p rest : Text) → Lacks sep p → split sep (p ++ sep ∷ rest) ≡ p ∷ split sep rest
  unfolding split
  split_cons [] rest h = ground arith
  split_cons (c ∷ p) rest h = ground (arith, split_cons p rest h.1)

  into_first-Lacks :
      (c : ℕ) (ps : List Text) → c ≢ sep → All (Lacks sep) ps → All (Lacks sep) (into_first c ps)
  unfolding into_first
  into_first-Lacks c [] h a = ((h, tt), tt)
  into_first-Lacks c (p ∷ ps) h a = ((h, a.0), a.1)

  -- No part holds the separator.
  pub split-Lacks : (s : Text) → All (Lacks sep) (split sep s)
  unfolding split
  split-Lacks [] = (tt, tt)
  split-Lacks (c ∷ s) = elim (Bool-cases (c == sep)) [
    | inl e ↦ rw (e, split) (tt, split-Lacks s)
    | inr e ↦ rw (e, split) (into_first-Lacks c (split sep s) (ground arith) (split-Lacks s))
  ]

starts_with_sound : (p s : Text) → starts_with p s ≡ true → (rest : Text) × (s ≡ p ++ rest)
unfolding starts_with
starts_with_sound [] s e = (s, refl)
starts_with_sound (d ∷ p) [] e = cc
starts_with_sound (d ∷ p) (c ∷ s) e =
    let (rest, eq) = starts_with_sound p s (ground arith) in (rest, ground arith)

starts_with_complete : (p rest : Text) → starts_with p (p ++ rest) ≡ true
unfolding starts_with
starts_with_complete [] rest = refl
starts_with_complete (d ∷ p) rest = ground (arith, starts_with_complete p rest)

-- `starts_with` finds exactly the prefixes.
pub starts_with_iff : (p s : Text) → (starts_with p s ≡ true) ↔ ((rest : Text) × (s ≡ p ++ rest))
starts_with_iff p s = (starts_with_sound p s, λ (rest, e). rw e (starts_with_complete p rest))

ends_with_sound : (p s : Text) → ends_with p s ≡ true → (front : Text) × (s ≡ front ++ p)
unfolding ends_with
ends_with_sound p [] e = ([], ground (arith, text_eq_iff p []))
ends_with_sound p (c ∷ s) e = elim (Bool-cases (text_eq p (c ∷ s))) [
  | inl same ↦ ([], ground (arith, text_eq_iff p (c ∷ s)))
  | inr other ↦
      let (front, eq) = ends_with_sound p s (ground arith) in (c ∷ front, ap (λ t. c ∷ t) eq)
]

ends_with_self : (p : Text) → ends_with p p ≡ true
unfolding ends_with
ends_with_self [] = (text_eq_iff [] []).1 refl
ends_with_self (c ∷ p) = ground (arith, text_eq_iff (c ∷ p) (c ∷ p))

ends_with_complete : (front p : Text) → ends_with p (front ++ p) ≡ true
unfolding ends_with
ends_with_complete [] p = ends_with_self p
ends_with_complete (c ∷ front) p = ground (arith, ends_with_complete front p)

-- `ends_with` finds exactly the suffixes.
pub ends_with_iff : (p s : Text) → (ends_with p s ≡ true) ↔ ((front : Text) × (s ≡ front ++ p))
ends_with_iff p s = (ends_with_sound p s, λ (front, e). rw e (ends_with_complete front p))

contains_sound :
    (p s : Text) → contains p s ≡ true → (front : Text) × (rest : Text) × (s ≡ front ++ (p ++ rest))
unfolding contains
contains_sound p [] e = let (rest, eq) = starts_with_sound p [] e in ([], rest, eq)
contains_sound p (c ∷ s) e = elim (Bool-cases (starts_with p (c ∷ s))) [
  | inl here ↦ let (rest, eq) = starts_with_sound p (c ∷ s) here in ([], rest, eq)
  | inr later ↦
      let (front, rest, eq) = contains_sound p s (ground arith) in
      (c ∷ front, rest, ap (λ t. c ∷ t) eq)
]

contains_of_starts : (p s : Text) → starts_with p s ≡ true → contains p s ≡ true
unfolding contains
contains_of_starts p [] e = e
contains_of_starts p (c ∷ s) e = ground arith

contains_complete : (front p rest : Text) → contains p (front ++ (p ++ rest)) ≡ true
unfolding contains
contains_complete [] p rest = contains_of_starts p (p ++ rest) (starts_with_complete p rest)
contains_complete (c ∷ front) p rest = ground (arith, contains_complete front p rest)

-- `contains` finds a text wherever it stands.
pub contains_iff :
    (p s : Text)
    → (contains p s ≡ true) ↔ ((front : Text) × (rest : Text) × (s ≡ front ++ (p ++ rest)))
contains_iff p s = (contains_sound p s, λ (front, rest, e). rw e (contains_complete front p rest))
