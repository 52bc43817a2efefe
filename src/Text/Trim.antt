-- ===== src/Text/Trim.antt =====
-- Trimming: what is stripped, and that a second time changes nothing.
use easynet.Prelude.{ℕ, ◌≡◌, refl, Bool, false, [], ◌∷◌, arith, All, Bool-cases, inl, inr}
use easynet.Text.{Text, is_whitespace, trim_start, glue, strip_end, trim}

pub strip_end_idem : (p : ℕ → Bool) (s : Text) → strip_end p (strip_end p s) ≡ strip_end p s
unfolding strip_end
strip_end_idem p [] = refl
strip_end_idem p (c ∷ s) = again (strip_end p s) (strip_end_idem p s)
  where
    again : (t : Text) → strip_end p t ≡ t → strip_end p (glue p c t) ≡ glue p c t
    again [] e = ground arith
    again (d ∷ t) e = rw e

-- Nothing is added.
pub strip_end-All : (p : ℕ → Bool) (P : ℕ → Type 0) (s : Text) → All P s → All P (strip_end p s)
unfolding strip_end
strip_end-All p P [] h = tt
strip_end-All p P (c ∷ s) h = keep (strip_end p s) (strip_end-All p P s h.1)
  where
    keep : (t : Text) → All P t → All P (glue p c t)
    keep [] a = elim (Bool-cases (p c)) [ inl e ↦ rw (e, glue) tt | inr e ↦ rw (e, glue) (h.0, tt) ]
    keep (d ∷ t) a = (h.0, a)

-- A text of which no character passes is left alone.
pub strip_end_none : (p : ℕ → Bool) (s : Text) → All (λ c. p c ≡ false) s → strip_end p s ≡ s
unfolding strip_end
strip_end_none p [] h = refl
strip_end_none p (c ∷ s) h = rw (strip_end_none p s h.1) (last s)
  where
    last : (t : Text) → glue p c t ≡ c ∷ t
    last [] = rw (h.0, glue)
    last (d ∷ t) = refl

-- A text whose first character does not pass keeps it.
abbrev pub HeadFails : (ℕ → Bool) → Text → Type 0
HeadFails p [] = Unit
HeadFails p (c ∷ s) = p c ≡ false

strip_end-HeadFails : (p q : ℕ → Bool) (s : Text) → HeadFails q s → HeadFails q (strip_end p s)
unfolding strip_end
strip_end-HeadFails p q [] h = tt
strip_end-HeadFails p q (c ∷ s) h = first (strip_end p s)
  where
    first : (t : Text) → HeadFails q (glue p c t)
    first [] = elim (Bool-cases (p c)) [ inl e ↦ rw (e, glue) tt | inr e ↦ rw (e, glue) h ]
    first (d ∷ t) = h

trim_start-HeadFails : (s : Text) → HeadFails is_whitespace (trim_start s)
unfolding trim_start
trim_start-HeadFails [] = tt
trim_start-HeadFails (c ∷ s) = elim (Bool-cases (is_whitespace c)) [
  | inl e ↦ rw (e, trim_start) (trim_start-HeadFails s)
  | inr e ↦ rw (e, trim_start) e
]

trim_start_of : (s : Text) → HeadFails is_whitespace s → trim_start s ≡ s
unfolding trim_start
trim_start_of [] h = refl
trim_start_of (c ∷ s) h = rw h

pub trim_idem : (s : Text) → trim (trim s) ≡ trim s
unfolding trim
trim_idem s =
    rw (trim_start_of _ (strip_end-HeadFails is_whitespace _ _ (trim_start-HeadFails s)))
      (strip_end_idem is_whitespace (trim_start s))

trim_start-All : (P : ℕ → Type 0) (s : Text) → All P s → All P (trim_start s)
unfolding trim_start
trim_start-All P [] h = tt
trim_start-All P (c ∷ s) h = elim (Bool-cases (is_whitespace c)) [
  | inl e ↦ rw (e, trim_start) (trim_start-All P s h.1)
  | inr e ↦ rw (e, trim_start) h
]

pub trim-All : (P : ℕ → Type 0) (s : Text) → All P s → All P (trim s)
unfolding trim
trim-All P s h = strip_end-All _ P (trim_start s) (trim_start-All P s h)

-- A text without white space is trimmed.
pub trim_none : (s : Text) → All (λ c. is_whitespace c ≡ false) s → trim s ≡ s
unfolding trim
trim_none [] h = refl
trim_none (c ∷ s) h = rw (trim_start_of (c ∷ s) h.0) (strip_end_none is_whitespace (c ∷ s) h)
