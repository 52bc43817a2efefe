-- ===== src/Text/Number.antt =====
-- What `parse` accepts at an unsigned type, and what it returns.
use easynet.Prelude.{
  ℕ, ◌+◌, ◌-◌, ◌*◌, ◌≤◌, ◌≡◌, refl, ◌≢◌, inl, inr, false, [], ◌∷◌, some, arith, All, ◌==◌,
  Bool-cases,
}
use easynet.Text.{Text, scan_digits, parse_unsigned, parse_u16, u16_max}

abbrev pub IsDigit : ℕ → Type 0
IsDigit c = (b'0' ≤ c) × (c ≤ b'9')

-- The number that digits spell behind `n`.
abbrev pub value : ℕ → Text → ℕ
value n [] = n
value n (c ∷ s) = value (n * 10 + (c - b'0')) s

scan_digits_sound :
    (bound n : ℕ) (s : Text) (r : ℕ)
    → n ≤ bound
    → scan_digits bound n s ≡ some r
    → All IsDigit s × (r ≡ value n s) × (r ≤ bound)
unfolding scan_digits
scan_digits_sound bound n [] r fits h = ground arith
scan_digits_sound bound n (c ∷ s) r fits h =
    ground (arith, scan_digits_sound bound (n * 10 + (c - b'0')) s r)

pub le-value : (n : ℕ) (s : Text) → n ≤ value n s
le-value n [] = omega arith
le-value n (c ∷ s) = omega (arith, le-value (n * 10 + (c - b'0')) s)

pub scan_digits_complete :
    (bound n : ℕ) (s : Text)
    → All IsDigit s
    → value n s ≤ bound
    → scan_digits bound n s ≡ some (value n s)
unfolding scan_digits
scan_digits_complete bound n [] _ _ = refl
scan_digits_complete bound n (c ∷ s) (hc, hs) fits =
    let m = n * 10 + (c - b'0') in
    ground (arith, scan_digits_complete bound m s hs fits, le-value m s)

pub parse_u16_bound : (s : Text) (r : ℕ) → parse_u16 s ≡ some r → r ≤ u16_max
unfolding parse_u16 parse_unsigned
parse_u16_bound [] r h = cc
parse_u16_bound (c ∷ []) r h = (scan_digits_sound u16_max 0 (c ∷ []) r (omega arith) h).2
parse_u16_bound (c ∷ d ∷ s) r h = elim (Bool-cases (c == b'+')) [
  | inl plus ↦
      (scan_digits_sound u16_max 0 (d ∷ s) r (omega arith) (rw (plus, parse_unsigned) at h)).2
  | inr bare ↦
      (scan_digits_sound u16_max 0 (c ∷ d ∷ s) r (omega arith) (rw (bare, parse_unsigned) at h)).2
]

-- One or more digits that spell a port are read as that port.
pub parse_u16_digits :
    (s : Text) → s ≢ [] → All IsDigit s → value 0 s ≤ u16_max → parse_u16 s ≡ some (value 0 s)
unfolding parse_u16 parse_unsigned
parse_u16_digits [] ne _ _ = absurd (ne refl)
parse_u16_digits (c ∷ []) _ h fits = scan_digits_complete u16_max 0 (c ∷ []) h fits
parse_u16_digits (c ∷ d ∷ s) _ h fits =
    let bare : (c == b'+') ≡ false = ground arith in
    rw (bare, parse_unsigned) (scan_digits_complete u16_max 0 (c ∷ d ∷ s) h fits)
