-- ===== src/Text/Case.antt =====
-- Letter case: the mappings keep their values, and do not touch the separators.
use easynet.Prelude.{ℕ, ◌≡◌, refl, [], ◌∷◌, map, arith, ◌==◌}
use easynet.Text.{
  Text, glue, strip_end, trim_end_matches, lower_char, upper_char, to_ascii_lowercase,
  to_ascii_uppercase,
}

lower_char_idem : (c : ℕ) → lower_char (lower_char c) ≡ lower_char c
unfolding lower_char
lower_char_idem c = ground arith

upper_char_idem : (c : ℕ) → upper_char (upper_char c) ≡ upper_char c
unfolding upper_char
upper_char_idem c = ground arith

pub to_ascii_lowercase_idem :
    (s : Text) → to_ascii_lowercase (to_ascii_lowercase s) ≡ to_ascii_lowercase s
unfolding to_ascii_lowercase
to_ascii_lowercase_idem [] = refl
to_ascii_lowercase_idem (c ∷ s) = cc (lower_char_idem c, to_ascii_lowercase_idem s)

pub to_ascii_uppercase_idem :
    (s : Text) → to_ascii_uppercase (to_ascii_uppercase s) ≡ to_ascii_uppercase s
unfolding to_ascii_uppercase
to_ascii_uppercase_idem [] = refl
to_ascii_uppercase_idem (c ∷ s) = cc (upper_char_idem c, to_ascii_uppercase_idem s)

lower_char_dot : (c : ℕ) → (lower_char c == b'.') ≡ (c == b'.')
unfolding lower_char
lower_char_dot c = ground arith

glue-lower :
    (c : ℕ) (t : Text)
    → glue (λ d. d == b'.') (lower_char c) (map lower_char t)
      ≡ map lower_char (glue (λ d. d == b'.') c t)
unfolding glue
glue-lower c [] = ground (arith, lower_char_dot c)
glue-lower c (d ∷ t) = refl

-- Dots at the end go before or after the letters are lowered.
pub trim_end_matches-lower :
    (s : Text)
    → trim_end_matches b'.' (to_ascii_lowercase s) ≡ to_ascii_lowercase (trim_end_matches b'.' s)
unfolding trim_end_matches to_ascii_lowercase strip_end
trim_end_matches-lower [] = refl
trim_end_matches-lower (c ∷ s) =
    rw (trim_end_matches-lower s) (glue-lower c (strip_end (λ d. d == b'.') s))
