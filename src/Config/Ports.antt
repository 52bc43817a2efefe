-- ===== src/Config/Ports.antt =====
-- Port ranges: `parse_port_range` of src/config.rs and `matches_port` of src/rules/matcher.rs.
use easynet.Prelude.{
  ℕ, ◌≤◌, ◌≡◌, refl, ◌≢◌, true, false, Option, none, some, List, [], ◌∷◌, ◌++◌, arith, leb, All,
  All-imp, ok, ◌>>=◌, >>=-eq-ok, guard, Bool-cases, inl, inr,
}
use easynet.Text.{Text, split, has_char, parse_u16, u16_max}
use easynet.Text.Split.{Lacks, split_cons, split_last}
use easynet.Text.Number.{IsDigit, value, parse_u16_bound, parse_u16_digits}
use easynet.Config.{
  PortError, bad_port, bad_start, bad_end, range_of_parts, parse_port_range, or_error,
}

or_error-eq-ok : (e : PortError) (o : Option ℕ) (n : ℕ) → or_error e o ≡ ok n → o ≡ some n
or_error-eq-ok e none n h = cc
or_error-eq-ok e (some m) n h = cc

range_of_parts_bounds :
    (parts : List Text) (a b : ℕ) → range_of_parts parts ≡ ok (a, b) → (a ≤ b) × (b ≤ u16_max)
unfolding range_of_parts
range_of_parts_bounds [] a b h = cc
range_of_parts_bounds (p ∷ []) a b h = cc
range_of_parts_bounds (p ∷ q ∷ []) a b h =
    let (start, e, rest) = >>=-eq-ok (or_error bad_start (parse_u16 p)) _ h in
    let (stop, e', last) = >>=-eq-ok (or_error bad_end (parse_u16 q)) _ rest in
    let fits = parse_u16_bound q stop (or_error-eq-ok bad_end (parse_u16 q) stop e') in ground arith
range_of_parts_bounds (p ∷ q ∷ r ∷ rest) a b h = cc

-- A range that is parsed starts no later than it ends, and its ports fit into 16 bits.
pub parse_port_range_bounds :
    (s : Text) (a b : ℕ) → parse_port_range s ≡ ok (a, b) → (a ≤ b) × (b ≤ u16_max)
unfolding parse_port_range
parse_port_range_bounds s a b h = elim (Bool-cases (has_char b'-' s)) [
  | inl dash ↦ range_of_parts_bounds (split b'-' s) a b (rw (dash, parse_port_range) at h)
  | inr plain ↦
      let (port, e, same) =
        >>=-eq-ok (or_error bad_port (parse_u16 s)) _ (rw (plain, parse_port_range) at h) in
      let fits = parse_u16_bound s port (or_error-eq-ok bad_port (parse_u16 s) port e) in
      ground arith
]

-- The decimal print of a port, with leading zeros allowed.
pub record IsPort (s : Text) : Type 0 where
  pub filled : s ≢ []
  pub digits : All IsDigit s
  pub fits : value 0 s ≤ u16_max

digits-Lacks : (s : Text) → All IsDigit s → Lacks b'-' s
digits-Lacks s h = All-imp s (λ c d. ground arith) h

has_char_dash : (s t : Text) → has_char b'-' (s ++ b'-' ∷ t) ≡ true
unfolding has_char
has_char_dash [] t = refl
has_char_dash (c ∷ s) t = ground (arith, has_char_dash s t)

has_char_none : (s : Text) → Lacks b'-' s → has_char b'-' s ≡ false
unfolding has_char
has_char_none [] h = refl
has_char_none (c ∷ s) h = ground (arith, has_char_none s h.1)

-- Two ports with a dash between them are a range exactly when they stand in order.
pub parse_port_range_dash :
    (lo hi : Text)
    → IsPort lo
    → IsPort hi
    → parse_port_range (lo ++ b'-' ∷ hi) ≡ (
        guard (leb (value 0 lo) (value 0 hi)) PortError.start_after_end >>= λ _.
        ok (value 0 lo, value 0 hi))
unfolding parse_port_range range_of_parts
parse_port_range_dash lo hi l h = rw (
  has_char_dash lo hi,
  split_cons b'-' lo hi (digits-Lacks lo l.digits),
  split_last b'-' hi (digits-Lacks hi h.digits),
  parse_u16_digits lo l.filled l.digits l.fits,
  parse_u16_digits hi h.filled h.digits h.fits,
)
