-- ===== src/Text.antt =====
-- What the program uses of Rust's `str`: a text is the list of its code points. (Only whole texts
-- and single characters are compared, so the UTF-8 layout plays no part.)
pub mod Trim
pub mod Case
pub mod Split
pub mod Number
use Prim.Native.Char.{code}
use Prim.Native.String.{String}
use easynet.Prelude.{
  ℕ, ◌+◌, ◌-◌, ◌*◌, ◌<◌, ◌≡◌, refl, ◌↔◌, Bool, true, false, ◌&&◌, ◌||◌, Option, none, some, List,
  [], ◌∷◌, ◌++◌, map, arith, ltb, leb, ◌==◌, if◌then◌else◌, All,
}

abbrev pub Text : Type 0
Text = List ℕ

-- A literal of the source.
abbrev pub codes : String → Text
codes String.[] = []
codes (String.◌∷◌ c s) = code c ∷ codes s

-- `==` on `str`.
unfoldable pub text_eq : Text → Text → Bool
text_eq [] [] = true
text_eq [] (d ∷ t) = false
text_eq (c ∷ s) [] = false
text_eq (c ∷ s) (d ∷ t) = c == d && text_eq s t

pub text_eq_iff : (s t : Text) → (text_eq s t ≡ true) ↔ (s ≡ t)
unfolding text_eq
text_eq_iff [] [] = ground arith
text_eq_iff [] (d ∷ t) = ground arith
text_eq_iff (c ∷ s) [] = ground arith
text_eq_iff (c ∷ s) (d ∷ t) = ground (arith, text_eq_iff s t)

-- `char::is_whitespace`: the Unicode property White_Space.
unfoldable pub is_whitespace : ℕ → Bool
is_whitespace c =
    (leb 9 c && leb c 13)
    || c == 32
    || c == 0x85
    || c == 0xA0
    || c == 0x1680
    || (leb 0x2000 c && leb c 0x200A)
    || c == 0x2028
    || c == 0x2029
    || c == 0x202F
    || c == 0x205F
    || c == 0x3000

unfoldable pub trim_start : Text → Text
trim_start [] = []
trim_start (c ∷ s) = if is_whitespace c then trim_start s else c ∷ s

-- What stands in front of a stripped rest: the character goes if it passes and nothing is left.
glue : (ℕ → Bool) → ℕ → Text → Text
glue p c [] = if p c then [] else c ∷ []
glue p c (d ∷ s) = c ∷ d ∷ s

-- Strip the characters at the end that pass a test.
unfoldable pub strip_end : (ℕ → Bool) → Text → Text
unfolding glue
strip_end p [] = []
strip_end p (c ∷ s) = glue p c (strip_end p s)

unfoldable pub trim : Text → Text
unfolding strip_end trim_start is_whitespace
trim s = strip_end is_whitespace (trim_start s)

unfoldable pub trim_end_matches : ℕ → Text → Text
unfolding strip_end
trim_end_matches ch s = strip_end (λ c. c == ch) s

unfoldable pub lower_char : ℕ → ℕ
lower_char c = if leb b'A' c && leb c b'Z' then c + 32 else c

unfoldable pub upper_char : ℕ → ℕ
upper_char c = if leb b'a' c && leb c b'z' then c - 32 else c

unfoldable pub to_ascii_lowercase : Text → Text
unfolding lower_char
to_ascii_lowercase s = map lower_char s

unfoldable pub to_ascii_uppercase : Text → Text
unfolding upper_char
to_ascii_uppercase s = map upper_char s

unfoldable pub eq_ignore_ascii_case : Text → Text → Bool
unfolding to_ascii_lowercase text_eq
eq_ignore_ascii_case s t = text_eq (to_ascii_lowercase s) (to_ascii_lowercase t)

-- `split` by a character: one part more than there are separators.
into_first : ℕ → List Text → List Text
into_first c [] = (c ∷ []) ∷ []
into_first c (p ∷ ps) = (c ∷ p) ∷ ps

unfoldable pub split : ℕ → Text → List Text
unfolding into_first
split sep [] = [] ∷ []
split sep (c ∷ s) = let rest = split sep s in if c == sep then [] ∷ rest else into_first c rest

unfoldable pub starts_with : Text → Text → Bool
starts_with [] s = true
starts_with (d ∷ p) [] = false
starts_with (d ∷ p) (c ∷ s) = c == d && starts_with p s

-- `contains` a text.
unfoldable pub contains : Text → Text → Bool
unfolding starts_with
contains p [] = starts_with p []
contains p (c ∷ s) = starts_with p (c ∷ s) || contains p s

unfoldable pub ends_with : Text → Text → Bool
unfolding text_eq
ends_with p [] = text_eq p []
ends_with p (c ∷ s) = text_eq p (c ∷ s) || ends_with p s

-- `contains` a character.
unfoldable pub has_char : ℕ → Text → Bool
has_char ch [] = false
has_char ch (c ∷ s) = c == ch || has_char ch s

abbrev pub u16_max : ℕ
u16_max = 65535

is_digit : ℕ → Bool
is_digit c = leb b'0' c && leb c b'9'

-- The digits of an unsigned number that may not pass `bound`, behind a value read so far.
unfoldable pub scan_digits : ℕ → ℕ → Text → Option ℕ
unfolding is_digit
scan_digits bound n [] = some n
scan_digits bound n (c ∷ s) =
    let rest = scan_digits bound (n * 10 + (c - b'0')) s in
    if is_digit c then if ltb bound (n * 10 + (c - b'0')) then none else rest else none

-- `str::parse` at an unsigned type: a plus sign may stand in front, and there is a digit.
unfoldable pub parse_unsigned : ℕ → Text → Option ℕ
unfolding scan_digits
parse_unsigned bound [] = none
parse_unsigned bound (c ∷ []) = scan_digits bound 0 (c ∷ [])
parse_unsigned bound (c ∷ d ∷ s) =
    if c == b'+' then scan_digits bound 0 (d ∷ s) else scan_digits bound 0 (c ∷ d ∷ s)

-- `parse::<u16>`.
unfoldable pub parse_u16 : Text → Option ℕ
unfolding parse_unsigned
parse_u16 s = parse_unsigned u16_max s

-- `str::to_lowercase` follows the Unicode tables, which the program does not hold. On ASCII it is
-- `to_ascii_lowercase`.
pub record Unicode : Type 0 where
  pub to_lowercase : Text → Text
  pub to_lowercase_ascii : (s : Text) → All (λ c. c < 128) s → to_lowercase s ≡ to_ascii_lowercase s
