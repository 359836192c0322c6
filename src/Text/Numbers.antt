-- ===== src/Text/Numbers.antt =====
-- strconv.Atoi, Itoa and ParseBool. An int has 64 bits.
pub mod RoundTrip
pub mod Numerals
pub mod Range
use go_baseapp.Prelude.{
  ℕ, zero, suc, ◌+◌, ◌-◌, ◌*◌, ◌/◌, ◌%◌, ◌^◌, ◌<◌, Bool, true, false, ◌&&◌, ◌||◌, Option, none,
  some, [], ◌∷◌, ltb, leb, ◌==◌, if◌then◌else◌,
}
use go_baseapp.Text.{Text, codes, text_eq}

-- `negsuc n` is -(n + 1).
pub data ℤ : Type 0 where
  pos : ℕ → ℤ
  negsuc : ℕ → ℤ

-- -n
unfoldable pub neg : ℕ → ℤ
neg zero = pos zero
neg (suc n) = negsuc n

abbrev pub two63 : ℕ
two63 = 2 ^ 63

-- A number that int64 can hold.
abbrev pub IsInt64 : ℤ → Type 0
IsInt64 (pos n) = n < two63
IsInt64 (negsuc n) = n < two63

-- The decimal digits read behind `n`; `none` is a syntax error.
unfoldable pub scan_digits : Text → ℕ → Option ℕ
scan_digits [] n = some n
scan_digits (c ∷ s) n =
    if leb b'0' c && leb c b'9' then scan_digits s (n * 10 + (c - b'0')) else none

unfoldable pub magnitude : Text → Option ℕ
unfolding scan_digits
magnitude [] = none
magnitude (c ∷ s) = scan_digits (c ∷ s) 0

in_range_pos : Option ℕ → Option ℤ
in_range_pos none = none
in_range_pos (some n) = if ltb n two63 then some (pos n) else none

in_range_neg : Option ℕ → Option ℤ
in_range_neg none = none
in_range_neg (some n) = if leb n two63 then some (neg n) else none

-- strconv.Atoi; `none` is any of its errors.
unfoldable pub atoi : Text → Option ℤ
unfolding magnitude in_range_pos in_range_neg neg
atoi [] = none
atoi (c ∷ s) =
    if c == b'-'
    then in_range_neg (magnitude s)
    else if c == b'+'
    then in_range_pos (magnitude s)
    else in_range_pos (magnitude (c ∷ s))

-- The digits of `n` in front of `out`; `fuel` bounds their number.
digits : ℕ → ℕ → Text → Text
digits zero n out = out
digits (suc fuel) n out =
    let rest = digits fuel (n / 10) ((b'0' + n % 10) ∷ out) in if n == 0 then out else rest

unfoldable pub format : ℕ → Text
unfolding digits
format zero = b'0' ∷ []
format (suc n) = digits (suc n) (suc n) []

-- strconv.Itoa
unfoldable pub itoa : ℤ → Text
unfolding format
itoa (pos n) = format n
itoa (negsuc n) = b'-' ∷ format (suc n)

-- strconv.ParseBool
unfoldable pub parse_bool : Text → Option Bool
parse_bool s =
    if text_eq s (codes "1")
      || text_eq s (codes "t")
      || text_eq s (codes "T")
      || text_eq s (codes "TRUE")
      || text_eq s (codes "true")
      || text_eq s (codes "True")
    then some true
    else if text_eq s (codes "0")
        || text_eq s (codes "f")
        || text_eq s (codes "F")
        || text_eq s (codes "FALSE")
        || text_eq s (codes "false")
        || text_eq s (codes "False")
    then some false
    else none
