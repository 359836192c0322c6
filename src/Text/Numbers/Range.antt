-- ===== src/Text/Numbers/Range.antt =====
-- The range of int64 in strconv.Atoi: what it returns lies in it, and a number outside is an error.
use go_baseapp.Prelude.{
  ℕ, zero, suc, ◌≤◌, ◌≡◌, ◌∙◌, Option, none, some, [], ◌∷◌, arith, ◌==◌, if_ind,
}
use native.Mathlib.Decide.{dec_lt}
use go_baseapp.Text.{Text}
use go_baseapp.Text.Numbers.{
  ℤ, pos, negsuc, neg, two63, IsInt64, magnitude, in_range_pos, in_range_neg, atoi, format, itoa,
}
use go_baseapp.Text.Numbers.RoundTrip.{
  StartsWithDigit, format-StartsWithDigit, magnitude-scan, scan_digits-format,
}

in_range_pos-IsInt64 : (o : Option ℕ) (z : ℤ) → in_range_pos o ≡ some z → IsInt64 z
unfolding in_range_pos
in_range_pos-IsInt64 none z h = cc
in_range_pos-IsInt64 (some n) (pos k) h = ground arith
in_range_pos-IsInt64 (some n) (negsuc k) h = ground arith

in_range_neg-IsInt64 : (o : Option ℕ) (z : ℤ) → in_range_neg o ≡ some z → IsInt64 z
unfolding in_range_neg neg
in_range_neg-IsInt64 none z h = cc
in_range_neg-IsInt64 (some zero) (pos k) h = ground arith
in_range_neg-IsInt64 (some zero) (negsuc k) h = ground arith
in_range_neg-IsInt64 (some (suc n)) (pos k) h = ground arith
in_range_neg-IsInt64 (some (suc n)) (negsuc k) h = ground arith

pub atoi-IsInt64 : (s : Text) (z : ℤ) → atoi s ≡ some z → IsInt64 z
unfolding atoi
atoi-IsInt64 [] z h = cc
atoi-IsInt64 (c ∷ s) z h =
    if_ind (λ o. o ≡ some z → IsInt64 z) (c == b'-') (in_range_neg-IsInt64 (magnitude s) z)
      (if_ind (λ o. o ≡ some z → IsInt64 z) (c == b'+') (in_range_pos-IsInt64 (magnitude s) z)
        (in_range_pos-IsInt64 (magnitude (c ∷ s)) z))
      h

magnitude-format : (n : ℕ) → magnitude (format n) ≡ some n
magnitude-format n = magnitude-scan (format n) (format-StartsWithDigit n) ∙ scan_digits-format n

atoi_digit_overflow :
    (s : Text) (n : ℕ) → StartsWithDigit s → magnitude s ≡ some n → two63 ≤ n → atoi s ≡ none
unfolding atoi in_range_pos
atoi_digit_overflow [] n h e le = absurd h
atoi_digit_overflow (c ∷ s) n h e le = ground arith

pub atoi-itoa_overflow : (z : ℤ) → ¬ IsInt64 z → atoi (itoa z) ≡ none
unfolding itoa atoi in_range_neg
atoi-itoa_overflow (pos n) h =
    atoi_digit_overflow (format n) n (format-StartsWithDigit n) (magnitude-format n) (omega arith)
atoi-itoa_overflow (negsuc n) h = ground (arith, magnitude-format (suc n))

pub IsInt64-Dec : (z : ℤ) → Dec (IsInt64 z)
IsInt64-Dec (pos n) = dec_lt n two63
IsInt64-Dec (negsuc n) = dec_lt n two63
