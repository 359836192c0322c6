-- ===== src/Text/Numbers/Numerals.antt =====
-- The characters of a decimal print.
use go_baseapp.Prelude.{ℕ, zero, suc, ◌+◌, ◌/◌, ◌%◌, ◌≤◌, [], ◌∷◌, arith, ◌==◌, if_ind, All}
use go_baseapp.Text.{Text, Lacks}
use go_baseapp.Text.Numbers.{ℤ, pos, negsuc, digits, format, itoa}

-- A minus sign or a digit.
abbrev pub IsNumeral : ℕ → Type 0
IsNumeral c = (b'-' ≤ c) × (c ≤ b'9')

digits-IsNumeral : (fuel n : ℕ) (out : Text) → All IsNumeral out → All IsNumeral (digits fuel n out)
unfolding digits
digits-IsNumeral zero n out h = h
digits-IsNumeral (suc fuel) n out h =
    if_ind (All IsNumeral) (n == 0) h
      (digits-IsNumeral fuel (n / 10) ((b'0' + n % 10) ∷ out) ((omega arith, omega arith), h))

format-IsNumeral : (n : ℕ) → All IsNumeral (format n)
unfolding format
format-IsNumeral zero = ((omega arith, omega arith), _)
format-IsNumeral (suc n) = digits-IsNumeral (suc n) (suc n) [] _

pub itoa-IsNumeral : (z : ℤ) → All IsNumeral (itoa z)
unfolding itoa
itoa-IsNumeral (pos n) = format-IsNumeral n
itoa-IsNumeral (negsuc n) = ((omega arith, omega arith), format-IsNumeral (suc n))

pub numerals-Lacks : (s : Text) → All IsNumeral s → Lacks b',' s
numerals-Lacks [] h = h
numerals-Lacks (c ∷ s) ((p, _), h) = ((λ e. omega (arith, e)), numerals-Lacks s h)
