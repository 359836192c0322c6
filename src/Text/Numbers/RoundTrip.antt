-- ===== src/Text/Numbers/RoundTrip.antt =====
-- Every int is read back from its decimal print.
use go_baseapp.Prelude.{
  ℕ, zero, suc, ◌+◌, ◌/◌, ◌%◌, ◌≤◌, ◌<◌, ◌≡◌, refl, ◌∙◌, inl, inr, false, some, [], ◌∷◌, arith,
  ◌==◌, Bool-cases,
}
use go_baseapp.Text.{Text}
use go_baseapp.Text.Numbers.{
  ℤ, pos, negsuc, two63, IsInt64, scan_digits, magnitude, atoi, digits, format, itoa,
}

-- Reading the digits written so far, in front of any rest.
scan_digits-digits :
    (fuel n : ℕ) (out : Text) → n ≤ fuel → scan_digits (digits fuel n out) 0 ≡ scan_digits out n
unfolding digits scan_digits
scan_digits-digits zero n out h = ground arith
scan_digits-digits (suc fuel) n out h =
    ground (arith, scan_digits-digits fuel (n / 10) ((b'0' + n % 10) ∷ out))

pub scan_digits-format : (n : ℕ) → scan_digits (format n) 0 ≡ some n
unfolding format
scan_digits-format zero = unfold scan_digits in refl
scan_digits-format (suc n) =
    scan_digits-digits (suc n) (suc n) [] (omega arith) ∙ unfold scan_digits in refl

-- The first character is a digit.
abbrev pub StartsWithDigit : Text → Type 0
StartsWithDigit [] = ⊥
StartsWithDigit (c ∷ s) = (b'0' ≤ c) × (c ≤ b'9')

digits-StartsWithDigit :
    (fuel n : ℕ) (out : Text) → StartsWithDigit out → StartsWithDigit (digits fuel n out)
unfolding digits
digits-StartsWithDigit zero n out h = h
digits-StartsWithDigit (suc fuel) n out h = elim (Bool-cases (n == 0)) [
  | inl e ↦ rw e h
  | inr e ↦
      rw e (digits-StartsWithDigit fuel (n / 10) ((b'0' + n % 10) ∷ out) (omega arith, omega arith))
]

pub format-StartsWithDigit : (n : ℕ) → StartsWithDigit (format n)
unfolding format digits
format-StartsWithDigit zero = (omega arith, omega arith)
format-StartsWithDigit (suc n) =
    let positive : (suc n == 0) ≡ false = ground arith in
    rw positive
      (digits-StartsWithDigit n (suc n / 10) ((b'0' + suc n % 10) ∷ []) (omega arith, omega arith))

pub magnitude-scan : (s : Text) → StartsWithDigit s → magnitude s ≡ scan_digits s 0
unfolding magnitude
magnitude-scan [] h = absurd h
magnitude-scan (c ∷ s) h = refl

atoi_digit :
    (s : Text) (n : ℕ)
    → StartsWithDigit s
    → magnitude s ≡ some n
    → n < two63
    → atoi s ≡ some (pos n)
unfolding atoi
atoi_digit [] n h e lt = absurd h
atoi_digit (c ∷ s) n h e lt = ground arith

-- Every int is read back from its decimal print.
pub atoi-itoa : (z : ℤ) → IsInt64 z → atoi (itoa z) ≡ some z
unfolding itoa
atoi-itoa (pos n) h =
    let start = format-StartsWithDigit n in
    atoi_digit (format n) n start (magnitude-scan _ start ∙ scan_digits-format n) h
atoi-itoa (negsuc n) h =
    let start = format-StartsWithDigit (suc n) in
    let m : magnitude (format (suc n)) ≡ some (suc n) =
      magnitude-scan _ start ∙ scan_digits-format (suc n) in
    unfold atoi in rw m (ground arith)
