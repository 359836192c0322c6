-- ===== src/Appmetrics/Samples/Written.antt =====
-- The documented forms of a sample tag are read as the samples that they name.
use mathlib.Core.List.{cons-ne-nil}
use go_baseapp.Prelude.{◌≡◌, refl, ap, ◌∙◌, ◌≢◌, inl, inr, some, List, [], ◌∷◌, ◌++◌, arith, All}
use go_baseapp.Text.{Text, codes, join, Lacks, text_eq}
use go_baseapp.Text.Splitting.{split-join}
use go_baseapp.Text.Numbers.{ℤ, itoa, atoi, IsInt64}
use go_baseapp.Text.Numbers.RoundTrip.{atoi-itoa}
use go_baseapp.Text.Numbers.Numerals.{IsNumeral, itoa-IsNumeral, numerals-Lacks}
use go_baseapp.Appmetrics.Samples.{
  Parsing, uniform, exp_decay, invalid_exp_decay, default_reservoir_size, to_lower, lower,
  parse_sample, parse_parts, lower, parse_exp_decay_sample, parse_uniform_sample, exp_decay_of,
  uniform_of,
}

module _ (p : Parsing) where
  open p use {Float, parse_float, default_exp_decay_alpha}

  to_lower-append : (s t : Text) → to_lower p (s ++ t) ≡ to_lower p s ++ to_lower p t
  unfolding to_lower
  to_lower-append [] t = refl
  to_lower-append (c ∷ s) t = ap (λ u. lower p c ∷ u) (to_lower-append s t)

  to_lower_numerals : (s : Text) → All IsNumeral s → to_lower p s ≡ s
  unfolding to_lower lower
  to_lower_numerals [] h = refl
  to_lower_numerals (c ∷ s) (n, h) = ground (arith, to_lower_numerals s h)

  to_lower-itoa : (z : ℤ) → to_lower p (itoa z) ≡ itoa z
  to_lower-itoa z = to_lower_numerals (itoa z) (itoa-IsNumeral z)

  itoa-Lacks : (z : ℤ) → Lacks b',' (itoa z)
  itoa-Lacks z = numerals-Lacks (itoa z) (itoa-IsNumeral z)

  -- Parts without commas that are in lower case are read one by one.
  parse_sample-join :
      (ps : List Text)
      → ps ≢ []
      → All (Lacks b',') ps
      → to_lower p (join ps b',') ≡ join ps b','
      → parse_sample p (join ps b',') ≡ parse_parts p ps
  unfolding parse_sample
  parse_sample-join ps n h l = rw (l, split-join ps b',' n h) refl

  lowered : (s t : Text) → to_lower p s ≡ s → to_lower p t ≡ t → to_lower p (s ++ t) ≡ s ++ t
  lowered s t hs ht = rw (to_lower-append s t, hs, ht) refl

  -- A tag of either form is read by its parts, whatever number stands for the size.
  pub parse_sample-uniform :
      (n : ℤ) → parse_sample p (codes "uniform," ++ itoa n) ≡ uniform_of p (atoi (itoa n))
  unfolding parse_parts parse_uniform_sample text_eq join
  parse_sample-uniform n =
      let low =
        lowered (codes "uniform,") (itoa n) (unfold to_lower in unfold lower in refl)
          (to_lower-itoa n) in
      parse_sample-join (codes "uniform" ∷ itoa n ∷ []) (cons-ne-nil _ _)
        (omega arith, (itoa-Lacks n, _)) low

  pub parse_sample-exp_decay :
      (n : ℤ) (alpha : Text)
      → to_lower p alpha ≡ alpha
      → Lacks b',' alpha
      → parse_sample p (codes "expdecay," ++ (itoa n ++ b',' ∷ alpha))
        ≡ exp_decay_of p (atoi (itoa n)) (parse_float alpha)
  unfolding parse_parts parse_exp_decay_sample text_eq join
  parse_sample-exp_decay n alpha l k =
      let tail =
        lowered (itoa n) (b',' ∷ alpha) (to_lower-itoa n)
          (lowered (b',' ∷ []) alpha (unfold to_lower in unfold lower in refl) l) in
      let low =
        lowered (codes "expdecay,") (itoa n ++ b',' ∷ alpha)
          (unfold to_lower in unfold lower in refl) tail in
      parse_sample-join (codes "expdecay" ∷ itoa n ∷ alpha ∷ []) (cons-ne-nil _ _)
        (omega arith, (itoa-Lacks n, (k, _))) low

  -- Each documented form of a sample tag, with an int64 for the reservoir size, and with a text for
  -- alpha that is in lower case, holds no comma and is read by ParseFloat, gives the sample that it
  -- names; the parameters that are left out have their defaults. With the size and no alpha, the
  -- tag of an exponentially decaying sample is refused.
  pub parse_sample_lem :
      (n : ℤ) (alpha : Text) (f : Float)
      → IsInt64 n
      → to_lower p alpha ≡ alpha
      → Lacks b',' alpha
      → parse_float alpha ≡ some f
      → (parse_sample p (codes "uniform") ≡ inl (uniform default_reservoir_size))
        × (parse_sample p (codes "uniform," ++ itoa n) ≡ inl (uniform n))
        × (parse_sample p (codes "expdecay")
            ≡ inl (exp_decay default_reservoir_size default_exp_decay_alpha))
        × (parse_sample p (codes "expdecay," ++ (itoa n ++ b',' ∷ alpha)) ≡ inl (exp_decay n f))
        × (parse_sample p (codes "expdecay," ++ itoa n) ≡ inr invalid_exp_decay)
  unfolding parse_parts parse_uniform_sample parse_exp_decay_sample uniform_of exp_decay_of text_eq
      join
  parse_sample_lem n alpha f h l k e =
      let low =
        lowered (codes "expdecay,") (itoa n) (unfold to_lower in unfold lower in refl)
          (to_lower-itoa n) in
      (
        parse_sample-join (codes "uniform" ∷ []) (cons-ne-nil _ _) (omega arith, _)
            (unfold to_lower in unfold lower in refl),
        parse_sample-uniform n ∙ rw (atoi-itoa n h) refl,
        parse_sample-join (codes "expdecay" ∷ []) (cons-ne-nil _ _) (omega arith, _)
            (unfold to_lower in unfold lower in refl),
        parse_sample-exp_decay n alpha l k ∙ rw (atoi-itoa n h, e) refl,
        parse_sample-join (codes "expdecay" ∷ itoa n ∷ []) (cons-ne-nil _ _)
            (omega arith, (itoa-Lacks n, _)) low,
      )
