-- ===== src/Appmetrics/Samples/Bounds.antt =====
-- The reservoir sizes that a sample tag can name.
use go_baseapp.Prelude.{
  ◌≡◌, refl, ◌∙◌, ◌⊎◌, inl, inr, List, [], ◌∷◌, ◌++◌, arith, Option-cases, if_ind,
}
use go_baseapp.Text.{Text, codes, Lacks, text_eq, split}
use go_baseapp.Text.Numbers.{ℤ, itoa, IsInt64, atoi}
use go_baseapp.Text.Numbers.Range.{atoi-IsInt64, atoi-itoa_overflow}
use go_baseapp.Appmetrics.Samples.{
  Parsing, Sample, SampleError, uniform, exp_decay, uniform_reservoir, exp_decay_reservoir,
  to_lower, parse_sample, parse_parts, parse_exp_decay_sample, parse_uniform_sample, exp_decay_of,
  uniform_of,
}
use go_baseapp.Appmetrics.Samples.Written.{parse_sample-uniform, parse_sample-exp_decay}

module _ (p : Parsing) where
  open p use {Float, parse_float}

  -- If a sample was read, its reservoir size is a number of int64.
  abbrev pub IsSized : Sample Float ⊎ SampleError → Type 0
  IsSized (inl (uniform n)) = IsInt64 n
  IsSized (inl (exp_decay n alpha)) = IsInt64 n
  IsSized (inr err) = Unit

  uniform_of-IsSized : (s : Text) → IsSized (uniform_of p (atoi s))
  unfolding uniform_of
  uniform_of-IsSized s = elim (Option-cases (atoi s)) [
    | inl e ↦ rw e tt
    | inr (z, e) ↦ rw e (atoi-IsInt64 s z e)
  ]

  exp_decay_of-IsSized : (s a : Text) → IsSized (exp_decay_of p (atoi s) (parse_float a))
  unfolding exp_decay_of
  exp_decay_of-IsSized s a = elim (Option-cases (atoi s)) [
    | inl e ↦ rw e tt
    | inr (z, e) ↦ elim (Option-cases (parse_float a)) [
      | inl f ↦ rw (e, f) tt
      | inr (x, f) ↦ rw (e, f) (atoi-IsInt64 s z e)
    ]
  ]

  parse_uniform_sample-IsSized : (ps : List Text) → IsSized (parse_uniform_sample p ps)
  unfolding parse_uniform_sample
  parse_uniform_sample-IsSized [] = omega arith
  parse_uniform_sample-IsSized (r ∷ []) = uniform_of-IsSized r
  parse_uniform_sample-IsSized (r ∷ a ∷ rest) = tt

  parse_exp_decay_sample-IsSized : (ps : List Text) → IsSized (parse_exp_decay_sample p ps)
  unfolding parse_exp_decay_sample
  parse_exp_decay_sample-IsSized [] = omega arith
  parse_exp_decay_sample-IsSized (r ∷ []) = tt
  parse_exp_decay_sample-IsSized (r ∷ a ∷ []) = exp_decay_of-IsSized r a
  parse_exp_decay_sample-IsSized (r ∷ a ∷ b ∷ rest) = tt

  parse_parts-IsSized : (ps : List Text) → IsSized (parse_parts p ps)
  unfolding parse_parts
  parse_parts-IsSized [] = tt
  parse_parts-IsSized (name ∷ rest) =
      if_ind IsSized (text_eq name (codes "uniform")) (parse_uniform_sample-IsSized rest)
        (if_ind IsSized (text_eq name (codes "expdecay")) (parse_exp_decay_sample-IsSized rest) tt)

  -- Whatever a sample tag holds, the reservoir size of the sample that is read from it is a number of
  -- int64; and a tag of either form with a size that int64 cannot hold, in decimal, is refused for
  -- this size.
  pub parse_sample-IsSized :
      (s alpha : Text) (z : ℤ)
      → ¬ IsInt64 z
      → to_lower p alpha ≡ alpha
      → Lacks b',' alpha
      → IsSized (parse_sample p s)
        × (parse_sample p (codes "uniform," ++ itoa z) ≡ inr uniform_reservoir)
        × (parse_sample p (codes "expdecay," ++ (itoa z ++ b',' ∷ alpha)) ≡ inr exp_decay_reservoir)
  unfolding parse_sample uniform_of exp_decay_of
  parse_sample-IsSized s alpha z h l k = (
    parse_parts-IsSized (split (to_lower p s) b','),
    parse_sample-uniform p z ∙ rw (atoi-itoa_overflow z h) refl,
    parse_sample-exp_decay p z alpha l k ∙ rw (atoi-itoa_overflow z h) refl,
  )
