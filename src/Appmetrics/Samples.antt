-- ===== src/Appmetrics/Samples.antt =====
-- appmetrics/appmetrics.go: the sample types of histograms and timers, and the tags that name them.
pub mod Written
pub mod Bounds
use go_baseapp.Prelude.{
  ℕ, ◌+◌, ◌⊎◌, inl, inr, ◌&&◌, Option, none, some, List, [], ◌∷◌, ltb, leb, if◌then◌else◌,
}
use go_baseapp.Text.{Text, codes, text_eq, split}
use go_baseapp.Text.Numbers.{ℤ, pos, atoi}

-- What the package calls of other code: unicode.ToLower of a rune that is not ASCII,
-- strconv.ParseFloat, `none` for any of its errors, and the constant 0.015.
pub record Parsing : Type 1 where
  pub Float : Type 0
  pub lower_rune : ℕ → ℕ
  pub parse_float : Text → Option Float
  pub default_exp_decay_alpha : Float

-- `metrics.NewUniformSample(n)` and `metrics.NewExpDecaySample(n, alpha)`, still to be called.
pub data Sample (F : Type 0) : Type 0 where
  uniform : ℤ → Sample F
  exp_decay : ℤ → F → Sample F

pub data SampleError : Type 0 where
  invalid_sample_type : SampleError
  uniform_reservoir : SampleError
  invalid_uniform : SampleError
  exp_decay_reservoir : SampleError
  exp_decay_alpha : SampleError
  invalid_exp_decay : SampleError

abbrev pub default_reservoir_size : ℤ
default_reservoir_size = pos 1028

module _ (p : Parsing) where
  open p use {Float, lower_rune, parse_float, default_exp_decay_alpha}

  lower : ℕ → ℕ
  lower c = if ltb c 128 then (if leb b'A' c && leb c b'Z' then c + 32 else c) else lower_rune c

  -- strings.ToLower
  unfoldable pub to_lower : Text → Text
  unfolding lower
  to_lower [] = []
  to_lower (c ∷ s) = lower c ∷ to_lower s

  pub uniform_of : Option ℤ → Sample Float ⊎ SampleError
  uniform_of none = inr uniform_reservoir
  uniform_of (some rs) = inl (uniform rs)

  -- `parseUniformSample`, by the parts behind the first.
  parse_uniform_sample : List Text → Sample Float ⊎ SampleError
  unfolding uniform_of
  parse_uniform_sample [] = inl (uniform default_reservoir_size)
  parse_uniform_sample (r ∷ []) = uniform_of (atoi r)
  parse_uniform_sample (r ∷ a ∷ rest) = inr invalid_uniform

  pub exp_decay_of : Option ℤ → Option Float → Sample Float ⊎ SampleError
  exp_decay_of none alpha = inr exp_decay_reservoir
  exp_decay_of (some rs) none = inr exp_decay_alpha
  exp_decay_of (some rs) (some alpha) = inl (exp_decay rs alpha)

  -- `parseExpDecaySample`, by the parts behind the first.
  parse_exp_decay_sample : List Text → Sample Float ⊎ SampleError
  unfolding exp_decay_of
  parse_exp_decay_sample [] = inl (exp_decay default_reservoir_size default_exp_decay_alpha)
  parse_exp_decay_sample (r ∷ []) = inr invalid_exp_decay
  parse_exp_decay_sample (r ∷ a ∷ []) = exp_decay_of (atoi r) (parse_float a)
  parse_exp_decay_sample (r ∷ a ∷ b ∷ rest) = inr invalid_exp_decay

  -- The switch of `parseSample` on the first part. A split has a first part.
  parse_parts : List Text → Sample Float ⊎ SampleError
  unfolding parse_uniform_sample parse_exp_decay_sample
  parse_parts [] = inr invalid_sample_type
  parse_parts (name ∷ rest) =
      if text_eq name (codes "uniform")
      then parse_uniform_sample rest
      else if text_eq name (codes "expdecay")
      then parse_exp_decay_sample rest
      else inr invalid_sample_type

  unfoldable pub parse_sample : Text → Sample Float ⊎ SampleError
  unfolding parse_parts
  parse_sample s = parse_parts (split (to_lower s) b',')
