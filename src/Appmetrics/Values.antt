-- ===== src/Appmetrics/Values.antt =====
-- What the emitters read of a metric. int64 values are their two's complement bit patterns, numbers
-- below 2 ^ 64; floating point numbers are a parameter.
use go_baseapp.Prelude.{ℕ, ◌+◌, ◌-◌, ◌%◌, ◌^◌, List, Bool}

-- The floating point operations that the emitters apply, with their constants.
pub record Floats : Type 1 where
  pub Float : Type 0
  pub of_int64 : ℕ → Float
  pub eq : Float → Float → Bool
  pub div : Float → Float → Float
  pub half : Float
  pub p95 : Float

abbrev pub int64_mod : ℕ
int64_mod = 2 ^ 64

-- `a - b` on int64, wrapping around.
unfoldable pub sub_int64 : ℕ → ℕ → ℕ
sub_int64 a b = (a + (int64_mod - b % int64_mod)) % int64_mod

-- A snapshot of a histogram or of a timer.
pub record Sampled (F : Type 0) : Type 0 where
  pub count : ℕ
  pub mean : F
  pub min : ℕ
  pub max : ℕ
  pub sum : ℕ
  pub percentile : F → F
  pub percentiles : List F → List F

-- A snapshot of a meter.
pub record Rates (F : Type 0) : Type 0 where
  pub count : ℕ
  pub rate_mean : F
  pub rate1 : F
  pub rate5 : F
  pub rate15 : F

-- The cases of the emitters' type switches; `other` is any other metric, such as a health check.
pub data Value (F : Type 0) : Type 0 where
  counter : ℕ → Value F
  gauge : ℕ → Value F
  gauge_float64 : F → Value F
  histogram : Sampled F → Value F
  meter : Rates F → Value F
  timer : Sampled F → Value F
  other : Value F
