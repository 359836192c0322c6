-- ===== src/Baseapp/Logging.antt =====
-- baseapp/logging.go: NewLogger.
use go_baseapp.Prelude.{
  ℕ, ◌⊎◌, inl, inr, Bool, true, Option, none, some, List, [], ◌∷◌, ◌++◌, if◌then◌else◌,
}
use go_baseapp.Text.{Text, codes, text_eq}
use go_baseapp.Baseapp.Config.{LoggingConfig}

-- Where a logger writes: os.Stdout, or a zerolog.ConsoleWriter on it.
pub data Output : Type 0 where
  standard_out : Output
  console : Output

module _ (Level : Type 0) where
  -- A zerolog.Logger; without a level it has the default one.
  pub record Logger : Type 0 where
    pub output : Output
    pub timestamp : Bool
    pub level : Option Level

  -- `zerolog.New(out).With().Timestamp().Logger()`
  base_logger : Bool → Logger
  base_logger pretty = record {
    output = if pretty then console else standard_out;
    timestamp = true;
    level = none;
  }

  -- The logger for the result of ParseLevel, and the warnings that it has written.
  leveled : (Text → Text) → Text → Level ⊎ ℕ → Logger → Logger × List Text
  leveled quote text (inr err) logger = (
    logger,
    (codes "Invalid log level " ++ quote text ++ codes ", using the default level instead") ∷ [],
  )
  leveled quote text (inl level) logger = (record logger { level = some level }, [])

  -- `NewLogger`; `parse_level` is zerolog.ParseLevel, and `quote` prints a text by %q.
  unfoldable pub new_logger :
      (Text → Level ⊎ ℕ) → (Text → Text) → LoggingConfig → Logger × List Text
  unfolding base_logger leveled
  new_logger parse_level quote c =
      if text_eq c.level []
      then (base_logger c.pretty, [])
      else leveled quote c.level (parse_level c.level) (base_logger c.pretty)
