-- ===== src/Startup/Logger.antt =====
-- beatstream/internal/logger/logger.go. The levels of zap and the reading of their names are
-- parameters; a logger is the configuration that it is built from.
use system_design_lab.Prelude.{
  String, Bool, true, false, Option, none, some, List, [], ◌∷◌, ◌==◌, text_eq, if◌then◌else◌,
}
use system_design_lab.Prelude.Texts.{to_lower}
use system_design_lab.Startup.{Environ}

pub data Preset : Type 0 where
  production_config development_config : Preset

pub record Config (L : Type 0) : Type 0 where
  pub preset : Preset
  -- `CapitalColorLevelEncoder`
  pub colored : Bool
  pub level : L
  pub initial_fields : List (String × String)

-- The package's variables: `once`, which is used up even by a panic, and `global`.
pub record Globals (L : Type 0) : Type 0 where
  pub used : Bool
  pub global : Option (Config L)

module _ {L : Type 0} (info : L) (unmarshal : String → Option L) (builds : Config L → Bool) where
  -- An error of the reading is ignored and leaves the level as it was.
  abbrev read_level : Option L → L
  read_level none = info
  read_level (some level) = level

  unfoldable pub level_of : Environ → L
  unfolding to_lower
  level_of env =
      if env "LOG_LEVEL" == "" then info else read_level (unmarshal (to_lower (env "LOG_LEVEL")))

  unfoldable pub config_of : Environ → Config L
  unfolding level_of
  config_of env =
      let is_json = env "LOG_FORMAT" == "json" in
      record {
        preset = if is_json then production_config else development_config;
        colored = if is_json then false else true;
        level = level_of env;
        initial_fields = ("service", "beatstream-api") ∷ [];
      }

  -- What `Init` returns, or none for its panic, and the variables.
  unfoldable pub init : Environ → Globals L → Option (Option (Config L)) × Globals L
  unfolding config_of
  init env g =
      if g.used
      then (some g.global, g)
      else if builds (config_of env)
      then (some (some (config_of env)), record { used = true; global = some (config_of env) })
      else (none, record { used = true; global = none })

pub data Logger (L : Type 0) : Type 0 where
  nop : Logger L
  built : Config L → Logger L

-- The method L: before `Init` a logger that writes nothing.
unfoldable pub current : {L : Type 0} → Globals L → Logger L
current g = elim g.global [ none ↦ nop | some cfg ↦ built cfg ]

-- Whether `Sync` flushes a logger.
unfoldable pub sync : {L : Type 0} → Globals L → Bool
sync g = elim g.global [ none ↦ false | some cfg ↦ true ]
