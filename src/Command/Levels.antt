-- ===== src/Command/Levels.antt =====
-- parseLogLevel, which both commands declare.
use k8s_lb_controller.Prelude.{
  ◌≡◌, refl, String, Bool, true, false, ◌||◌, Option, none, some, ◌==◌, string_eq, if◌then◌else◌,
  arith,
}
use k8s_lb_controller.Environment.{
  is_supported_log_level, log_level_debug, log_level_info, log_level_warn, log_level_error,
}

pub data Level : Type 0 where
  debug info warn error : Level

-- parseLogLevel; no level stands for its error.
unfoldable pub parse_log_level : String → Option Level
parse_log_level name =
    if name == log_level_debug
    then some debug
    else if name == log_level_info
    then some info
    else if name == log_level_warn
    then some warn
    else if name == log_level_error
    then some error
    else none

-- Every level that the settings may name is one.
pub parse_log_level-supported :
    (name : String)
    → is_supported_log_level name ≡ true
    → (level : Level) × (parse_log_level name ≡ some level)
unfolding parse_log_level
parse_log_level-supported name h =
    first (name == log_level_debug) (name == log_level_info) (name == log_level_warn)
      (name == log_level_error) h
  where
    first :
        (a b c d : Bool)
        → (a || b || c || d) ≡ true
        → (level : Level) × ((if a
              then some debug
              else if b
              then some info
              else if c
              then some warn
              else if d
              then some error
              else none)
            ≡ some level)
    first true b c d k = (debug, refl)
    first false true c d k = (info, refl)
    first false false true d k = (warn, refl)
    first false false false true k = (error, refl)
    first false false false false k = absurd (ground arith)
