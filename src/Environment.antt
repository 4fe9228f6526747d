-- ===== src/Environment.antt =====
-- The readers of environment variables that internal/config and internal/dataplane both declare,
-- and LoadDotEnv of internal/config/config.go. The environment is a partial function on names, as
-- os.LookupEnv reads it.
pub mod Parsing
pub mod DotEnv
pub mod Reading
use k8s_lb_controller.Prelude.{
  String, Bool, true, false, ◌||◌, Option, none, some, Result, ok, err, ◌==◌, string_eq,
  if◌then◌else◌, ◌≡◌, refl,
}
use k8s_lb_controller.Prelude.Int.{ℤ}
use k8s_lb_controller.Prelude.Texts.{trim_space, to_lower}
use Parsing.{parse_bool, parse_int}

abbrev pub Env : Type 0
Env = String → Option String

-- A variable whose value does not parse.
pub data EnvError : Type 0 where
  parse_failed : String → EnvError

abbrev pub text_or : String → Option String → String
text_or default none = default
text_or default (some value) = if trim_space value == "" then default else trim_space value

-- stringEnv
unfoldable pub string_env : Env → String → String → String
unfolding trim_space
string_env env key default = text_or default (env key)

abbrev pub parsed : {A : Type 0} → String → Option A → Result EnvError A
parsed key none = err (parse_failed key)
parsed key (some a) = ok a

abbrev pub value_or :
    {A : Type 0} → (String → Option A) → String → A → Option String → Result EnvError A
value_or parse key default none = ok default
value_or parse key default (some value) =
    if trim_space value == "" then ok default else parsed key (parse (trim_space value))

-- boolEnv
unfoldable pub bool_env : Env → String → Bool → Result EnvError Bool
unfolding trim_space parse_bool
bool_env env key default = value_or parse_bool key default (env key)

-- intEnv
unfoldable pub int_env : Env → String → ℤ → Result EnvError ℤ
unfolding trim_space parse_int
int_env env key default = value_or parse_int key default (env key)

-- durationEnv, in nanoseconds, where `parse_duration` is time.ParseDuration.
unfoldable pub duration_env : (String → Option ℤ) → Env → String → ℤ → Result EnvError ℤ
unfolding trim_space
duration_env parse_duration env key default = value_or parse_duration key default (env key)

abbrev pub log_level_debug : String
log_level_debug = "debug"

abbrev pub log_level_info : String
log_level_info = "info"

abbrev pub log_level_warn : String
log_level_warn = "warn"

abbrev pub log_level_error : String
log_level_error = "error"

-- supportedLogLevels
abbrev pub is_supported_log_level : String → Bool
is_supported_log_level level =
    level == log_level_debug
    || level == log_level_info
    || level == log_level_warn
    || level == log_level_error

-- normalizeLogLevel
unfoldable pub normalize_log_level : String → String
unfolding trim_space to_lower
normalize_log_level level = to_lower (trim_space level)
