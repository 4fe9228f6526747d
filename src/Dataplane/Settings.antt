-- ===== src/Dataplane/Settings.antt =====
-- internal/dataplane/config.go: the dataplane's settings, read from the environment.
pub mod Loaded
use k8s_lb_controller.Prelude.{
  String, Bool, true, false, not, ◌&&◌, ◌||◌, Option, none, some, Result, ok, err, ◌==◌, string_eq,
  if◌then◌else◌,
}
use k8s_lb_controller.Prelude.Int.{ℤ, pos, is_positive}
use k8s_lb_controller.Prelude.Fallible.{◌>>=◌, ◌>>◌, require, lift_error}
use k8s_lb_controller.Environment.{
  Env, EnvError, string_env, bool_env, int_env, duration_env, normalize_log_level,
  is_supported_log_level, log_level_info,
}
use k8s_lb_controller.Dataplane.IpAttach.{
  normalize_mode, is_valid_mode, is_cidr_suffix, mode_exec, default_mode, default_command_path,
  default_cidr_suffix,
}

-- The shutdown timeout is in nanoseconds.
pub record Config : Type 0 where
  pub http_addr : String
  pub haproxy_config_path : String
  pub haproxy_validate_command : String
  pub haproxy_reload_command : String
  pub haproxy_pid_file : String
  pub log_level : String
  pub graceful_shutdown_timeout : ℤ
  pub ip_attach_enabled : Bool
  pub ip_attach_mode : String
  pub interface : String
  pub ip_command : String
  pub ip_cidr_suffix : ℤ

-- The names of the variables.
abbrev pub env_http_addr : String
env_http_addr = "K8S_LB_DATAPLANE_HTTP_ADDR"

abbrev pub env_haproxy_config_path : String
env_haproxy_config_path = "K8S_LB_DATAPLANE_HAPROXY_CONFIG_PATH"

abbrev pub env_haproxy_validate_command : String
env_haproxy_validate_command = "K8S_LB_DATAPLANE_HAPROXY_VALIDATE_COMMAND"

abbrev pub env_haproxy_reload_command : String
env_haproxy_reload_command = "K8S_LB_DATAPLANE_HAPROXY_RELOAD_COMMAND"

abbrev pub env_haproxy_pid_file : String
env_haproxy_pid_file = "K8S_LB_DATAPLANE_HAPROXY_PID_FILE"

abbrev pub env_log_level : String
env_log_level = "K8S_LB_DATAPLANE_LOG_LEVEL"

abbrev pub env_graceful_shutdown_timeout : String
env_graceful_shutdown_timeout = "K8S_LB_DATAPLANE_GRACEFUL_SHUTDOWN_TIMEOUT"

abbrev pub env_ip_attach_enabled : String
env_ip_attach_enabled = "K8S_LB_DATAPLANE_IP_ATTACH_ENABLED"

abbrev pub env_ip_attach_mode : String
env_ip_attach_mode = "K8S_LB_DATAPLANE_IP_ATTACH_MODE"

abbrev pub env_interface : String
env_interface = "K8S_LB_DATAPLANE_INTERFACE"

abbrev pub env_ip_command : String
env_ip_command = "K8S_LB_DATAPLANE_IP_COMMAND"

abbrev pub env_ip_cidr_suffix : String
env_ip_cidr_suffix = "K8S_LB_DATAPLANE_IP_CIDR_SUFFIX"

-- Their defaults.
abbrev pub default_http_addr : String
default_http_addr = ":8090"

abbrev pub default_haproxy_config_path : String
default_haproxy_config_path = "/tmp/k8s-lb-controller-haproxy.cfg"

abbrev pub default_graceful_shutdown_timeout : ℤ
default_graceful_shutdown_timeout = pos 15000000000

pub data LoadError : Type 0 where
  unreadable : EnvError → LoadError
  not_positive : String → LoadError
  empty_variable : String → LoadError
  unsupported_log_level : LoadError
  unsupported_mode : LoadError
  cidr_suffix_range : LoadError

-- The texts that LoadConfig starts from, and zero values.
abbrev pub initial : Env → Config
initial env = record {
  http_addr = string_env env env_http_addr default_http_addr;
  haproxy_config_path = string_env env env_haproxy_config_path default_haproxy_config_path;
  haproxy_validate_command = string_env env env_haproxy_validate_command "";
  haproxy_reload_command = string_env env env_haproxy_reload_command "";
  haproxy_pid_file = string_env env env_haproxy_pid_file "";
  log_level = normalize_log_level (string_env env env_log_level log_level_info);
  graceful_shutdown_timeout = pos 0;
  ip_attach_enabled = false;
  ip_attach_mode = normalize_mode (string_env env env_ip_attach_mode default_mode);
  interface = string_env env env_interface "";
  ip_command = string_env env env_ip_command default_command_path;
  ip_cidr_suffix = pos 0;
}

-- The part of LoadConfig that reads the timeout, the flag and the prefix length.
unfoldable pub load_values : (String → Option ℤ) → Env → Config → Result LoadError Config
load_values parse_duration env cfg = do
  shutdown ← lift_error unreadable (
      duration_env parse_duration env env_graceful_shutdown_timeout
        default_graceful_shutdown_timeout)
  require (is_positive shutdown) (not_positive env_graceful_shutdown_timeout)
  enabled ← lift_error unreadable (bool_env env env_ip_attach_enabled false)
  suffix ← lift_error unreadable (int_env env env_ip_cidr_suffix default_cidr_suffix)
  ok (record cfg {
    graceful_shutdown_timeout = shutdown;
    ip_attach_enabled = enabled;
    ip_cidr_suffix = suffix;
  })

-- The part of LoadConfig that checks the settings.
unfoldable pub check_values : Config → Result LoadError Config
check_values cfg = do
  require (not (cfg.http_addr == "")) (empty_variable env_http_addr)
  require (not (cfg.haproxy_config_path == "")) (empty_variable env_haproxy_config_path)
  require (is_supported_log_level cfg.log_level) unsupported_log_level
  require (is_valid_mode cfg.ip_attach_mode) unsupported_mode
  require (is_cidr_suffix cfg.ip_cidr_suffix) cidr_suffix_range
  require (not (cfg.ip_attach_enabled && cfg.interface == "")) (empty_variable env_interface)
  require (not (cfg.ip_attach_enabled && (cfg.ip_attach_mode == mode_exec && cfg.ip_command == "")))
      (empty_variable env_ip_command)
  ok cfg

-- LoadConfig, where `parse_duration` is time.ParseDuration.
unfoldable pub load_config : (String → Option ℤ) → Env → Result LoadError Config
load_config parse_duration env = load_values parse_duration env (initial env) >>= check_values
