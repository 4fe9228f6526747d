-- ===== src/Configuration.antt =====
-- internal/config/config.go: the controller's settings, read from the environment.
pub mod Loaded
use k8s_lb_controller.Prelude.{
  String, Bool, true, false, not, ◌&&◌, ◌||◌, List, [], Option, none, some, Result, ok, err, ◌==◌,
  string_eq, if◌then◌else◌,
}
use k8s_lb_controller.Prelude.Int.{ℤ, pos, is_positive}
use k8s_lb_controller.Prelude.Texts.{trim_space, to_lower}
use k8s_lb_controller.Prelude.Fallible.{◌>>=◌, ◌>>◌, require, lift_error}
use k8s_lb_controller.Netip.{Addr}
use k8s_lb_controller.Ipam.Pool.{PoolError, parse_pool}
use k8s_lb_controller.Urls.{Url, UrlLibrary, UrlError, base_url}
use k8s_lb_controller.Environment.{
  Env, EnvError, string_env, bool_env, duration_env, normalize_log_level, is_supported_log_level,
  log_level_info,
}

abbrev pub provider_mode_local_haproxy : String
provider_mode_local_haproxy = "local-haproxy"

abbrev pub provider_mode_dataplane_api : String
provider_mode_dataplane_api = "dataplane-api"

-- The durations are nanoseconds.
pub record Config : Type 0 where
  pub metrics_addr : String
  pub health_addr : String
  pub leader_elect : Bool
  pub load_balancer_class : String
  pub ip_pool : List Addr
  pub requeue_after : ℤ
  pub graceful_shutdown_timeout : ℤ
  pub log_level : String
  pub provider_mode : String
  pub haproxy_config_path : String
  pub haproxy_validate_command : String
  pub haproxy_reload_command : String
  pub dataplane_api_url : String
  pub dataplane_api_timeout : ℤ

-- The names of the variables.
abbrev pub env_metrics_addr : String
env_metrics_addr = "K8S_LB_CONTROLLER_METRICS_ADDR"

abbrev pub env_health_addr : String
env_health_addr = "K8S_LB_CONTROLLER_HEALTH_ADDR"

abbrev pub env_leader_elect : String
env_leader_elect = "K8S_LB_CONTROLLER_LEADER_ELECT"

abbrev pub env_load_balancer_class : String
env_load_balancer_class = "K8S_LB_CONTROLLER_LOAD_BALANCER_CLASS"

abbrev pub env_ip_pool : String
env_ip_pool = "K8S_LB_CONTROLLER_IP_POOL"

abbrev pub env_requeue_after : String
env_requeue_after = "K8S_LB_CONTROLLER_REQUEUE_AFTER"

abbrev pub env_graceful_shutdown_timeout : String
env_graceful_shutdown_timeout = "K8S_LB_CONTROLLER_GRACEFUL_SHUTDOWN_TIMEOUT"

abbrev pub env_log_level : String
env_log_level = "K8S_LB_CONTROLLER_LOG_LEVEL"

abbrev pub env_provider_mode : String
env_provider_mode = "K8S_LB_CONTROLLER_PROVIDER_MODE"

abbrev pub env_haproxy_config_path : String
env_haproxy_config_path = "K8S_LB_CONTROLLER_HAPROXY_CONFIG_PATH"

abbrev pub env_haproxy_validate_command : String
env_haproxy_validate_command = "K8S_LB_CONTROLLER_HAPROXY_VALIDATE_COMMAND"

abbrev pub env_haproxy_reload_command : String
env_haproxy_reload_command = "K8S_LB_CONTROLLER_HAPROXY_RELOAD_COMMAND"

abbrev pub env_dataplane_api_url : String
env_dataplane_api_url = "K8S_LB_CONTROLLER_DATAPLANE_API_URL"

abbrev pub env_dataplane_api_timeout : String
env_dataplane_api_timeout = "K8S_LB_CONTROLLER_DATAPLANE_API_TIMEOUT"

-- Their defaults.
abbrev pub default_load_balancer_class : String
default_load_balancer_class = "iedge.local/service-lb"

abbrev pub default_ip_pool : String
default_ip_pool = "203.0.113.10,203.0.113.11,203.0.113.12"

abbrev pub default_requeue_after : ℤ
default_requeue_after = pos 30000000000

abbrev pub default_graceful_shutdown_timeout : ℤ
default_graceful_shutdown_timeout = pos 15000000000

abbrev pub default_haproxy_config_path : String
default_haproxy_config_path = "/tmp/k8s-lb-controller-haproxy.cfg"

abbrev pub default_dataplane_api_timeout : ℤ
default_dataplane_api_timeout = pos 10000000000

pub data LoadError : Type 0 where
  unreadable : EnvError → LoadError
  not_positive : String → LoadError
  empty_variable : String → LoadError
  unsupported_provider_mode : LoadError
  bad_pool : PoolError → LoadError
  unsupported_log_level : LoadError
  bad_api_url : UrlError → LoadError

-- normalizeProviderMode
unfoldable pub normalize_provider_mode : String → String
unfolding trim_space to_lower
normalize_provider_mode mode = to_lower (trim_space mode)

-- supportedProviderModes
abbrev pub is_supported_mode : String → Bool
is_supported_mode mode = mode == provider_mode_local_haproxy || mode == provider_mode_dataplane_api

module _ (urls : UrlLibrary) (parse_duration : String → Option ℤ) where
  abbrev pub shown : Result UrlError Url → Result LoadError String
  shown (ok u) = ok (urls.show u)
  shown (err x) = err (bad_api_url x)

  abbrev pub api_url : Option String → Result LoadError String
  api_url none = err (empty_variable env_dataplane_api_url)
  api_url (some value) =
      if trim_space value == ""
      then err (empty_variable env_dataplane_api_url)
      else shown (base_url (urls.parse (trim_space value)))

  -- dataplaneAPIURLFromEnv
  unfoldable pub dataplane_api_url_from_env : Env → Result LoadError String
  unfolding trim_space
  dataplane_api_url_from_env env = api_url (env env_dataplane_api_url)

  -- A duration that has to be positive.
  unfoldable pub positive_env : Env → String → ℤ → Result LoadError ℤ
  positive_env env key default = do
    duration ← lift_error unreadable (duration_env parse_duration env key default)
    require (is_positive duration) (not_positive key)
    ok duration

  -- The part of Load that reads the flag and the durations into the settings.
  unfoldable pub load_timings : Env → Config → Result LoadError Config
  load_timings env cfg = do
    leader_elect ← lift_error unreadable (bool_env env env_leader_elect false)
    requeue_after ← positive_env env env_requeue_after default_requeue_after
    shutdown ← positive_env env env_graceful_shutdown_timeout default_graceful_shutdown_timeout
    timeout ← positive_env env env_dataplane_api_timeout default_dataplane_api_timeout
    ok (record cfg {
      leader_elect = leader_elect;
      requeue_after = requeue_after;
      graceful_shutdown_timeout = shutdown;
      dataplane_api_timeout = timeout;
    })

  -- The part of Load that checks the texts and reads the pool and the URL.
  unfoldable pub load_checked : Env → Config → Result LoadError Config
  load_checked env cfg = do
    require (not (cfg.load_balancer_class == "")) (empty_variable env_load_balancer_class)
    require (is_supported_mode cfg.provider_mode) unsupported_provider_mode
    require
        (not (cfg.provider_mode == provider_mode_local_haproxy && cfg.haproxy_config_path == ""))
        (empty_variable env_haproxy_config_path)
    pool ← lift_error bad_pool (parse_pool (string_env env env_ip_pool default_ip_pool))
    require (is_supported_log_level cfg.log_level) unsupported_log_level
    url ←
        if cfg.provider_mode == provider_mode_dataplane_api
        then dataplane_api_url_from_env env
        else ok cfg.dataplane_api_url
    ok (record cfg { ip_pool = pool; dataplane_api_url = url })

  -- The settings that Load starts from: the texts, and zero values.
  abbrev pub initial : Env → Config
  initial env = record {
    metrics_addr = string_env env env_metrics_addr ":8080";
    health_addr = string_env env env_health_addr ":8081";
    leader_elect = false;
    load_balancer_class = string_env env env_load_balancer_class default_load_balancer_class;
    ip_pool = [];
    requeue_after = pos 0;
    graceful_shutdown_timeout = pos 0;
    log_level = normalize_log_level (string_env env env_log_level log_level_info);
    provider_mode =
        normalize_provider_mode (string_env env env_provider_mode provider_mode_local_haproxy);
    haproxy_config_path = string_env env env_haproxy_config_path default_haproxy_config_path;
    haproxy_validate_command = string_env env env_haproxy_validate_command "";
    haproxy_reload_command = string_env env env_haproxy_reload_command "";
    dataplane_api_url = "";
    dataplane_api_timeout = pos 0;
  }

  -- Load
  unfoldable pub load : Env → Result LoadError Config
  load env = load_timings env (initial env) >>= load_checked env
