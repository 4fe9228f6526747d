-- ===== src/Command/Controller.antt =====
-- cmd/main.go: what the controller makes of its settings before it starts.
pub mod Providers
use k8s_lb_controller.Prelude.{
  String, Bool, true, false, Option, none, some, Result, ok, err, ◌==◌, string_eq, if◌then◌else◌, ℕ,
}
use k8s_lb_controller.Prelude.Int.{ℤ, pos, negsuc}
use k8s_lb_controller.Prelude.Fallible.{◌>>=◌, ◌>>◌, lift_error, require}
use k8s_lb_controller.Urls.{Url, UrlLibrary}
use k8s_lb_controller.Environment.{Env}
use k8s_lb_controller.Environment.DotEnv.{DotEnvFile, DotEnvError, load_dot_env}
use k8s_lb_controller.Configuration
use k8s_lb_controller.Configuration.{
  Config, LoadError, load, provider_mode_local_haproxy, provider_mode_dataplane_api,
}
use k8s_lb_controller.Dataplane.Apply.{ApplyConfig, new_applier}
use k8s_lb_controller.Provider.Api.{Api, ApiConfig, NewError, new_provider}
use k8s_lb_controller.Controller.Reconcile as Reconcile
use k8s_lb_controller.Command.Levels.{Level, parse_log_level}

-- The provider that serves the controller: the one that writes the configuration file, by the
-- settings of its applier, or the one that calls the dataplane.
pub data Provider : Type 0 where
  haproxy : ApplyConfig → Provider
  api : Api → Provider

pub data BuildError : Type 0 where
  no_config_path : BuildError
  bad_api : NewError → BuildError
  unsupported_mode : String → BuildError

-- The settings of the applier, as the HAProxy provider passes them on.
abbrev pub applier_config : Config → ApplyConfig
applier_config cfg = record {
  config_path = cfg.haproxy_config_path;
  validate_command = cfg.haproxy_validate_command;
  reload_command = cfg.haproxy_reload_command;
  pid_file = "";
}

abbrev pub api_config : Config → ApiConfig
api_config cfg = record { base_url = cfg.dataplane_api_url; timeout = cfg.dataplane_api_timeout }

abbrev pub from_applier : Option ApplyConfig → Result BuildError Provider
from_applier none = err no_config_path
from_applier (some a) = ok (haproxy a)

abbrev pub from_api : Result NewError Api → Result BuildError Provider
from_api (err x) = err (bad_api x)
from_api (ok p) = ok (api p)

-- The settings that Reconcile reads; a loaded retry interval is positive.
abbrev pub nanoseconds : ℤ → ℕ
nanoseconds (pos n) = n
nanoseconds (negsuc n) = 0

abbrev pub reconciler_config : Config → Reconcile.Config
reconciler_config cfg = record {
  load_balancer_class = cfg.load_balancer_class;
  ip_pool = cfg.ip_pool;
  requeue_after = nanoseconds cfg.requeue_after;
}

pub data StartError : Type 0 where
  dot_env_failed : DotEnvError → StartError
  load_failed : LoadError → StartError
  logger_failed : StartError
  not_connected : StartError
  provider_failed : BuildError → StartError

pub record Prepared : Type 0 where
  pub config : Config
  pub level : Level
  pub provider : Provider

abbrev pub or_error : {X A : Type 0} → X → Option A → Result X A
or_error x none = err x
or_error x (some a) = ok a

-- `clean` is filepath.Clean, and `parse_duration` time.ParseDuration.
module _ (urls : UrlLibrary) (clean : String → String) (parse_duration : String → Option ℤ) where
  -- buildProvider
  unfoldable pub build_provider : Config → Result BuildError Provider
  build_provider cfg =
      if cfg.provider_mode == provider_mode_local_haproxy
      then from_applier (new_applier clean (applier_config cfg))
      else if cfg.provider_mode == provider_mode_dataplane_api
      then from_api (new_provider urls (api_config cfg))
      else err (unsupported_mode cfg.provider_mode)

  -- What main makes of the environment that LoadDotEnv leaves. Between the logger and the provider
  -- stand the diagnosis of the kubeconfig, the client's settings and the manager, which `connects`
  -- says to have passed.
  unfoldable pub prepare_in : (Env → Config → Bool) → Env → Result StartError Prepared
  prepare_in connects env = do
    cfg ← lift_error load_failed (load urls parse_duration env)
    level ← or_error logger_failed (parse_log_level cfg.log_level)
    require (connects env cfg) not_connected
    provider ← lift_error provider_failed (build_provider cfg)
    ok (record { config = cfg; level = level; provider = provider })

  -- main, up to the registration of the controllers.
  unfoldable pub prepare : (Env → Config → Bool) → DotEnvFile → Env → Result StartError Prepared
  unfolding prepare_in
  prepare connects file env = lift_error dot_env_failed (load_dot_env file env).0 >>= λ _.
      prepare_in connects (load_dot_env file env).1
