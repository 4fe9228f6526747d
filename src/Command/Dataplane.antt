-- ===== src/Command/Dataplane.antt =====
-- cmd/dataplane/main.go: what the dataplane makes of its settings before it serves.
pub mod Starting
use k8s_lb_controller.Prelude.{String, Bool, Option, none, some, Result, ok, err}
use k8s_lb_controller.Prelude.Int.{ℤ}
use k8s_lb_controller.Prelude.Fallible.{◌>>=◌, lift_error}
use k8s_lb_controller.Environment.{Env}
use k8s_lb_controller.Environment.DotEnv.{DotEnvFile, DotEnvError, load_dot_env}
use k8s_lb_controller.Dataplane.Settings.{Config, LoadError, load_config}
use k8s_lb_controller.Dataplane.Settings.Loaded.{manager_config}
use k8s_lb_controller.Dataplane.IpAttach.{ConfigError, Backend, Platform, new_manager}
use k8s_lb_controller.Dataplane.Apply.{
  ApplyConfig, ApplyError, Faults, Disk, new_applier, bootstrap,
}
use k8s_lb_controller.Command.Levels.{Level, parse_log_level}
use k8s_lb_controller.Command.Controller.{or_error}

pub data StartError : Type 0 where
  dot_env_failed : DotEnvError → StartError
  load_failed : LoadError → StartError
  logger_failed : StartError
  manager_failed : ConfigError → StartError
  engine_failed : StartError
  bootstrap_failed : ApplyError → StartError

-- What the server runs with: the manager of addresses, and the settings of the applier.
pub record Prepared (C : Type 0) : Type 0 where
  pub config : Config
  pub level : Level
  pub manager : Backend C
  pub applier : ApplyConfig

abbrev pub applier_config : Config → ApplyConfig
applier_config cfg = record {
  config_path = cfg.haproxy_config_path;
  validate_command = cfg.haproxy_validate_command;
  reload_command = cfg.haproxy_reload_command;
  pid_file = cfg.haproxy_pid_file;
}

-- `client` is the netlink client on Linux, `clean` filepath.Clean, and `parse_duration`
-- time.ParseDuration.
module _ {C : Type 0} (platform : Platform) (client : C) (clean : String → String)
    (parse_duration : String → Option ℤ) where
  -- What main makes of the environment that LoadDotEnv leaves, up to NewEngine.
  unfoldable pub prepare_in : Env → Result StartError (Prepared C)
  prepare_in env = do
    cfg ← lift_error load_failed (load_config parse_duration env)
    level ← or_error logger_failed (parse_log_level cfg.log_level)
    manager ← lift_error manager_failed (new_manager platform client (manager_config cfg) none)
    applier ← or_error engine_failed (new_applier clean (applier_config cfg))
    ok (record { config = cfg; level = level; manager = manager; applier = applier })

  abbrev pub bootstrapped :
      Prepared C → Result ApplyError (Unit {0}) × Disk → Result StartError (Prepared C) × Disk
  bootstrapped p (ok _, d) = (ok p, d)
  bootstrapped p (err x, d) = (err (bootstrap_failed x), d)

  abbrev pub with_prepared :
      Faults → Result StartError (Prepared C) → Disk → Result StartError (Prepared C) × Disk
  with_prepared f (err x) d = (err x, d)
  with_prepared f (ok p) d = bootstrapped p (bootstrap p.applier f d)

  -- main, up to the server: the first configuration is written by Bootstrap.
  unfoldable pub start : DotEnvFile → Env → Faults → Disk → Result StartError (Prepared C) × Disk
  unfolding prepare_in
  start file env f d =
      with_prepared f
        (lift_error dot_env_failed (load_dot_env file env).0 >>= λ _.
          prepare_in (load_dot_env file env).1)
        d
