-- ===== src/Command/Dataplane/Starting.antt =====
-- The dataplane's start with loaded settings.
use k8s_lb_controller.Prelude.{
  ◌≡◌, refl, String, Bool, true, false, not, Option, some, Result, ok, err, ◌==◌, string_eq, arith,
}
use k8s_lb_controller.Prelude.Int.{ℤ}
use k8s_lb_controller.Prelude.Texts.{trim_space}
use k8s_lb_controller.Environment.{Env}
use k8s_lb_controller.Dataplane.Settings.{Config, load_config}
use k8s_lb_controller.Dataplane.Settings.Loaded.{
  IsLoaded, load_config-IsLoaded, new_manager-load_config, wanted_backend, normalized_config,
}
use k8s_lb_controller.Dataplane.Apply.{ApplyConfig, new_applier}
use k8s_lb_controller.Command.Levels.{Level, parse_log_level, parse_log_level-supported}
use k8s_lb_controller.Prelude.Fallible.{◌>>=◌, lift_error}
use k8s_lb_controller.Dataplane.IpAttach.{ConfigError, Backend, Platform}
use k8s_lb_controller.Command.Controller.{or_error}
use k8s_lb_controller.Command.Dataplane.{
  StartError, manager_failed, engine_failed, Prepared, applier_config, prepare_in,
}

-- The applier's settings, once they have been trimmed and cleaned.
abbrev pub applier_of : (String → String) → Config → ApplyConfig
applier_of clean cfg = record {
  config_path = clean cfg.haproxy_config_path;
  validate_command = trim_space cfg.haproxy_validate_command;
  reload_command = trim_space cfg.haproxy_reload_command;
  pid_file = trim_space cfg.haproxy_pid_file;
}

not-true : (b : Bool) → not b ≡ true → b ≡ false
not-true b h = ground arith

new_applier-loaded :
    (clean : String → String) (cfg : Config)
    → IsLoaded cfg
    → new_applier clean (applier_config cfg) ≡ some (applier_of clean cfg)
unfolding new_applier
new_applier-loaded clean cfg h =
    rw (h.path_trimmed, not-true (cfg.haproxy_config_path == "") h.path_named) refl

-- What follows NewManager.
abbrev pub with_manager :
    {C : Type 0}
    → (Backend C → Prepared C)
    → Result ConfigError (Backend C)
    → Result StartError (Prepared C)
with_manager rest (err e) = err (manager_failed e)
with_manager rest (ok manager) = ok (rest manager)

continued :
    {C : Type 0} (m : Result ConfigError (Backend C)) (o : Option ApplyConfig) (a : ApplyConfig)
    (rest : Backend C → ApplyConfig → Prepared C)
    → o ≡ some a
    → (lift_error manager_failed m >>= λ b. or_error engine_failed o >>= λ x. ok (rest b x))
      ≡ with_manager (λ b. rest b a) m
continued (err e) o a rest h = refl
continued (ok b) o a rest h = rw h refl

-- Once the settings are loaded, the dataplane's start-up fails before Bootstrap in one case only:
-- the program is not built for Linux, and the settings ask for addresses to be attached by netlink.
-- In every other case there is a log level, the manager is the one that the settings ask for, with
-- their interface and their prefix length, and the applier has their path, cleaned, and their
-- commands.
pub prepare_in-load_config :
    {C : Type 0} (platform : Platform) (client : C) (clean : String → String)
    (parse_duration : String → Option ℤ) (env : Env) (cfg : Config)
    → load_config parse_duration env ≡ ok cfg
    → (level : Level) × (prepare_in platform client clean parse_duration env
        ≡ with_manager
            (λ manager. record {
              config = cfg;
              level = level;
              manager = manager;
              applier = applier_of clean cfg;
            })
            (wanted_backend platform client cfg (normalized_config cfg)))
      × (parse_log_level cfg.log_level ≡ some level)
unfolding prepare_in
prepare_in-load_config platform client clean parse_duration env cfg loaded =
    let h = load_config-IsLoaded parse_duration env cfg loaded in
    let (level, named) = parse_log_level-supported cfg.log_level h.level_supported in
    (
      level,
      rw (loaded, named, new_manager-load_config platform client parse_duration env cfg loaded)
          (continued (wanted_backend platform client cfg (normalized_config cfg))
            (new_applier clean (applier_config cfg)) (applier_of clean cfg)
            (λ b a. record { config = cfg; level = level; manager = b; applier = a })
            (new_applier-loaded clean cfg h)),
      named,
    )
