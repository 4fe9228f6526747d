-- ===== src/Dataplane/Settings/Loaded.antt =====
-- The settings that LoadConfig accepts, and the manager and the applier made from them.
use k8s_lb_controller.Prelude.{
  Result, none, err, ◌≡◌, refl, sym, ◌∙◌, ap, String, Bool, true, false, not, ◌&&◌, ◌||◌, Option,
  ok, err, ◌==◌, string_eq, if◌then◌else◌, arith, Bool-cases, inl, inr,
}
use mathlib.Core.Path.{subst}
use mathlib.Core.Bool.{false≢true}
use text.Mathlib.TextEquality.{eq_iff}
use k8s_lb_controller.Prelude.Int.{ℤ, is_positive}
use k8s_lb_controller.Prelude.Fallible.{>>=-eq-ok}
use k8s_lb_controller.Prelude.Texts.{trim_space}
use k8s_lb_controller.Environment.{Env, is_supported_log_level}
use k8s_lb_controller.Environment.Reading.{string_env-trimmed}
use k8s_lb_controller.Dataplane.IpAttach
use k8s_lb_controller.Dataplane.IpAttach.{
  ConfigError, Backend, Platform, linux, other, netlink_unsupported, new_netlink_manager, noop,
  exec, netlink, normalize_mode, normalize_config, new_manager, is_valid_mode, is_cidr_suffix,
  mode_exec, mode_netlink, default_mode, or_default, or_default_suffix, default_command_path,
  default_cidr_suffix,
}
use k8s_lb_controller.Dataplane.Settings.{
  Config, load_values, check_values, load_config, initial, env_interface, env_haproxy_config_path,
  default_haproxy_config_path,
}

module _ (parse_duration : String → Option ℤ) where
  valued :
      (env : Env) (cfg out : Config)
      → load_values parse_duration env cfg ≡ ok out
      → (is_positive out.graceful_shutdown_timeout ≡ true)
        × (out ≡ record cfg {
          graceful_shutdown_timeout = out.graceful_shutdown_timeout;
          ip_attach_enabled = out.ip_attach_enabled;
          ip_cidr_suffix = out.ip_cidr_suffix;
        })
  unfolding load_values
  valued env cfg out h = ground arith

checked :
    (cfg out : Config)
    → check_values cfg ≡ ok out
    → (out ≡ cfg)
      × (not (cfg.http_addr == "") ≡ true)
      × (not (cfg.haproxy_config_path == "") ≡ true)
      × (is_supported_log_level cfg.log_level ≡ true)
      × (is_valid_mode cfg.ip_attach_mode ≡ true)
      × (is_cidr_suffix cfg.ip_cidr_suffix ≡ true)
      × (not (cfg.ip_attach_enabled && cfg.interface == "") ≡ true)
unfolding check_values
checked cfg out h = ground arith

-- What holds of settings that LoadConfig has returned for an environment.
pub record IsLoaded (cfg : Config) : Type 0 where
  pub timeout_positive : is_positive cfg.graceful_shutdown_timeout ≡ true
  pub http_named : not (cfg.http_addr == "") ≡ true
  pub path_named : not (cfg.haproxy_config_path == "") ≡ true
  pub level_supported : is_supported_log_level cfg.log_level ≡ true
  pub mode_valid : is_valid_mode cfg.ip_attach_mode ≡ true
  pub suffix_ranged : is_cidr_suffix cfg.ip_cidr_suffix ≡ true
  pub interface_named : not (cfg.ip_attach_enabled && cfg.interface == "") ≡ true
  pub interface_trimmed : trim_space cfg.interface ≡ cfg.interface
  pub path_trimmed : trim_space cfg.haproxy_config_path ≡ cfg.haproxy_config_path

pub load_config-IsLoaded :
    (parse_duration : String → Option ℤ) (env : Env) (cfg : Config)
    → load_config parse_duration env ≡ ok cfg
    → IsLoaded cfg
unfolding load_config
load_config-IsLoaded parse_duration env cfg h =
    let (mid, first, second) =
      >>=-eq-ok (load_values parse_duration env (initial env)) check_values h in
    let (timeout, texts) = valued parse_duration env (initial env) mid first in
    let (same, http, path, level, mode, suffix, interface) = checked mid cfg second in
    subst IsLoaded (sym same) (record {
      timeout_positive = timeout;
      http_named = http;
      path_named = path;
      level_supported = level;
      mode_valid = mode;
      suffix_ranged = suffix;
      interface_named = interface;
      interface_trimmed =
          ap (λ c. trim_space c.interface) texts
          ∙ string_env-trimmed env env_interface "" (unfold trim_space in refl)
          ∙ sym (ap (λ (c : Config). c.interface) texts);
      path_trimmed =
          ap (λ c. trim_space c.haproxy_config_path) texts
          ∙ string_env-trimmed env env_haproxy_config_path default_haproxy_config_path
              (unfold trim_space in refl)
          ∙ sym (ap (λ (c : Config). c.haproxy_config_path) texts);
    })

-- The settings of the manager of addresses, as cmd/dataplane passes them on.
abbrev pub manager_config : Config → IpAttach.Config
manager_config cfg = record {
  enabled = cfg.ip_attach_enabled;
  mode = cfg.ip_attach_mode;
  interface = cfg.interface;
  command_path = cfg.ip_command;
  cidr_suffix = cfg.ip_cidr_suffix;
}

-- Netlink is there on Linux only.
abbrev pub by_netlink :
    {C : Type 0} → Platform → C → IpAttach.Config → Result ConfigError (Backend C)
by_netlink linux client normalized = ok (netlink normalized client)
by_netlink other client normalized = err netlink_unsupported

-- The manager that the settings ask for.
abbrev pub wanted_backend :
    {C : Type 0} → Platform → C → Config → IpAttach.Config → Result ConfigError (Backend C)
wanted_backend platform client cfg normalized =
    if not cfg.ip_attach_enabled
    then ok noop
    else if normalized.mode == mode_exec
    then ok (exec normalized)
    else by_netlink platform client normalized

or_default-named : (s default : String) → (s == "") ≡ false → or_default s default ≡ s
or_default-named s default h = rw h

valid-named :
    (m : String) → (m == mode_exec || m == mode_netlink) ≡ true → or_default m default_mode ≡ m
valid-named m h = elim (Bool-cases (m == "")) [
  | inr n ↦ or_default-named m default_mode n
  | inl e ↦
      let bad : ("" == mode_exec || "" == mode_netlink) ≡ true =
        subst (λ z. (z == mode_exec || z == mode_netlink) ≡ true) ((eq_iff m "").0 e) h in
      absurd (false≢true bad)
]

suffix-kept : (n : ℤ) → is_cidr_suffix n ≡ true → or_default_suffix n ≡ n
suffix-kept n h = ground (arith)

-- The settings that NewManager goes by: the loaded ones, with the command's default.
abbrev pub normalized_config : Config → IpAttach.Config
normalized_config cfg = record {
  enabled = cfg.ip_attach_enabled;
  mode = normalize_mode cfg.ip_attach_mode;
  interface = cfg.interface;
  command_path = or_default (trim_space cfg.ip_command) default_command_path;
  cidr_suffix = cfg.ip_cidr_suffix;
}

not-true : (b : Bool) → not b ≡ true → b ≡ false
not-true b h = ground arith

all_pass :
    {X A : Type 0} (a b c : Bool) (x y z : X) (v : A)
    → a ≡ true
    → b ≡ true
    → not c ≡ true
    → (if not a then err x else if not b then err y else if c then err z else ok v) ≡ ok v
all_pass a b c x y z v h k l = rw (h, k, not-true c l)

chosen :
    {X A : Type 0} (enabled a b : Bool) (x y : A) (z : Result X A) (e : X)
    → (a || b) ≡ true
    → (if not enabled then ok x else if a then ok y else if b then z else err e)
      ≡ (if not enabled then ok x else if a then ok y else z)
chosen false a b x y z e h = refl
chosen true true b x y z e h = refl
chosen true false b x y z e h = rw h

normalized :
    (cfg : Config)
    → IsLoaded cfg
    → normalize_config (manager_config cfg) ≡ ok (normalized_config cfg)
unfolding normalize_config is_valid_mode
normalized cfg h =
    rw
      (
        h.interface_trimmed,
        suffix-kept cfg.ip_cidr_suffix h.suffix_ranged,
        valid-named (normalize_mode cfg.ip_attach_mode) h.mode_valid,
      )
      (all_pass
        (normalize_mode cfg.ip_attach_mode == mode_exec
          || normalize_mode cfg.ip_attach_mode == mode_netlink)
        (is_cidr_suffix cfg.ip_cidr_suffix) (cfg.ip_attach_enabled && cfg.interface == "") _ _ _
        (normalized_config cfg) h.mode_valid h.suffix_ranged h.interface_named)

by_netlink-same :
    {C : Type 0} (platform : Platform) (client : C) (cfg : IpAttach.Config)
    → new_netlink_manager platform client cfg none ≡ by_netlink platform client cfg
by_netlink-same linux client cfg = refl
by_netlink-same other client cfg = refl

-- For settings that LoadConfig has returned and without a client of its own, NewManager makes the
-- manager that they ask for, with their interface and their prefix length, where there is netlink
-- if they ask for it.
pub new_manager-load_config :
    {C : Type 0} (platform : Platform) (client : C) (parse_duration : String → Option ℤ) (env : Env)
    (cfg : Config)
    → load_config parse_duration env ≡ ok cfg
    → new_manager platform client (manager_config cfg) none
      ≡ wanted_backend platform client cfg (normalized_config cfg)
unfolding new_manager is_valid_mode
new_manager-load_config platform client parse_duration env cfg loaded =
    let h = load_config-IsLoaded parse_duration env cfg loaded in
    rw (normalized cfg h, new_manager)
      (chosen cfg.ip_attach_enabled (normalize_mode cfg.ip_attach_mode == mode_exec)
          (normalize_mode cfg.ip_attach_mode == mode_netlink) _ _ _ _ h.mode_valid
        ∙ rw (by_netlink-same platform client (normalized_config cfg)) refl)
