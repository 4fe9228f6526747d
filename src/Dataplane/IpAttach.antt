-- ===== src/Dataplane/IpAttach.antt =====
-- internal/dataplane/ipattach/manager.go: the settings of the managers of host addresses, and the
-- manager that does nothing.
pub mod Manager
pub mod Netlink
pub mod Settings
pub mod Exec
use k8s_lb_controller.Prelude.{
  ℕ, String, Bool, true, false, not, ◌&&◌, ◌||◌, List, [], Option, none, some, Result, ok, err, M,
  ◌==◌, string_eq, if◌then◌else◌, ◌≡◌, refl,
}
use k8s_lb_controller.Prelude.Int.{ℤ, pos, negsuc, cmp_ℤ, int_eq, int_order}
use k8s_lb_controller.Prelude.Order.{less}
use k8s_lb_controller.Prelude.Texts.{trim_space, to_lower}
use k8s_lb_controller.Netip.{Addr}
use k8s_lb_controller.Dataplane.Host.{IpManager}

abbrev pub default_command_path : String
default_command_path = "ip"

abbrev pub default_cidr_suffix : ℤ
default_cidr_suffix = pos 32

abbrev pub mode_exec : String
mode_exec = "exec"

abbrev pub mode_netlink : String
mode_netlink = "netlink"

abbrev pub default_mode : String
default_mode = mode_netlink

pub record Config : Type 0 where
  pub enabled : Bool
  pub mode : String
  pub interface : String
  pub command_path : String
  pub cidr_suffix : ℤ

pub data ConfigError : Type 0 where
  unsupported_mode : String → ConfigError
  cidr_suffix_range : ConfigError
  no_interface : ConfigError
  netlink_unsupported : ConfigError

-- Mode.Normalize, which is normalizeMode.
unfoldable pub normalize_mode : String → String
unfolding trim_space to_lower
normalize_mode mode = to_lower (trim_space mode)

-- Mode.Valid
unfoldable pub is_valid_mode : String → Bool
unfolding normalize_mode
is_valid_mode mode = normalize_mode mode == mode_exec || normalize_mode mode == mode_netlink

abbrev pub or_default : String → String → String
or_default s default = if s == "" then default else s

abbrev pub or_default_suffix : ℤ → ℤ
or_default_suffix n = if n == pos 0 then default_cidr_suffix else n

abbrev pub is_cidr_suffix : ℤ → Bool
is_cidr_suffix n = not (less n (pos 1)) && not (less (pos 32) n)

-- normalizeConfig
unfoldable pub normalize_config : Config → Result ConfigError Config
unfolding normalize_mode trim_space
normalize_config cfg =
    let mode = or_default (normalize_mode cfg.mode) default_mode in
    let suffix = or_default_suffix cfg.cidr_suffix in
    let normalized : Config = record {
      enabled = cfg.enabled;
      mode = mode;
      interface = trim_space cfg.interface;
      command_path = or_default (trim_space cfg.command_path) default_command_path;
      cidr_suffix = suffix;
    } in
    if not (mode == mode_exec || mode == mode_netlink)
    then err (unsupported_mode cfg.mode)
    else if not (is_cidr_suffix suffix)
    then err cidr_suffix_range
    else if cfg.enabled && trim_space cfg.interface == ""
    then err no_interface
    else ok normalized

-- The system that the program is built for.
pub data Platform : Type 0 where
  linux other : Platform

-- newDefaultNetlinkClient, of netlink_linux.go and of netlink_unsupported.go, where the second
-- argument is the client of the first.
abbrev pub new_default_netlink_client : {C : Type 0} → Platform → C → Result ConfigError C
new_default_netlink_client linux client = ok client
new_default_netlink_client other client = err netlink_unsupported

-- Which manager NewManager makes: the one over netlink has a client.
pub data Backend (C : Type 0) : Type 0 where
  noop : Backend C
  exec : Config → Backend C
  netlink : Config → C → Backend C

abbrev pub with_client :
    {C : Type 0} → Config → Result ConfigError C → Result ConfigError (Backend C)
with_client cfg (err e) = err e
with_client cfg (ok client) = ok (netlink cfg client)

-- newNetlinkManager: a client that is not given is the default one.
abbrev pub new_netlink_manager :
    {C : Type 0} → Platform → C → Config → Option C → Result ConfigError (Backend C)
new_netlink_manager platform own cfg (some given) = ok (netlink cfg given)
new_netlink_manager platform own cfg none =
    with_client cfg (new_default_netlink_client platform own)

-- NewManager, as far as the choice of the manager. The last argument is the netlink client of its
-- dependencies.
unfoldable pub new_manager :
    {C : Type 0} → Platform → C → Config → Option C → Result ConfigError (Backend C)
unfolding normalize_config
new_manager platform own cfg given = elim (normalize_config cfg) [
  | err e ↦ err e
  | ok normalized ↦
      if not normalized.enabled
      then ok noop
      else if normalized.mode == mode_exec
      then ok (exec normalized)
      else if normalized.mode == mode_netlink
      then new_netlink_manager platform own normalized given
      else err (unsupported_mode normalized.mode)
]

-- noopManager
abbrev pub noop_manager : {W E : Type 0} → IpManager W E
noop_manager = record {
  list = λ w. (ok [], w);
  ensure_present = λ a w. (ok false, w);
  ensure_absent = λ a w. (ok false, w);
}
