-- ===== src/Dataplane/IpAttach/Settings.antt =====
-- The settings that normalizeConfig lets through.
use k8s_lb_controller.Prelude.{◌≡◌, ◌≢◌, true, false, ◌⊎◌, ok, string_eq, arith}
use k8s_lb_controller.Dataplane.IpAttach.{
  Config, normalize_config, mode_exec, mode_netlink, is_cidr_suffix,
}
use text.Mathlib.TextEquality.{eq_iff}

-- A configuration that is accepted names one of the two managers, has a prefix length from 1 to 32,
-- and names an interface if the attachment is enabled.
pub normalize_config-ok :
    (cfg n : Config)
    → normalize_config cfg ≡ ok n
    → ((n.mode ≡ mode_exec) ⊎ (n.mode ≡ mode_netlink))
      × (is_cidr_suffix n.cidr_suffix ≡ true)
      × ((n.enabled ≡ false) ⊎ (n.interface ≢ ""))
unfolding normalize_config
normalize_config-ok cfg n h =
    ground (arith, eq_iff n.mode mode_exec, eq_iff n.mode mode_netlink, eq_iff n.interface "")
