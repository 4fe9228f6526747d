-- ===== src/Dataplane/Tests/Repairs.antt =====
-- The dataplane as a whole on an interface and a directory, with a reload that fails once.
use k8s_lb_controller.Prelude.{
  ℕ, ◌≡◌, refl, String, true, List, [], none, ◌∷◌, some, ◌==◌, if◌then◌else◌, nat_eq,
}
use k8s_lb_controller.Prelude.Texts.{trim_space}
use k8s_lb_controller.Prelude.Sort.{sort}
use k8s_lb_controller.Prelude.Assoc.{get as map_get, put as map_put}
use k8s_lb_controller.Netip.{parse_ipv4}
use k8s_lb_controller.Dataplane.Store.{get, list, new_store}
use k8s_lb_controller.Dataplane.Store.Laws.{new_store-IsCanonical}
use k8s_lb_controller.Dataplane.Render.{render}
use k8s_lb_controller.Dataplane.Render.Validate.{validate_service}
use k8s_lb_controller.Dataplane.Apply.{ApplyError, Faults, apply}
use k8s_lb_controller.Dataplane.Apply.Commands.{run_command}
use k8s_lb_controller.Dataplane.Engine.{
  Engine, EngineConfig, fresh_engine, new_engine, noop_external_ip_manager, ensure,
}
use k8s_lb_controller.Dataplane.Engine.Histories.{Call, ensures, specified_call, after}
use k8s_lb_controller.Dataplane.IpAttach.Netlink.{Prefix, netlink_manager}
use k8s_lb_controller.Dataplane.IpAttach.Manager.{ManagerError}
use k8s_lb_controller.Dataplane.Host.{IpManager, ConfigApplier}
use k8s_lb_controller.Provider.Haproxy.{new_haproxy}
use k8s_lb_controller.Dataplane.Machine.{Machine, machine_applier}
use k8s_lb_controller.Dataplane.Machine.Repairing.{manager, applier, Repaired, machine_repairs}
use k8s_lb_controller.Dataplane.Tests.{web}
use k8s_lb_controller.Dataplane.Tests.Files.{
  settings, calm, deaf, blank, interface_client, has_prefix, interface-NetlinkLaws, without_prefix,
}

abbrev first_deaf : ℕ → Faults
first_deaf n = if n == 0 then deaf else calm

abbrev machine : Engine (Machine (List Prefix))
machine = fresh_engine (record { network = []; disk = blank; runs = 0 })

abbrev failed_call : List Call
failed_call = ensures (record web { external_ip = "0.0.0.6" }) ∷ []

abbrev on_eth0 : IpManager (Machine (List Prefix)) (ManagerError String)
on_eth0 = manager interface_client "eth0" has_prefix interface-NetlinkLaws settings first_deaf

abbrev on_disk : ConfigApplier (Machine (List Prefix)) ApplyError
on_disk = applier interface_client "eth0" has_prefix interface-NetlinkLaws settings first_deaf

-- The first call fails: its reload finds no process.
the_call_fails :
    (ensure on_eth0 on_disk (record web { external_ip = "0.0.0.6" }) machine).1.store ≡ new_store
unfolding ensure get list map_get map_put sort parse_ipv4 validate_service render apply run_command
    trim_space netlink_manager without_prefix
the_call_fails = refl

machine_repairs_example :
    Repaired interface_client "eth0" has_prefix interface-NetlinkLaws settings first_deaf
      (specified_call (ensures web) (get (after on_eth0 on_disk failed_call machine).store))
      (ensure on_eth0 on_disk web (after on_eth0 on_disk failed_call machine)).1
unfolding ensure get list map_get map_put sort parse_ipv4 validate_service render apply run_command
    trim_space netlink_manager without_prefix
machine_repairs_example =
    machine_repairs interface_client "eth0" has_prefix interface-NetlinkLaws settings first_deaf
      failed_call web machine true new_store-IsCanonical refl

-- An engine that is given no applier makes one, which needs a path; one that is given no manager
-- has the manager that attaches nothing.
abbrev alone : String → EngineConfig (Machine (List Prefix)) (ManagerError String) ApplyError
alone path = record {
  settings = record settings { config_path = path };
  applier = none;
  ip_manager = none;
}

engine_without_path :
    new_engine
      (λ p. p)
      (λ cfg. machine_applier (netlink_manager interface_client "eth0" 32) cfg first_deaf)
      (alone "  ")
      machine.host
    ≡ none
unfolding new_engine trim_space
engine_without_path = refl

engine_alone :
    new_engine (λ p. p) (λ cfg. on_disk) (alone "/etc/haproxy.cfg") machine.host
    ≡ some (record { applier = on_disk; ip_manager = noop_external_ip_manager; engine = machine })
unfolding new_engine trim_space
engine_alone = refl

haproxy_without_path : new_haproxy (λ p. p) (record settings { config_path = "" }) blank ≡ none
unfolding new_haproxy trim_space
haproxy_without_path = refl
