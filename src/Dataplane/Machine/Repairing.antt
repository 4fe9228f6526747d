-- ===== src/Dataplane/Machine/Repairing.antt =====
-- The dataplane as cmd/dataplane puts it together: the engine over the netlink manager and the
-- applier.
use k8s_lb_controller.Prelude.{ℕ, ◌≡◌, Bool, String, List, Option, ok}
use k8s_lb_controller.Netip.{Addr, v4}
use k8s_lb_controller.Provider.{Service, ServiceRef}
use k8s_lb_controller.Dataplane.Host.{IpManager, ConfigApplier}
use k8s_lb_controller.Dataplane.Store.{get, list}
use k8s_lb_controller.Dataplane.Store.Laws.{IsCanonical}
use k8s_lb_controller.Dataplane.ExternalIps.Sets.{wanted}
use k8s_lb_controller.Dataplane.Apply.{ApplyConfig, Faults, ApplyError}
use k8s_lb_controller.Dataplane.Engine.{Engine, ensure}
use k8s_lb_controller.Dataplane.Engine.Histories.{
  Call, ensures, after, specified_call, ensure_after_failures,
}
use k8s_lb_controller.Dataplane.IpAttach.Manager.{ManagerError}
use k8s_lb_controller.Dataplane.IpAttach.Netlink.{
  Prefix, NetlinkClient, NetlinkLaws, netlink_manager, managed, netlink_manager-IpLaws,
}
use k8s_lb_controller.Dataplane.Machine.{
  Machine, machine_manager, machine_applier, active, rendered, machine-HostLaws,
}

module _ {X E : Type 0} (client : NetlinkClient X E) (interface : String)
    (prefixes : X → Prefix → Bool) (laws : NetlinkLaws client interface prefixes)
    (cfg : ApplyConfig) (answers : ℕ → Faults) where
  abbrev pub manager : IpManager (Machine X) (ManagerError E)
  manager = machine_manager (netlink_manager client interface 32) cfg answers

  abbrev pub applier : ConfigApplier (Machine X) ApplyError
  applier = machine_applier (netlink_manager client interface 32) cfg answers

  -- The engine stores the map, the interface has the prefixes of the addresses that its Services
  -- ask for and no other of that length, and the file on disk is what they are rendered to.
  abbrev pub Repaired : (ServiceRef → Option Service) → Engine (Machine X) → Type 0
  Repaired content e =
      ((r : ServiceRef) → get e.store r ≡ content r)
      × ((a : Addr)
          → prefixes e.host.network (record { addr = v4 a; bits = 32 }) ≡ wanted (list e.store) a)
      × (e.host.disk.active ≡ rendered (list e.store))

  -- For the dataplane as a whole, over netlink calls that keep to their laws, with the prefix length
  -- 32 and whatever the system answers to each run of the applier: from a canonical store and after
  -- any sequence of Ensures and Deletes, also of ones that fail at any place, an Ensure that returns
  -- has stored the Service and left the others, the interface has exactly the prefixes that the
  -- stored Services ask for, and the file on disk is their configuration.
  pub machine_repairs :
      (calls : List Call) (s : Service) (e : Engine (Machine X)) (b : Bool)
      → IsCanonical e.store
      → (ensure manager applier s (after manager applier calls e)).0 ≡ ok b
      → Repaired
          (specified_call (ensures s) (get (after manager applier calls e).store))
          (ensure manager applier s (after manager applier calls e)).1
  machine_repairs = ensure_after_failures manager applier _ active rendered (
      machine-HostLaws (netlink_manager client interface 32)
        (managed client interface prefixes laws)
        (netlink_manager-IpLaws client interface prefixes laws) cfg answers)
