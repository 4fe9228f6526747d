-- ===== src/Dataplane/Host.antt =====
-- The two interfaces that the engine calls, ExternalIPManager and ConfigApplier of
-- internal/dataplane/engine.go, over the state `W` of the host, with what the engine relies on.
use k8s_lb_controller.Prelude.{◌≡◌, Bool, true, false, not, List, ok, M, ◌==◌, nat_eq, contains}
use k8s_lb_controller.Netip.{Addr}
use k8s_lb_controller.Provider.{Service}

pub record IpManager (W E : Type 0) : Type 0 where
  pub list : M W E (List Addr)
  pub ensure_present : Addr → M W E Bool
  pub ensure_absent : Addr → M W E Bool

pub record ConfigApplier (W F : Type 0) : Type 0 where
  pub apply : List Service → M W F Bool
  pub bootstrap : M W F (Unit {0})

-- What an ExternalIPManager does to the set of attached addresses. A call that fails may or may not
-- have changed its own address, no call changes another, and an attachment reports whether it
-- changed something.
pub record IpLaws {W E : Type 0} (m : IpManager W E) (attached : W → Addr → Bool) : Type 0 where
  pub list-keeps : (w : W) (a : Addr) → attached (m.list w).1 a ≡ attached w a
  pub list-lists :
      (w : W) (l : List Addr) (a : Addr) → (m.list w).0 ≡ ok l → contains l a ≡ attached w a
  pub present-done :
      (x : Addr) (w : W) (b : Bool)
      → (m.ensure_present x w).0 ≡ ok b
      → attached (m.ensure_present x w).1 x ≡ true
  pub present-changed :
      (x : Addr) (w : W) (b : Bool) → (m.ensure_present x w).0 ≡ ok b → attached w x ≡ not b
  pub present-other :
      (x : Addr) (w : W) (a : Addr)
      → (x == a) ≡ false
      → attached (m.ensure_present x w).1 a ≡ attached w a
  pub absent-done :
      (x : Addr) (w : W) (b : Bool)
      → (m.ensure_absent x w).0 ≡ ok b
      → attached (m.ensure_absent x w).1 x ≡ false
  pub absent-other :
      (x : Addr) (w : W) (a : Addr)
      → (x == a) ≡ false
      → attached (m.ensure_absent x w).1 a ≡ attached w a

-- The two together: the applier leaves the addresses alone and, when it returns, has made the
-- active configuration that of the Services; the manager leaves the configuration alone.
pub record HostLaws {W E F C : Type 0} (m : IpManager W E) (c : ConfigApplier W F)
    (attached : W → Addr → Bool) (active : W → C) (rendered : List Service → C) : Type 0 where
  pub ips : IpLaws m attached
  pub apply-keeps :
      (l : List Service) (w : W) (a : Addr) → attached (c.apply l w).1 a ≡ attached w a
  pub apply-active :
      (l : List Service) (w : W) (b : Bool)
      → (c.apply l w).0 ≡ ok b
      → active (c.apply l w).1 ≡ rendered l
  pub list-active : (w : W) → active (m.list w).1 ≡ active w
  pub present-active : (x : Addr) (w : W) → active (m.ensure_present x w).1 ≡ active w
  pub absent-active : (x : Addr) (w : W) → active (m.ensure_absent x w).1 ≡ active w
