-- ===== src/Dataplane/IpAttach/Manager.antt =====
-- EnsurePresent and EnsureAbsent of internal/dataplane/ipattach/netlink.go and exec.go, which are
-- the same program over two ways of listing and changing the addresses of an interface.
pub mod Laws
use k8s_lb_controller.Prelude.{
  ℕ, String, Bool, true, false, not, ◌&&◌, List, Result, ok, err, M, ◌==◌, nat_eq, if◌then◌else◌,
  contains,
}
use k8s_lb_controller.Netip.{Addr, AnyAddr, invalid, v4, v6}
use k8s_lb_controller.Dataplane.Host.{IpManager}

pub data ManagerError (E : Type 0) : Type 0 where
  not_ipv4 : AnyAddr → ManagerError E
  list_failed : E → ManagerError E
  state_unknown : E → ManagerError E
  change_failed : E → ManagerError E

abbrev pub same_bool : Bool → Bool → Bool
same_bool true b = b
same_bool false b = not b

-- `change true` adds an address to the interface and `change false` deletes it.
module _ {W E : Type 0} (list : M W E (List Addr)) (change : Bool → Addr → M W E (Unit {0})) where
  abbrev pub judged : Bool → Addr → E → Result E (List Addr) → W → Result (ManagerError E) Bool × W
  judged want addr e (err x) w = (err (state_unknown x), w)
  judged want addr e (ok current) w =
      if same_bool (contains current addr) want then (ok false, w) else (err (change_failed e), w)

  -- ensureNetlinkStateAfterOperation and ensureExecStateAfterCommand.
  unfoldable pub ensure_state_after : Bool → Addr → E → M W (ManagerError E) Bool
  unfolding contains
  ensure_state_after want addr e w = let (r, w') = list w in judged want addr e r w'

  abbrev pub changed_or : Bool → Addr → Result E (Unit {0}) → W → Result (ManagerError E) Bool × W
  changed_or want addr (err e) w = ensure_state_after want addr e w
  changed_or want addr (ok _) w = (ok true, w)

  abbrev pub after_list : Bool → Addr → Result E (List Addr) → W → Result (ManagerError E) Bool × W
  after_list want addr (err x) w = (err (list_failed x), w)
  after_list want addr (ok current) w =
      if same_bool (contains current addr) want
      then (ok false, w)
      else let (r, w') = change want addr w in changed_or want addr r w'

  -- EnsurePresent with `want` true, and EnsureAbsent with `want` false.
  unfoldable pub ensure_addr : Bool → AnyAddr → M W (ManagerError E) Bool
  unfolding ensure_state_after contains
  ensure_addr want invalid w = (err (not_ipv4 invalid), w)
  ensure_addr want (v6 a) w = (err (not_ipv4 (v6 a)), w)
  ensure_addr want (v4 addr) w = let (r, w') = list w in after_list want addr r w'

  abbrev listing : Result E (List Addr) → Result (ManagerError E) (List Addr)
  listing (ok l) = ok l
  listing (err e) = err (list_failed e)

  -- The manager that the engine calls; the engine's addresses are IPv4.
  unfoldable pub manager : IpManager W (ManagerError E)
  unfolding ensure_addr
  manager = record {
    list = λ w. (listing (list w).0, (list w).1);
    ensure_present = λ addr w. ensure_addr true (v4 addr) w;
    ensure_absent = λ addr w. ensure_addr false (v4 addr) w;
  }
