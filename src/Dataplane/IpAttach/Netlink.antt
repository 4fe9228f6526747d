-- ===== src/Dataplane/IpAttach/Netlink.antt =====
-- internal/dataplane/ipattach/netlink.go: the addresses with the managed prefix length.
use k8s_lb_controller.Prelude.{
  ℕ, ◌≡◌, refl, String, Bool, true, false, ◌&&◌, ◌||◌, List, [], ◌∷◌, Result, ok, err, M, ◌==◌,
  nat_eq, if◌then◌else◌, contains, arith,
}
use k8s_lb_controller.Prelude.Order.{nat_order}
use k8s_lb_controller.Prelude.Sort.{sort, before}
use k8s_lb_controller.Netip.{Addr, AnyAddr, invalid, v4, v6}
use k8s_lb_controller.Dataplane.Host.{IpManager, IpLaws}
use k8s_lb_controller.Dataplane.ExternalIps.{id_addr}
use k8s_lb_controller.Dataplane.ExternalIps.Sets.{contains-sort}
use k8s_lb_controller.Dataplane.IpAttach.Manager.{ManagerError, manager}
use k8s_lb_controller.Dataplane.IpAttach.Manager.Laws.{InterfaceLaws, manager-IpLaws}

-- netip.Prefix
pub record Prefix : Type 0 where
  pub addr : AnyAddr
  pub bits : ℕ

-- The three calls of netlinkClient.
pub record NetlinkClient (W E : Type 0) : Type 0 where
  pub list_ipv4_addrs : String → M W E (List Prefix)
  pub add_ipv4_addr : String → Prefix → M W E (Unit {0})
  pub delete_ipv4_addr : String → Prefix → M W E (Unit {0})

-- The loop of List.
unfoldable pub managed_addrs : ℕ → List Prefix → List Addr
managed_addrs suffix [] = []
managed_addrs suffix (p ∷ rest) =
    let later = managed_addrs suffix rest in
    elim p.addr [
      | invalid ↦ later
      | v6 a ↦ later
      | v4 a ↦ if p.bits == suffix then a ∷ later else later
    ]

module _ {W E : Type 0} (client : NetlinkClient W E) (interface : String) (suffix : ℕ) where
  abbrev pub sorted : Result E (List Prefix) → Result E (List Addr)
  sorted (err e) = err e
  sorted (ok prefixes) = ok (sort (before id_addr) (managed_addrs suffix prefixes))

  -- netlinkManager.List
  unfoldable pub list : M W E (List Addr)
  unfolding managed_addrs sort
  list w = let (r, w') = client.list_ipv4_addrs interface w in (sorted r, w')

  -- The addition and the deletion of the managed prefix.
  unfoldable pub change : Bool → Addr → M W E (Unit {0})
  change true addr w = client.add_ipv4_addr interface (record { addr = v4 addr; bits = suffix }) w
  change false addr w =
      client.delete_ipv4_addr interface (record { addr = v4 addr; bits = suffix }) w

  -- netlinkManager
  unfoldable pub netlink_manager : IpManager W (ManagerError E)
  unfolding manager list change
  netlink_manager = manager list change

-- Whether a prefix is the IPv4 address with the managed length.
abbrev pub is_managed : ℕ → Addr → Prefix → Bool
is_managed suffix a p = elim p.addr [
  | invalid ↦ false
  | v6 b ↦ false
  | v4 b ↦ p.bits == suffix && b == a
]

unfoldable pub has_managed : ℕ → Addr → List Prefix → Bool
has_managed suffix a [] = false
has_managed suffix a (p ∷ rest) = is_managed suffix a p || has_managed suffix a rest

contains-managed_addrs :
    (suffix : ℕ) (l : List Prefix) (a : Addr)
    → contains (managed_addrs suffix l) a ≡ has_managed suffix a l
unfolding contains managed_addrs has_managed
contains-managed_addrs suffix [] a = refl
contains-managed_addrs suffix (p ∷ rest) a = ground (arith, contains-managed_addrs suffix rest a)

-- What the netlink calls do to the prefixes of the interface: a listing is the truth and changes
-- nothing; an addition or a deletion that returns has been made, one that fails has not. An addition
-- concerns no other address of the prefix length. A deletion concerns none at length 32: with a
-- shorter length, Linux may remove the secondary addresses of the same subnet too.
pub record NetlinkLaws {W E : Type 0} (client : NetlinkClient W E) (interface : String)
    (prefixes : W → Prefix → Bool) : Type 0 where
  pub list-keeps :
      (w : W) (p : Prefix) → prefixes (client.list_ipv4_addrs interface w).1 p ≡ prefixes w p
  pub list-lists :
      (w : W) (l : List Prefix) (a : Addr) (bits : ℕ)
      → (client.list_ipv4_addrs interface w).0 ≡ ok l
      → has_managed bits a l ≡ prefixes w (record { addr = v4 a; bits = bits })
  pub add-done :
      (p : Prefix) (w : W) (u : Unit {0})
      → (client.add_ipv4_addr interface p w).0 ≡ ok u
      → prefixes (client.add_ipv4_addr interface p w).1 p ≡ true
  pub add-failed :
      (p : Prefix) (w : W) (e : E) (q : Prefix)
      → (client.add_ipv4_addr interface p w).0 ≡ err e
      → prefixes (client.add_ipv4_addr interface p w).1 q ≡ prefixes w q
  pub add-other :
      (a b : Addr) (bits : ℕ) (w : W)
      → (a == b) ≡ false
      → prefixes
          (client.add_ipv4_addr interface (record { addr = v4 a; bits = bits }) w).1
          (record { addr = v4 b; bits = bits })
        ≡ prefixes w (record { addr = v4 b; bits = bits })
  pub delete-done :
      (p : Prefix) (w : W) (u : Unit {0})
      → (client.delete_ipv4_addr interface p w).0 ≡ ok u
      → prefixes (client.delete_ipv4_addr interface p w).1 p ≡ false
  pub delete-failed :
      (p : Prefix) (w : W) (e : E) (q : Prefix)
      → (client.delete_ipv4_addr interface p w).0 ≡ err e
      → prefixes (client.delete_ipv4_addr interface p w).1 q ≡ prefixes w q
  pub delete-other :
      (a b : Addr) (w : W)
      → (a == b) ≡ false
      → prefixes
          (client.delete_ipv4_addr interface (record { addr = v4 a; bits = 32 }) w).1
          (record { addr = v4 b; bits = 32 })
        ≡ prefixes w (record { addr = v4 b; bits = 32 })

module _ {W E : Type 0} (client : NetlinkClient W E) (interface : String)
    (prefixes : W → Prefix → Bool) (laws : NetlinkLaws client interface prefixes) where
  -- The addresses that the manager manages.
  abbrev pub managed : W → Addr → Bool
  managed w a = prefixes w (record { addr = v4 a; bits = 32 })

  lists-managed :
      (w : W) (r : Result E (List Prefix)) (l : List Addr) (a : Addr)
      → sorted client interface 32 r ≡ ok l
      → ((m : List Prefix) → r ≡ ok m → has_managed 32 a m ≡ managed w a)
      → contains l a ≡ managed w a
  lists-managed w (err e) l a h lists = cc
  lists-managed w (ok m) l a h lists =
      ground
        (arith, contains-sort (managed_addrs 32 m) a, contains-managed_addrs 32 m a, lists m refl)

  done :
      (want : Bool) (x : Addr) (w : W) (u : Unit {0})
      → (change client interface 32 want x w).0 ≡ ok u
      → managed (change client interface 32 want x w).1 x ≡ want
  unfolding change
  done true x w u h = laws.add-done _ w u h
  done false x w u h = laws.delete-done _ w u h

  failed :
      (want : Bool) (x : Addr) (w : W) (e : E) (a : Addr)
      → (change client interface 32 want x w).0 ≡ err e
      → managed (change client interface 32 want x w).1 a ≡ managed w a
  unfolding change
  failed true x w e a h = laws.add-failed _ w e _ h
  failed false x w e a h = laws.delete-failed _ w e _ h

  other :
      (want : Bool) (x : Addr) (w : W) (a : Addr)
      → (x == a) ≡ false
      → managed (change client interface 32 want x w).1 a ≡ managed w a
  unfolding change
  other true x w a n = laws.add-other x a 32 w n
  other false x w a n = laws.delete-other x a w n

  netlink-InterfaceLaws :
      InterfaceLaws (list client interface 32) (change client interface 32) managed
  unfolding list change
  netlink-InterfaceLaws = record {
    list-keeps = λ w a. laws.list-keeps w _;
    list-lists = λ w l a h.
        lists-managed w (client.list_ipv4_addrs interface w).0 l a h
          (λ m k. laws.list-lists w m a 32 k);
    change-done = done;
    change-failed = failed;
    change-other = other;
  }

  -- With the prefix length 32, the default, and over netlink calls that keep to their laws, the
  -- netlink manager is what the engine relies on, for the addresses with that length.
  pub netlink_manager-IpLaws : IpLaws (netlink_manager client interface 32) managed
  unfolding netlink_manager
  netlink_manager-IpLaws =
      manager-IpLaws (list client interface 32) (change client interface 32) managed
        netlink-InterfaceLaws
