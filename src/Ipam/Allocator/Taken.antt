-- ===== src/Ipam/Allocator/Taken.antt =====
-- The addresses that the Services hold, and the map of used addresses that Allocate collects.
use k8s_lb_controller.Prelude.{
  ◌≡◌, refl, inl, inr, Bool, true, false, ◌&&◌, ◌||◌, List, [], ◌∷◌, ◌++◌, none, some, ◌==◌, nat_eq,
  contains, arith, Bool-cases, Option-cases, contains-append,
}
use k8s_lb_controller.Prelude.Order.{nat_order}
use k8s_lb_controller.Prelude.Assoc.{get, put, get-put}
use k8s_lb_controller.Netip.{Addr}
use k8s_lb_controller.Kube.{Service, Ingress, NamespacedName}
use k8s_lb_controller.Ipam.Allocator.{
  Allocator, Used, service_key, ingress_ip, collect_ingress, collect_used_ips, counts, is_used,
}

-- An ingress list holds an address.
unfoldable pub holds : List Ingress → Addr → Bool
holds [] ip = false
holds (i ∷ rest) ip = elim (ingress_ip i) [ none ↦ false | some addr ↦ addr == ip ] || holds rest ip

-- A Service that counts for the allocation holds an address.
unfoldable pub taken : Allocator → NamespacedName → List Service → Addr → Bool
taken a current [] ip = false
taken a current (s ∷ rest) ip = counts a current s && holds s.ingress ip || taken a current rest ip

is_used-collect_ingress :
    (pool : List Addr) (key : NamespacedName) (l : List Ingress) (used : Used) (ip : Addr)
    → is_used (collect_ingress pool key l used) ip
      ≡ (is_used used ip || contains pool ip && holds l ip)
unfolding collect_ingress holds
is_used-collect_ingress pool key [] used ip = ground arith
is_used-collect_ingress pool key (i ∷ rest) used ip = elim (Option-cases (ingress_ip i)) [
  | inl e ↦ rw e (is_used-collect_ingress pool key rest used ip)
  | inr (addr, e) ↦ elim (Bool-cases (contains pool addr)) [
    | inl f ↦
        rw (e, f)
          (ground (
            arith,
            is_used-collect_ingress pool key rest (put used addr key) ip,
            get-put used addr ip key,
          ))
    | inr f ↦ rw (e, f) (ground (arith, is_used-collect_ingress pool key rest used ip))
  ]
]

pub contains-middle :
    (front : List Addr) (ip : Addr) (l : List Addr) → contains (front ++ ip ∷ l) ip ≡ true
unfolding contains
contains-middle front ip l = ground (arith, contains-append front (ip ∷ l) ip)

pub get_nil : (ip : Addr) → get {V = NamespacedName} [] ip ≡ none
unfolding get
get_nil ip = refl

pub is_used-collect_used_ips :
    (a : Allocator) (current : NamespacedName) (services : List Service) (used : Used) (ip : Addr)
    → is_used (collect_used_ips a current services used) ip
      ≡ (is_used used ip || contains a.pool ip && taken a current services ip)
unfolding collect_used_ips taken
is_used-collect_used_ips a current [] used ip = ground arith
is_used-collect_used_ips a current (s ∷ rest) used ip = elim (Bool-cases (counts a current s)) [
  | inl e ↦ rw e (
      ground (
        arith,
        is_used-collect_used_ips a current rest
            (collect_ingress a.pool (service_key s) s.ingress used) ip,
        is_used-collect_ingress a.pool (service_key s) s.ingress used ip,
      ))
  | inr e ↦ rw e (is_used-collect_used_ips a current rest used ip)
]
