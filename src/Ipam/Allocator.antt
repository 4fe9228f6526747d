-- ===== src/Ipam/Allocator.antt =====
-- internal/ipam/allocator.go: which external address a Service gets.
pub mod Taken
pub mod Choice
pub mod Stability
use k8s_lb_controller.Prelude.{
  ℕ, String, Bool, true, false, not, List, [], ◌∷◌, Option, none, some, Result, ok, err, ◌==◌,
  nat_eq, string_eq, if◌then◌else◌, contains, length,
}
use k8s_lb_controller.Prelude.Order.{nat_order}
use k8s_lb_controller.Prelude.Assoc.{Map, get, put}
use k8s_lb_controller.Netip.{Addr, parse_ipv4}
use k8s_lb_controller.Kube.{Service, Ingress, NamespacedName, name_eq}

pub data AllocateError : Type 0 where
  pool_empty : AllocateError
  no_free_ip : AllocateError

pub record Allocation : Type 0 where
  pub ip : Addr
  pub reused : Bool

-- A matcher that is nil lets every Service take part.
pub record Allocator : Type 0 where
  pub pool : List Addr
  pub matches : Option (Service → Bool)

abbrev pub service_key : Service → NamespacedName
service_key s = record { namespace = s.namespace; name = s.name }

-- What an ingress entry contributes: its IPv4 address.
abbrev pub ingress_ip : Ingress → Option Addr
ingress_ip i = if i.ip == "" then none else parse_ipv4 i.ip

-- The first ingress entry that holds an IPv4 address.
unfoldable pub assigned_from : List Ingress → Option Addr
unfolding parse_ipv4
assigned_from [] = none
assigned_from (i ∷ rest) =
    let later = assigned_from rest in elim (ingress_ip i) [ none ↦ later | some addr ↦ some addr ]

-- assignedIPFromStatus
abbrev pub assigned_ip_from_status : Service → Option Addr
assigned_ip_from_status s = assigned_from s.ingress

abbrev pub Used : Type 0
Used = Map Addr NamespacedName

-- The inner loop of collectUsedIPs, over one Service's ingress entries.
unfoldable pub collect_ingress : List Addr → NamespacedName → List Ingress → Used → Used
unfolding contains put parse_ipv4
collect_ingress pool key [] used = used
collect_ingress pool key (i ∷ rest) used = collect_ingress pool key rest (elim (ingress_ip i) [
  | none ↦ used
  | some addr ↦ if contains pool addr then put used addr key else used
])

abbrev pub matched : Option (Service → Bool) → Service → Bool
matched none s = true
matched (some f) s = f s

abbrev pub is_none {ℓ} : {A : Type ℓ} → Option A → Bool
is_none none = true
is_none (some a) = false

-- The Services whose addresses are taken, seen from `current`.
abbrev pub counts : Allocator → NamespacedName → Service → Bool
counts a current s =
    if not (is_none s.deletion)
    then false
    else if service_key s == current
    then false
    else matched a.matches s

-- collectUsedIPs
unfoldable pub collect_used_ips : Allocator → NamespacedName → List Service → Used → Used
unfolding collect_ingress
collect_used_ips a current [] used = used
collect_used_ips a current (s ∷ rest) used =
    collect_used_ips a current rest
      (if counts a current s then collect_ingress a.pool (service_key s) s.ingress used else used)

abbrev pub is_used : Used → Addr → Bool
is_used used addr = not (is_none (get used addr))

-- The loop over the pool.
unfoldable pub first_free : List Addr → Used → Result AllocateError Allocation
unfolding get
first_free [] used = err no_free_ip
first_free (candidate ∷ rest) used =
    let later = first_free rest used in
    if is_used used candidate then later else ok (record { ip = candidate; reused = false })

abbrev pub reusable : List Addr → Used → Option Addr → Option Addr
reusable pool used none = none
reusable pool used (some addr) =
    if contains pool addr then (if is_used used addr then none else some addr) else none

abbrev pub reuse_or :
    Option Addr → Result AllocateError Allocation → Result AllocateError Allocation
reuse_or (some addr) other = ok (record { ip = addr; reused = true })
reuse_or none other = other

-- Allocate; `current` is not nil in any call of the program.
unfoldable pub allocate : Allocator → Service → List Service → Result AllocateError Allocation
unfolding first_free collect_used_ips assigned_from contains get
allocate a current services =
    let used = collect_used_ips a (service_key current) services [] in
    if length a.pool == 0
    then err pool_empty
    else reuse_or (reusable a.pool used (assigned_ip_from_status current)) (first_free a.pool used)
