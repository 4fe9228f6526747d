-- ===== src/Status.antt =====
-- internal/status/service_status.go: what a Service publishes in its status.
pub mod Updates
pub mod Published
use k8s_lb_controller.Prelude.{
  ℕ, String, Bool, true, false, not, List, [], ◌∷◌, Option, none, some, Result, ok, err, M, ◌==◌,
  nat_eq, string_eq, if◌then◌else◌, contains, length,
}
use k8s_lb_controller.Prelude.Texts.{trim_space}
use k8s_lb_controller.Netip.{Addr, parse_ipv4}
use k8s_lb_controller.Kube.{Service, Ingress}

-- DesiredLoadBalancerIngress
abbrev pub desired_ingress : String → List Ingress
desired_ingress assigned_ip = record { ip = assigned_ip; hostname = "" } ∷ []

-- firstIngressIP
unfoldable pub first_ingress_ip : List Ingress → Option String
unfolding trim_space
first_ingress_ip [] = none
first_ingress_ip (i ∷ rest) =
    let later = first_ingress_ip rest in
    if trim_space i.ip == "" then later else some (trim_space i.ip)

abbrev pub is_single : String → List Ingress → Bool
is_single desired_ip [] = false
is_single desired_ip (i ∷ []) = trim_space i.ip == desired_ip
is_single desired_ip (i ∷ j ∷ rest) = false

-- LoadBalancerIngressEqual
unfoldable pub ingress_equal : List Ingress → List Ingress → Bool
unfolding first_ingress_ip trim_space
ingress_equal current desired = elim (first_ingress_ip desired) [
  | none ↦ length current == 0
  | some desired_ip ↦ is_single desired_ip current
]

-- NeedsLoadBalancerIngressUpdate
unfoldable pub needs_update : Service → List Ingress → Bool
unfolding ingress_equal
needs_update s desired = not (ingress_equal s.ingress desired)

abbrev pub updated :
    {W E : Type 0} → Service → Result E (Unit {0}) → W → Result E (Bool × Service) × W
updated s (ok _) w = (ok (true, s), w)
updated s (err e) w = (err e, w)

-- UpdateServiceLoadBalancerStatus, where `write` is the API's update of the status; the caller's
-- copy of the Service follows it.
unfoldable pub update_status :
    {W E : Type 0} → (Service → M W E (Unit {0})) → Service → List Ingress → M W E (Bool × Service)
unfolding needs_update
update_status write s desired w =
    let next = record s { ingress = desired } in
    if needs_update s desired
    then (let (r, w') = write next w in updated next r w')
    else (ok (false, s), w)

-- The address of an entry, with the blanks around its text taken away.
unfoldable pub trimmed_ip : Ingress → Option Addr
unfolding trim_space parse_ipv4
trimmed_ip i = if trim_space i.ip == "" then none else parse_ipv4 (trim_space i.ip)

-- HasLoadBalancerIngressIPInPool
unfoldable pub has_ingress_in_pool : List Ingress → List Addr → Bool
unfolding trimmed_ip contains
has_ingress_in_pool [] pool = false
has_ingress_in_pool (i ∷ rest) pool =
    let later = has_ingress_in_pool rest pool in
    elim (trimmed_ip i) [ none ↦ later | some addr ↦ if contains pool addr then true else later ]
