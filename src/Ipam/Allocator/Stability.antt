-- ===== src/Ipam/Allocator/Stability.antt =====
-- Publishing an address and allocating again.
use k8s_lb_controller.Prelude.{
  ◌≡◌, refl, ◌<◌, ◌^◌, true, false, inl, inr, Bool-cases, ◌==◌, string_eq, List, [], ◌∷◌, none,
  some, ok,
}
use k8s_lb_controller.Netip.{Addr, show_ipv4, parse_ipv4}
use k8s_lb_controller.Netip.RoundTrip.{parse_ipv4-show_ipv4}
use k8s_lb_controller.Kube.{Service, Ingress}
use k8s_lb_controller.Ipam.Allocator.{Allocator, Allocation, allocate, assigned_from, ingress_ip}
use k8s_lb_controller.Ipam.Allocator.Choice.{allocate-IsFree, allocate-reuses}
use text.Mathlib.TextEquality.{eq_iff}

-- The one ingress entry that the controller publishes for an address.
abbrev pub published : Addr → List Ingress
published ip = record { ip = show_ipv4 ip; hostname = "" } ∷ []

parse_empty : parse_ipv4 "" ≡ none
unfolding parse_ipv4
parse_empty = refl

show-ne-empty : (ip : Addr) → ip < 2 ^ 32 → (show_ipv4 ip == "") ≡ false
show-ne-empty ip h = elim (Bool-cases (show_ipv4 ip == "")) [
  | inl e ↦ cc (parse_ipv4-show_ipv4 ip h, (eq_iff (show_ipv4 ip) "").0 e, parse_empty)
  | inr e ↦ e
]

ingress_ip-published :
    (ip : Addr) → ip < 2 ^ 32 → ingress_ip (record { ip = show_ipv4 ip; hostname = "" }) ≡ some ip
ingress_ip-published ip h = rw (show-ne-empty ip h) (parse_ipv4-show_ipv4 ip h)

pub assigned_from-published : (ip : Addr) → ip < 2 ^ 32 → assigned_from (published ip) ≡ some ip
unfolding assigned_from
assigned_from-published ip h = rw (ingress_ip-published ip h, assigned_from)

-- A Service whose allocated address, of 32 bits, has been published in its status keeps that
-- address in the next allocation, marked as reused, while the other Services stay as they are.
pub allocate_again :
    (a : Allocator) (current : Service) (services : List Service) (r : Allocation)
    → allocate a current services ≡ ok r
    → r.ip < 2 ^ 32
    → allocate a (record current { ingress = published r.ip }) services
      ≡ ok (record { ip = r.ip; reused = true })
allocate_again a current services r h bound =
    allocate-reuses a (record current { ingress = published r.ip }) services r.ip
      (assigned_from-published r.ip bound) (allocate-IsFree a current services r h)
