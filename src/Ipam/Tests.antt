-- ===== src/Ipam/Tests.antt =====
-- Runs of the address pool and its allocator on small inputs.
use k8s_lb_controller.Prelude.{
  ◌≡◌, refl, ◌↔◌, ◌≢◌, ◌<◌, ◌^◌, arith, true, false, List, [], ◌∷◌, map, none, some, ok, err,
  contains, nat_eq,
}
use k8s_lb_controller.Prelude.Assoc.{get, put}
use k8s_lb_controller.Prelude.Texts.{split}
use k8s_lb_controller.Netip.{Addr, parse_ipv4, show_ipv4}
use k8s_lb_controller.Kube.{Service, Ingress}
use k8s_lb_controller.Ipam.Pool.{parse_pool}
use k8s_lb_controller.Ipam.Pool.Parsing.{items, NoRepeats}
use k8s_lb_controller.Ipam.Pool.Accepting.{parse_pool_iff}
use k8s_lb_controller.Ipam.Pool.RoundTrip.{join_commas, parse_pool-join_commas}
use k8s_lb_controller.Ipam.Allocator.{Allocator, no_free_ip, allocate}
use k8s_lb_controller.Ipam.Allocator.Choice.{IsFree, AllTaken, allocate-IsFree, allocate-no_free_ip}
use k8s_lb_controller.Ipam.Allocator.Stability.{published, allocate_again}

abbrev nine_seven : List Addr
nine_seven = 9 ∷ 7 ∷ []

parse_pool_iff_example : (parse_pool " 0.0.0.9,,0.0.0.7" ≡ ok nine_seven) ↔ (
    (map parse_ipv4 (items (split b',' " 0.0.0.9,,0.0.0.7")) ≡ map some nine_seven)
    × NoRepeats nine_seven
    × (nine_seven ≢ []))
parse_pool_iff_example = parse_pool_iff " 0.0.0.9,,0.0.0.7" nine_seven

nine_seven_distinct : NoRepeats nine_seven
unfolding contains
nine_seven_distinct = (refl, (refl, tt))

parse_pool-join_commas_example : parse_pool (join_commas (map show_ipv4 nine_seven)) ≡ ok nine_seven
parse_pool-join_commas_example =
    parse_pool-join_commas nine_seven (omega arith, (omega arith, tt)) nine_seven_distinct (λ e. cc)

abbrev service_of : List Ingress → Service
service_of l = record {
  namespace = "default";
  name = "web";
  service_type = "LoadBalancer";
  load_balancer_class = some "lb";
  ports = [];
  finalizers = [];
  deletion = none;
  generation = 1;
  ingress = l;
}

abbrev fresh : Service
fresh = service_of []

abbrev other : Service
other = record (service_of (published 7)) { name = "other" }

abbrev two : Allocator
two = record { pool = 7 ∷ 8 ∷ []; matches = none }

abbrev single : Allocator
single = record { pool = 7 ∷ []; matches = none }

allocate-IsFree_example : IsFree two fresh (fresh ∷ other ∷ []) 8
unfolding allocate parse_ipv4 show_ipv4 contains get put
allocate-IsFree_example =
    allocate-IsFree two fresh (fresh ∷ other ∷ []) (record { ip = 8; reused = false }) refl

allocate-no_free_ip_example :
    (allocate single fresh (other ∷ []) ≡ err no_free_ip)
    ↔ (AllTaken single fresh (other ∷ []) single.pool × (single.pool ≢ []))
allocate-no_free_ip_example = allocate-no_free_ip single fresh (other ∷ [])

eight_small : 8 < 2 ^ 32
eight_small = omega arith

allocate_again_example :
    allocate two (service_of (published 8)) (other ∷ []) ≡ ok (record { ip = 8; reused = true })
unfolding allocate parse_ipv4 show_ipv4 contains get put
allocate_again_example =
    allocate_again two fresh (other ∷ []) (record { ip = 8; reused = false }) refl eight_small
