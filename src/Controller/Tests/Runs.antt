-- ===== src/Controller/Tests/Runs.antt =====
-- Runs of Reconcile and of what it calls on small inputs.
use k8s_lb_controller.Prelude.{
  ℕ, ◌≡◌, refl, ◌<◌, ◌^◌, String, true, List, [], ◌∷◌, Option, none, some, string_eq, nat_eq, arith,
  All, contains,
}
use k8s_lb_controller.Prelude.Int.{pos}
use k8s_lb_controller.Prelude.Assoc.{put, get}
use k8s_lb_controller.Prelude.Texts.{trim_space}
use k8s_lb_controller.Netip.{Addr, parse_ipv4, show_ipv4}
use k8s_lb_controller.Kube.{Service, ServicePort, EndpointSlice, Ingress, int, name_eq}
use k8s_lb_controller.Ipam.Allocator.{allocate, service_key}
use k8s_lb_controller.Backends.{discover_port}
use k8s_lb_controller.Backends.Found.{
  occurrences, one_if, has_key, candidates, discover_port-occurrences,
}
use k8s_lb_controller.Status.{update_status}
use k8s_lb_controller.Controller.Filter.{is_managed, service_finalizer}
use k8s_lb_controller.Controller.Reconcile.{
  Config, reconcile, reconcile_service, reconcile_managed, reconcile_deleting,
  ensure_service_finalizer, remove_service_finalizer, refreshed, assign, after_allocate, publish,
  finished,
}
use k8s_lb_controller.Controller.Sharing.{Assigned, reconcile_assigns}
use k8s_lb_controller.Controller.Deleting.{Released, reconcile_releases}
use k8s_lb_controller.Controller.Tests.{
  Cluster, cluster_client, cluster_provider, stored, provided_at, cluster-ClusterLaws,
  cluster-IsCurrent, find, replace,
}

abbrev pub named : String → Option ℕ → List String → List Ingress → Service
named name deletion finalizers ingress = record {
  namespace = "default";
  name = name;
  service_type = "LoadBalancer";
  load_balancer_class = some "lb";
  ports =
      record { name = "http"; protocol = "TCP"; port = pos 80; target_port = int (pos 8080) } ∷ [];
  finalizers = finalizers;
  deletion = deletion;
  generation = 1;
  ingress = ingress;
}

abbrev pub web : Service
web = named "web" none [] []

abbrev pub api : Service
api = named "api" none (service_finalizer ∷ []) (record { ip = "0.0.0.7"; hostname = "" } ∷ [])

abbrev gone : Service
gone = named "web" (some 3) (service_finalizer ∷ []) []

abbrev pub slice : EndpointSlice
slice = record {
  namespace = "default";
  service_label = "web";
  resource_version = "1";
  ports = record { name = some "http"; protocol = none; port = some (pos 8080) } ∷ [];
  endpoints =
      record { addresses = "10.0.0.1" ∷ []; ready = none }
      ∷ record { addresses = "10.0.0.1" ∷ []; ready = some true }
      ∷ [];
}

abbrev pub settings : Config
settings = record { load_balancer_class = "lb"; ip_pool = 7 ∷ 8 ∷ []; requeue_after = 30 }

abbrev pub cluster : Cluster
cluster = record { services = web ∷ api ∷ []; slices = slice ∷ []; provided = [] }

abbrev closing : Cluster
closing = record { services = gone ∷ []; slices = []; provided = [] }

pub pool_bounds : All (λ (ip : Addr). ip < 2 ^ 32) settings.ip_pool
pool_bounds = (omega arith, (omega arith, tt))

reconcile_assigns_example :
    Assigned settings cluster_client cluster_provider stored provided_at cluster-ClusterLaws
      pool_bounds
      ((service_key api, api) ∷ [])
      (reconcile settings cluster_client cluster_provider (service_key web) cluster).1
      (service_key web)
unfolding reconcile reconcile_service reconcile_managed ensure_service_finalizer refreshed assign
    after_allocate publish update_status allocate find replace contains is_managed put get
    parse_ipv4 show_ipv4 trim_space
reconcile_assigns_example =
    reconcile_assigns settings cluster_client cluster_provider stored provided_at
      cluster-ClusterLaws pool_bounds ((service_key api, api) ∷ []) (service_key web) web cluster
      (cluster-IsCurrent cluster, (cluster-IsCurrent _, (cluster-IsCurrent _, tt))) refl refl refl
      ((refl, refl, refl, refl), tt) refl (refl, tt)

reconcile_releases_example :
    Released settings cluster_client cluster_provider gone closing
      (reconcile settings cluster_client cluster_provider (service_key gone) closing).1
unfolding reconcile reconcile_service reconcile_deleting remove_service_finalizer find contains
    is_managed
reconcile_releases_example =
    reconcile_releases settings cluster_client cluster_provider (service_key gone) gone closing 3
      finished refl refl refl refl

abbrev http_port : ServicePort
http_port = record { name = "http"; protocol = "TCP"; port = pos 80; target_port = int (pos 8080) }

discover_port-occurrences_example :
    occurrences "10.0.0.1:8080" (discover_port web (slice ∷ []) http_port).backends
    ≡ one_if (has_key "10.0.0.1:8080" (candidates web http_port (slice ∷ [])))
discover_port-occurrences_example =
    discover_port-occurrences web (slice ∷ []) http_port "10.0.0.1:8080"
