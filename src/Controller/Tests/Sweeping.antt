-- ===== src/Controller/Tests/Sweeping.antt =====
-- Runs of Reconcile for two Services of one cluster.
use k8s_lb_controller.Prelude.{◌≡◌, refl, String, List, [], ◌∷◌, none, ok, map, contains, string_eq}
use k8s_lb_controller.Prelude.Assoc.{put, get}
use k8s_lb_controller.Prelude.Texts.{trim_space}
use k8s_lb_controller.Netip.{parse_ipv4, show_ipv4}
use k8s_lb_controller.Kube.{NamespacedName, Service, name_eq}
use k8s_lb_controller.Ipam.Allocator.{allocate, service_key}
use k8s_lb_controller.Status.{update_status}
use k8s_lb_controller.Controller.Filter.{is_managed}
use k8s_lb_controller.Controller.Reconcile.{
  Client, reconcile, reconcile_service, reconcile_managed, ensure_service_finalizer, refreshed,
  assign, after_allocate, publish,
}
use k8s_lb_controller.Controller.Sweep.{sweep, Apart, sweep-Apart}
use k8s_lb_controller.Controller.Isolation.Runs.{reconcile-other}
use k8s_lb_controller.Controller.Tests.{
  Cluster, cluster_client, cluster_provider, stored, provided_at, cluster-ClusterLaws,
  cluster-IsCurrent, cluster-IsolationLaws, find, replace,
}
use k8s_lb_controller.Controller.Tests.Runs.{named, web, api, settings, cluster, pool_bounds}

abbrev both : List NamespacedName
both = service_key web ∷ service_key api ∷ []

reconcile-other_example :
    stored
      (reconcile settings cluster_client cluster_provider (service_key web) cluster).1
      (service_key api)
    ≡ stored cluster (service_key api)
reconcile-other_example =
    reconcile-other settings cluster_client cluster_provider stored provided_at cluster-ClusterLaws
      cluster-IsolationLaws (service_key web) (service_key api) refl cluster

sweep-Apart_example :
    Apart settings cluster_client cluster_provider stored provided_at cluster-ClusterLaws
      cluster-IsolationLaws pool_bounds both
      (sweep settings cluster_client cluster_provider stored provided_at cluster-ClusterLaws
        cluster-IsolationLaws pool_bounds both cluster)
unfolding reconcile reconcile_service reconcile_managed ensure_service_finalizer refreshed assign
    after_allocate publish update_status allocate find replace contains is_managed put get
    parse_ipv4 show_ipv4 trim_space
sweep-Apart_example =
    sweep-Apart settings cluster_client cluster_provider stored provided_at cluster-ClusterLaws
      cluster-IsolationLaws pool_bounds both cluster ((refl, tt), (tt, tt))
      ((web, refl, refl, refl), ((api, refl, refl, refl), tt))
      (
        (cluster-IsCurrent _, (cluster-IsCurrent _, (cluster-IsCurrent _, tt))),
        ((cluster-IsCurrent _, (cluster-IsCurrent _, (cluster-IsCurrent _, tt))), tt),
      )
      (refl, (refl, tt)) ((_, refl, refl, refl), ((_, refl, refl, refl), tt))

abbrev newer : Service
newer = named "newer" none [] []

-- A client whose List still answers with what the cluster held before the first run.
abbrev lagging : Client Cluster String
lagging = record cluster_client { list_services = λ w. (ok (web ∷ newer ∷ []), w) }

abbrev two_new : Cluster
two_new = record { services = web ∷ newer ∷ []; slices = []; provided = [] }

abbrev after_both : Cluster
after_both =
    (reconcile settings lagging cluster_provider (service_key newer)
      (reconcile settings lagging cluster_provider (service_key web) two_new).1).1

-- Over a cache that lags, two Services are given one address.
one_address_twice :
    map (λ (s : Service). s.ingress) after_both.services
    ≡ (record { ip = "0.0.0.7"; hostname = "" } ∷ [])
      ∷ (record { ip = "0.0.0.7"; hostname = "" } ∷ [])
      ∷ []
unfolding reconcile reconcile_service reconcile_managed ensure_service_finalizer refreshed assign
    after_allocate publish update_status allocate find replace contains is_managed put get
    parse_ipv4 show_ipv4 trim_space
one_address_twice = refl
