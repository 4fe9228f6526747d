-- ===== src/Controller/Tests/Calm.antt =====
-- A cluster on which nothing fails.
use k8s_lb_controller.Prelude.{
  ◌≡◌, refl, ap, String, Bool, true, false, List, [], ◌∷◌, Option, none, some, ok, arith,
}
use k8s_lb_controller.Kube.{NamespacedName, Service, name_eq}
use k8s_lb_controller.Ipam.Allocator.{service_key}
use k8s_lb_controller.Controller.Reconcile.{Client, Verdict, reconcile}
use k8s_lb_controller.Controller.Returning.{Answering}
use k8s_lb_controller.Controller.Returning.Managed.{reconcile_returns}
use k8s_lb_controller.Controller.Tests.{
  Cluster, cluster_client, cluster_provider, find, replace, written,
}
use k8s_lb_controller.Controller.Tests.Runs.{settings, cluster, web}

abbrev is_there : Option Service → Bool
is_there none = false
is_there (some s) = true

abbrev has_service : Cluster → NamespacedName → Bool
has_service w k = is_there (find k w.services)

-- A status update of a Service that is not there does nothing, without an error.
abbrev calm_client : Client Cluster String
calm_client = record (cluster_client) {
  update_service_status = λ s w. (ok tt, (written s (find (service_key s) w.services) w).1);
}

replace-there :
    (k : NamespacedName) (s : Service) (l : List Service)
    → is_there (find k l) ≡ true
    → is_there (find k (replace s l)) ≡ true
unfolding find replace
replace-there k s [] h = h
replace-there k s (t ∷ l) h = ground (
  arith,
  replace-there k s l,
  name_eq.equal_iff (service_key t) k,
  name_eq.equal_iff (service_key s) k,
  name_eq.equal_iff (service_key t) (service_key s),
)

found_some : (o : Option Service) → is_there o ≡ true → (s : Service) × (o ≡ some s)
found_some none h = absurd (cc)
found_some (some s) h = (s, refl)

written-there :
    (k : NamespacedName) (s : Service) (o : Option Service) (w : Cluster)
    → has_service w k ≡ true
    → has_service (written s o w).1 k ≡ true
written-there k s none w h = h
written-there k s (some old) w h = replace-there k (record old { ingress = s.ingress }) w.services h

calm-Answering : Answering calm_client cluster_provider has_service
calm-Answering = record {
  gets = λ k w. (find k w.services, refl);
  get-there = λ k w h. let (s, e) = found_some (find k w.services) h in (s, ap ok e);
  get-found = λ k w s h. ground arith;
  lists = λ w. (w.services, refl);
  slices = λ ns name w. (w.slices, refl);
  patches = λ old new w. (new, refl);
  patch-there = λ k s w h. replace-there k _ w.services h;
  statuses = λ s w. (tt, refl);
  status-there = λ k s w h. written-there k s (find (service_key s) w.services) w h;
  ensures = λ s w. (true, refl);
  deletes = λ r w. (true, refl);
  delete-there = λ k r w h. h;
}

reconcile_returns_example :
    (v : Verdict) × ((reconcile settings calm_client cluster_provider (service_key web) cluster).0
      ≡ ok v)
reconcile_returns_example =
    reconcile_returns settings calm_client cluster_provider has_service calm-Answering
      (service_key web) cluster (λ e. cc)
