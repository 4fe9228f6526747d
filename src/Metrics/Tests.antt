-- ===== src/Metrics/Tests.antt =====
-- A wrapped provider over a few calls.
use k8s_lb_controller.Prelude.{
  ℕ, suc, ◌≡◌, refl, String, true, false, List, [], ◌∷◌, ok, err, contains, if◌then◌else◌, ◌==◌,
  string_eq,
}
use k8s_lb_controller.Provider.{ServiceRef, ref_eq}
use k8s_lb_controller.Provider as Provider
use k8s_lb_controller.Controller.Reconcile.{ServiceProvider}
use k8s_lb_controller.Metrics.{Metrics, Instrumented}
use k8s_lb_controller.Metrics.Transparent.{
  Call, ensures, deletes, Refs, Tracks, inner_run, outer_run, held, outer_run-lem,
}

-- A provider that counts its calls and refuses the Service "bad".
abbrev counter : ServiceProvider ℕ String
counter = record {
  ensure = λ s n. if s.name == "bad" then (err "bad", n) else (ok true, suc n);
  delete = λ r n. (ok true, suc n);
}

abbrev named : String → Provider.Service
named name = record {
  namespace = "default";
  name = name;
  load_balancer_class = "lb";
  external_ip = "0.0.0.5";
  ports = [];
}

abbrev calls : List Call
calls =
    ensures (named "web")
    ∷ ensures (named "bad")
    ∷ ensures (named "api")
    ∷ deletes (Provider.ref (named "web"))
    ∷ []

abbrev no_metrics : Metrics
no_metrics = record {
  service_reconcile_total = 0;
  service_reconcile_errors_total = 0;
  service_reconcile_durations = [];
  ip_allocations_total = λ r. 0;
  provider_operations_total = λ o r. 0;
  provider_managed_services = 0;
}

abbrev fresh : Instrumented ℕ
fresh = record { next = 0; refs = []; metrics = no_metrics }

abbrev none_held : Refs
none_held r = false

fresh-Tracks : Tracks fresh none_held
unfolding contains
fresh-Tracks = record { members = λ r. refl; distinct = tt; gauge = refl }

outer_run-lem_example :
    ((outer_run counter calls fresh).0 ≡ (inner_run counter calls 0).0)
    × ((outer_run counter calls fresh).1.next ≡ (inner_run counter calls 0).1)
    × Tracks (outer_run counter calls fresh).1 (held counter calls 0 none_held)
outer_run-lem_example = outer_run-lem counter calls fresh none_held fresh-Tracks
