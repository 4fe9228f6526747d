-- ===== src/Controller/Tests.antt =====
-- A small cluster to run Reconcile on.
mod Runs
mod Calm
mod Sweeping
use k8s_lb_controller.Prelude.{
  string_eq, contains, keep, not, ◌++◌, ◌≡◌, refl, sym, ap, ◌∙◌, ◌<◌, ◌^◌, String, Bool, true,
  false, List, [], ◌∷◌, Option, none, some, Result, ok, err, M, ◌==◌, if◌then◌else◌, arith,
  Bool-cases, Option-cases, inl, inr, contains,
}
use k8s_lb_controller.Prelude.Order.{same}
use k8s_lb_controller.Prelude.Int.{show_int}
use k8s_lb_controller.Prelude.Assoc.{Map, put, get-put}
use k8s_lb_controller.Prelude.Assoc as Map
use k8s_lb_controller.Kube.{
  Helpers, str, int, NamespacedName, Service, EndpointSlice, Ingress, name_eq,
}
use k8s_lb_controller.Provider.{ServiceRef, ref_order}
use k8s_lb_controller.Provider as Provider
use k8s_lb_controller.Ipam.Allocator.{service_key}
use k8s_lb_controller.Controller.Reconcile.{Client, ServiceProvider}
use mathlib.Core.Path.{subst}
use k8s_lb_controller.Controller.Laws.{Listed, ClusterLaws, IsCurrent}
use k8s_lb_controller.Controller.Isolation.{IsolationLaws}

pub record Cluster : Type 0 where
  pub services : List Service
  pub slices : List EndpointSlice
  pub provided : Map ServiceRef Provider.Service

unfoldable pub find : NamespacedName → List Service → Option Service
find k [] = none
find k (s ∷ rest) = let later = find k rest in if service_key s == k then some s else later

-- The object of that name is replaced.
unfoldable pub replace : Service → List Service → List Service
replace s [] = []
replace s (t ∷ rest) = (if service_key t == service_key s then s else t) ∷ replace s rest

abbrev pub written : Service → Option Service → Cluster → Result String (Unit {0}) × Cluster
written s none w = (err "not found", w)
written s (some old) w =
    (ok tt, record w { services = replace (record old { ingress = s.ingress }) w.services })

-- AddFinalizer adds the text if it is not there; RemoveFinalizer removes every occurrence.
abbrev pub kube_helpers : Helpers
kube_helpers = record {
  contains_finalizer = λ s f. contains s.finalizers f;
  add_finalizer = λ s f.
      if contains s.finalizers f then s else record s { finalizers = s.finalizers ++ f ∷ [] };
  remove_finalizer = λ s f. record s { finalizers = keep (λ g. not (g == f)) s.finalizers };
  show_int_or_string = λ t. elim t [ str s ↦ s | int n ↦ show_int n ];
}

abbrev pub cluster_client : Client Cluster String
cluster_client = record {
  helpers = kube_helpers;
  get = λ k w. (ok (find k w.services), w);
  list_services = λ w. (ok w.services, w);
  list_endpoint_slices = λ ns name w. (ok w.slices, w);
  patch = λ old new w. (ok new, record w { services = replace new w.services });
  update_service_status = λ s w. written s (find (service_key s) w.services) w;
}

abbrev pub cluster_provider : ServiceProvider Cluster String
cluster_provider = record {
  ensure = λ p w. (ok true, record w { provided = put w.provided (Provider.ref p) p });
  delete = λ r w. (ok true, record w { provided = Map.remove w.provided r });
}

abbrev pub stored : Cluster → NamespacedName → Option Service
stored w k = find k w.services

abbrev pub provided_at : Cluster → ServiceRef → Option Provider.Service
provided_at w r = Map.get w.provided r

find-key :
    (k : NamespacedName) (l : List Service) (s : Service) → find k l ≡ some s → service_key s ≡ k
unfolding find
find-key k [] s h = cc
find-key k (t ∷ l) s h = elim (Bool-cases (service_key t == k)) [
  | inl e ↦ (ground (arith, (name_eq.equal_iff (service_key t) k).0 e))
  | inr e ↦ find-key k l s (ground arith)
]

find-Listed : (k : NamespacedName) (l : List Service) (s : Service) → find k l ≡ some s → Listed s l
unfolding find
find-Listed k [] s h = cc
find-Listed k (t ∷ l) s h = elim (Bool-cases (service_key t == k)) [
  | inl e ↦ inl (ground arith)
  | inr e ↦ inr (find-Listed k l s (ground arith))
]

find-replace :
    (k : NamespacedName) (l : List Service) (old s : Service)
    → find k l ≡ some old
    → service_key s ≡ k
    → find k (replace s l) ≡ some s
unfolding find replace
find-replace k [] old s h e = cc
find-replace k (t ∷ l) old s h e = elim (Bool-cases (service_key t == k)) [
  | inl same ↦
      rw
        (
          (name_eq.equal_iff (service_key t) (service_key s)).1
              ((name_eq.equal_iff (service_key t) k).0 same ∙ sym e),
          (name_eq.equal_iff (service_key s) k).1 e,
        )
        refl
  | inr other ↦
      rw (ap (λ j. service_key t == j) e ∙ other, other) (find-replace k l old s (ground arith) e)
]

find-replace_other :
    (j : NamespacedName) (l : List Service) (s : Service)
    → (service_key s == j) ≡ false
    → find j (replace s l) ≡ find j l
unfolding find replace
find-replace_other j [] s n = refl
find-replace_other j (t ∷ l) s n = elim (Bool-cases (service_key t == service_key s)) [
  | inl same ↦
      rw
        (same, n, ap (λ i. i == j) ((name_eq.equal_iff (service_key t) (service_key s)).0 same) ∙ n)
        (find-replace_other j l s n)
  | inr other ↦
      rw other
        (ap (λ later. if service_key t == j then some t else later) (find-replace_other j l s n))
]

written-stored :
    (s : Service) (o : Option Service) (w : Cluster) (u : Unit {0})
    → find (service_key s) w.services ≡ o
    → (written s o w).0 ≡ ok u
    → (t : Service) × (stored (written s o w).1 (service_key s) ≡ some t) × (t.ingress ≡ s.ingress)
written-stored s none w u f h = cc
written-stored s (some old) w u f h = (
  record old { ingress = s.ingress },
  find-replace (service_key s) w.services old (record old { ingress = s.ingress }) f
      (find-key (service_key s) w.services old f),
  refl,
)

written-other :
    (s : Service) (o : Option Service) (w : Cluster) (j : NamespacedName)
    → find (service_key s) w.services ≡ o
    → (service_key s == j) ≡ false
    → stored (written s o w).1 j ≡ stored w j
written-other s none w j f n = refl
written-other s (some old) w j f n =
    find-replace_other j w.services (record old { ingress = s.ingress })
      (ap (λ i. i == j) (find-key (service_key s) w.services old f) ∙ n)

written_provided :
    (s : Service) (o : Option Service) (w : Cluster) (r : ServiceRef)
    → provided_at (written s o w).1 r ≡ provided_at w r
written_provided s none w r = refl
written_provided s (some old) w r = refl

pub cluster-ClusterLaws : ClusterLaws cluster_client cluster_provider stored provided_at
cluster-ClusterLaws = record {
  get-keeps = λ k j w. refl;
  get-key = λ k w s h. find-key k w.services s (ground arith);
  stored-key = λ k w s h. find-key k w.services s h;
  list-keeps = λ j w. refl;
  slices-keeps = λ ns name j w. refl;
  status-stored = λ s w u h. written-stored s (find (service_key s) w.services) w u refl h;
  status-other = λ s w j n. written-other s (find (service_key s) w.services) w j refl n;
  status-ensured = λ s w r. written_provided s (find (service_key s) w.services) w r;
  ensure-keeps = λ p w j. refl;
  ensure-ensured = λ p w b h.
      get-put w.provided (Provider.ref p) (Provider.ref p) p
      ∙ rw (ref_order.cmp_refl (Provider.ref p)) refl;
}

-- This client has no cache.
pub cluster-IsCurrent : (w : Cluster) → IsCurrent cluster_client stored w
cluster-IsCurrent w = record {
  get-stored = λ k o h. ground arith;
  list-lists = λ l k s h e. subst (Listed s) (ground arith) (find-Listed k w.services s e);
}

pub cluster-IsolationLaws : IsolationLaws cluster_client cluster_provider stored
cluster-IsolationLaws = record {
  patch-other = λ s u w j n. find-replace_other j w.services u n;
  add-key = λ s f. added_key s f (contains s.finalizers f);
  remove-key = λ s f. refl;
  delete-keeps = λ r w j. refl;
}
  where
    added_key :
        (s : Service) (f : String) (b : Bool)
        → service_key (if b then s else record s { finalizers = s.finalizers ++ f ∷ [] })
          ≡ service_key s
    added_key s f true = refl
    added_key s f false = refl
