-- ===== src/Controller/Filter.antt =====
-- internal/controller/service_filter.go and finalizer.go: which Services and events concern the
-- controller.
use k8s_lb_controller.Prelude.{
  String, ◌≡◌, ◌↔◌, Bool, true, false, not, none, some, ◌==◌, nat_eq, string_eq, if◌then◌else◌,
  arith,
}
use k8s_lb_controller.Kube.{Helpers, Service, EndpointSlice}

abbrev pub type_load_balancer : String
type_load_balancer = "LoadBalancer"

-- isManagedLoadBalancerService
unfoldable pub is_managed : Service → String → Bool
is_managed s expected =
    if not (s.service_type == type_load_balancer)
    then false
    else elim s.load_balancer_class [ none ↦ false | some class ↦ class == expected ]

-- serviceLoadBalancerClass
unfoldable pub class_of : Service → String
class_of s = elim s.load_balancer_class [ none ↦ "" | some class ↦ class ]

abbrev pub service_finalizer : String
service_finalizer = "iedge.local/service-lb-finalizer"

-- hasServiceFinalizer
abbrev pub has_service_finalizer : Helpers → Service → Bool
has_service_finalizer h s = h.contains_finalizer s service_finalizer

-- deletionTimestampChanged, of two objects that are there.
unfoldable pub deletion_timestamp_changed : Service → Service → Bool
deletion_timestamp_changed old new = elim old.deletion [
  | none ↦ elim new.deletion [ none ↦ false | some t ↦ true ]
  | some t ↦ elim new.deletion [ none ↦ true | some u ↦ not (t == u) ]
]

-- The four kinds of events of a watch.
pub data Event (A : Type 0) : Type 0 where
  created : A → Event A
  updated : A → A → Event A
  deleted : A → Event A
  generic : A → Event A

-- serviceReconcilePredicate
unfoldable pub service_predicate : Event Service → Bool
unfolding deletion_timestamp_changed
service_predicate (created s) = true
service_predicate (updated old new) =
    if not (old.generation == new.generation) then true else deletion_timestamp_changed old new
service_predicate (deleted s) = false
service_predicate (generic s) = false

-- endpointSliceReconcilePredicate
unfoldable pub endpoint_slice_predicate : Event EndpointSlice → Bool
endpoint_slice_predicate (created s) = true
endpoint_slice_predicate (updated old new) = not (old.resource_version == new.resource_version)
endpoint_slice_predicate (deleted s) = true
endpoint_slice_predicate (generic s) = false

-- An update of a Service is passed over exactly when the generation and the deletion timestamp
-- both stay as they are.
pub service_predicate_skips :
    (old new : Service)
    → (service_predicate (updated old new) ≡ false)
      ↔ ((old.generation ≡ new.generation) × (old.deletion ≡ new.deletion))
unfolding service_predicate deletion_timestamp_changed
service_predicate_skips old new = ground arith
