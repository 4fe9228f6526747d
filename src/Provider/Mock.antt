-- ===== src/Provider/Mock.antt =====
-- internal/provider/mock_provider.go: the provider that keeps its state in memory.
use k8s_lb_controller.Prelude.{
  ◌≡◌, refl, Bool, true, false, List, [], map, Option, none, some, if◌then◌else◌, arith,
  Option-cases, Bool-cases, inl, inr,
}
use k8s_lb_controller.Prelude.Order.{same}
use k8s_lb_controller.Prelude.Sort.{sort}
use k8s_lb_controller.Prelude.Assoc.{Map, IsMap, get, put, remove, get-put, get-remove}
use k8s_lb_controller.Provider.{ServiceRef, Service, ref, ref_order, service_equal}
use k8s_lb_controller.Provider.Equality.{service_equal_iff}
use k8s_lb_controller.Dataplane.Store.{service_less, is_some}

pub record MockProvider : Type 0 where
  pub services : Map ServiceRef Service

-- NewMockProvider
abbrev pub new_mock_provider : MockProvider
new_mock_provider = record { services = [] }

abbrev is_current : Option Service → Service → Bool
is_current none s = false
is_current (some current) s = service_equal current s

-- MockProvider.Ensure, which never fails.
unfoldable pub ensure : Service → MockProvider → Bool × MockProvider
unfolding get put
ensure s p =
    if is_current (get p.services (ref s)) s
    then (false, p)
    else (true, record { services = put p.services (ref s) s })

-- MockProvider.Delete
unfoldable pub delete : ServiceRef → MockProvider → Bool × MockProvider
unfolding get remove
delete r p =
    if is_some (get p.services r)
    then (true, record { services = remove p.services r })
    else (false, p)

-- MockProvider.Get
abbrev pub get_service : MockProvider → ServiceRef → Option Service
get_service p r = get p.services r

abbrev entry_service : ServiceRef × Service → Service
entry_service e = e.1

-- MockProvider.List
unfoldable pub list : MockProvider → List Service
unfolding sort service_less
list p = sort service_less (map entry_service p.services)

-- MockProvider.Snapshot
abbrev pub snapshot : MockProvider → Map ServiceRef Service
snapshot p = p.services

-- After an Ensure, whether or not it reports a change, the Service is under its reference and every
-- other reference has what it had.
pub get-ensure :
    (s : Service) (p : MockProvider) (r : ServiceRef)
    → get_service (ensure s p).1 r ≡ (if same (ref s) r then some s else get_service p r)
unfolding ensure
get-ensure s p r = elim (Option-cases (get p.services (ref s))) [
  | inl e ↦ rw e (get-put p.services (ref s) r s)
  | inr (current, e) ↦ elim (Bool-cases (service_equal current s)) [
    | inr n ↦ rw (e, n) (get-put p.services (ref s) r s)
    | inl n ↦ elim (Bool-cases (same (ref s) r)) [
      | inr other ↦ rw (e, n, other) refl
      | inl there ↦
          rw (e, n, there)
            (ground (arith, e, (service_equal_iff current s).0 n, ref_order.cmp-eq (ref s) r))
    ]
  ]
]

-- After a Delete nothing is under the reference, and every other reference has what it had.
pub get-delete :
    (q : ServiceRef) (p : MockProvider) (r : ServiceRef)
    → IsMap p.services
    → get_service (delete q p).1 r ≡ (if same q r then none else get_service p r)
unfolding delete
get-delete q p r m = ground (arith, get-remove p.services q r m, ref_order.cmp-eq q r)
