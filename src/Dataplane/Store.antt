-- ===== src/Dataplane/Store.antt =====
-- internal/dataplane/store.go: the desired state, in a canonical form.
pub mod Normal
pub mod Laws
pub mod Cloning
pub mod Valid
use k8s_lb_controller.Prelude.{
  ℕ, ◌≡◌, Bool, true, false, List, [], ◌∷◌, map, Option, none, some, ◌==◌, not, string_eq,
  if◌then◌else◌, length,
}
use k8s_lb_controller.Prelude.Order.{Order, less, text_order}
use k8s_lb_controller.Prelude.Int.{int_eq, int_order}
use k8s_lb_controller.Prelude.Sort.{sort}
use k8s_lb_controller.Prelude.Assoc.{Map, put}
use k8s_lb_controller.Prelude.Assoc as Map
use k8s_lb_controller.Provider.{ServiceRef, ServicePort, BackendEndpoint, Service, ref, ref_order}

unfoldable pub port_less : ServicePort → ServicePort → Bool
port_less a b =
    if not (a.port == b.port)
    then less a.port b.port
    else if not (a.protocol == b.protocol)
    then less a.protocol b.protocol
    else if not (a.name == b.name)
    then less a.name b.name
    else less a.target_port b.target_port

unfoldable pub backend_less : BackendEndpoint → BackendEndpoint → Bool
backend_less a b = if a.address == b.address then less a.port b.port else less a.address b.address

unfoldable pub service_less : Service → Service → Bool
service_less a b =
    if a.namespace == b.namespace then less a.name b.name else less a.namespace b.namespace

unfoldable pub sort_backends : ServicePort → ServicePort
unfolding sort backend_less
sort_backends p = record p { backends = sort backend_less p.backends }

-- normalizeService
unfoldable pub normalize_service : Service → Service
unfolding sort port_less sort_backends
normalize_service s = record s { ports = map sort_backends (sort port_less s.ports) }

pub record Store : Type 0 where
  pub services : Map ServiceRef Service

-- NewStore
abbrev pub new_store : Store
new_store = record { services = [] }

unfoldable pub clone_entries :
    Map ServiceRef Service → Map ServiceRef Service → Map ServiceRef Service
unfolding normalize_service put
clone_entries [] cloned = cloned
clone_entries ((r, s) ∷ rest) cloned = clone_entries rest (put cloned r (normalize_service s))

-- Store.Clone
unfoldable pub clone : Store → Store
unfolding clone_entries
clone st = record { services = clone_entries st.services [] }

-- Store.Upsert
unfoldable pub upsert : Store → Service → Store
unfolding normalize_service put
upsert st s =
    let normalized = normalize_service s in
    record { services = put st.services (ref normalized) normalized }

abbrev pub is_some {ℓ} : {A : Type ℓ} → Option A → Bool
is_some none = false
is_some (some a) = true

-- Store.Delete, with its answer whether the entry was there.
unfoldable pub delete : Store → ServiceRef → Store × Bool
unfolding Map.get Map.remove
delete st r =
    if is_some (Map.get st.services r)
    then (record { services = Map.remove st.services r }, true)
    else (st, false)

-- Store.Get
unfoldable pub get : Store → ServiceRef → Option Service
unfolding Map.get
get st r = Map.get st.services r

unfoldable pub values : Map ServiceRef Service → List Service
unfolding normalize_service
values [] = []
values ((r, s) ∷ rest) = normalize_service s ∷ values rest

-- Store.List, which is sortedServiceListFromMap.
unfoldable pub list : Store → List Service
unfolding sort service_less values
list st = sort service_less (values st.services)

-- Store.Snapshot: a map value is a copy already.
abbrev pub snapshot : Store → Map ServiceRef Service
snapshot st = st.services

-- Store.Len
abbrev pub len : Store → ℕ
len st = length st.services
