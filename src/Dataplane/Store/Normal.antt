-- ===== src/Dataplane/Store/Normal.antt =====
-- The canonical form of a Service: the orders of the source are orders by keys.
use k8s_lb_controller.Prelude.{String, ◌≡◌, refl, ap, ◌∙◌, List, [], ◌∷◌, map, arith}
use k8s_lb_controller.Prelude.Order.{lex_order, text_order}
use k8s_lb_controller.Prelude.Int.{ℤ, int_order}
use k8s_lb_controller.Prelude.Sort.{
  sort, before, AtLeast, IsSorted, sort-IsSorted, sort_of_IsSorted,
}
use k8s_lb_controller.Provider.{ServicePort, BackendEndpoint, Service, ref, ref_order}
use k8s_lb_controller.Dataplane.Store.{
  port_less, backend_less, service_less, sort_backends, normalize_service,
}
use mathlib.Core.Path.{fun_ext, ap₂}

abbrev pub port_key : ServicePort → ℤ × (String × (String × String))
port_key p = (p.port, (p.protocol, (p.name, p.target_port)))

abbrev pub backend_key : BackendEndpoint → String × ℤ
backend_key b = (b.address, b.port)

port_less-before : (a b : ServicePort) → port_less a b ≡ before port_key a b
unfolding port_less
port_less-before a b = ground arith

pub backend_less-before : backend_less ≡ before backend_key
unfolding backend_less
backend_less-before = fun_ext λ a. fun_ext λ b. ground arith

pub service_less-before : service_less ≡ before ref
unfolding service_less
service_less-before = fun_ext λ a. fun_ext λ b. ground arith

port_less-eq_before : port_less ≡ before port_key
port_less-eq_before = fun_ext λ a. fun_ext λ b. port_less-before a b

sort_backends_idem : (p : ServicePort) → sort_backends (sort_backends p) ≡ sort_backends p
unfolding sort_backends
sort_backends_idem p = rw backend_less-before (
    ap (λ (l : List BackendEndpoint). record p { backends = l })
      (sort_of_IsSorted backend_key (sort (before backend_key) p.backends)
        (sort-IsSorted backend_key p.backends)))

map-sort_backends_idem :
    (l : List ServicePort) → map sort_backends (map sort_backends l) ≡ map sort_backends l
map-sort_backends_idem [] = refl
map-sort_backends_idem (p ∷ l) = ap₂ ◌∷◌ (sort_backends_idem p) (map-sort_backends_idem l)

AtLeast-map :
    (p : ServicePort) (l : List ServicePort)
    → AtLeast port_key p l
    → AtLeast port_key (sort_backends p) (map sort_backends l)
unfolding sort_backends
AtLeast-map p [] a = tt
AtLeast-map p (q ∷ l) a = (a.0, AtLeast-map p l a.1)

IsSorted-map :
    (l : List ServicePort) → IsSorted port_key l → IsSorted port_key (map sort_backends l)
IsSorted-map [] s = tt
IsSorted-map (p ∷ l) s = (AtLeast-map p l s.0, IsSorted-map l s.1)

sort-map_idem :
    (l : List ServicePort)
    → sort port_less (map sort_backends (sort port_less l)) ≡ map sort_backends (sort port_less l)
sort-map_idem l = rw port_less-eq_before (
    sort_of_IsSorted port_key (map sort_backends (sort (before port_key) l))
      (IsSorted-map (sort (before port_key) l) (sort-IsSorted port_key l)))

-- Putting a Service into canonical form twice is putting it there once.
pub normalize_service_idem :
    (s : Service) → normalize_service (normalize_service s) ≡ normalize_service s
unfolding normalize_service
normalize_service_idem s =
    ap (λ (l : List ServicePort). record s { ports = l })
      (ap (map sort_backends) (sort-map_idem s.ports)
        ∙ map-sort_backends_idem (sort port_less s.ports))

pub ref-normalize_service : (s : Service) → ref (normalize_service s) ≡ ref s
unfolding normalize_service
ref-normalize_service s = refl
