-- ===== src/Dataplane/Render/Validate/Accepts.antt =====
-- The Services that pass the validation, described by conditions on their fields.
use k8s_lb_controller.Prelude.{◌≡◌, ◌↔◌, ◌≢◌, true, List, [], ◌∷◌, ok, All, arith, string_eq}
use k8s_lb_controller.Prelude.Int.{is_positive}
use k8s_lb_controller.Prelude.Texts.{trim_space}
use k8s_lb_controller.Provider.{Service, ServicePort, BackendEndpoint}
use k8s_lb_controller.Dataplane.Render.Validate.{
  is_ipv4, is_tcp, validate_backends, validate_ports, validate_service,
}
use text.Mathlib.TextEquality.{eq_iff}

abbrev pub IsValidBackend : BackendEndpoint → Type 0
IsValidBackend b = (is_ipv4 b.address ≡ true) × (is_positive b.port ≡ true)

abbrev pub IsValidPort : ServicePort → Type 0
IsValidPort p =
    (is_tcp p.protocol ≡ true) × (is_positive p.port ≡ true) × All IsValidBackend p.backends

abbrev pub IsValidService : Service → Type 0
IsValidService s =
    (trim_space s.namespace ≢ "")
    × (trim_space s.name ≢ "")
    × (is_ipv4 s.external_ip ≡ true)
    × All IsValidPort s.ports

validate_backends_iff :
    (l : List BackendEndpoint) → (validate_backends l ≡ ok tt) ↔ All IsValidBackend l
unfolding validate_backends
validate_backends_iff [] = ground arith
validate_backends_iff (b ∷ l) = ground (arith, validate_backends_iff l)

validate_ports_iff : (l : List ServicePort) → (validate_ports l ≡ ok tt) ↔ All IsValidPort l
unfolding validate_ports
validate_ports_iff [] = ground arith
validate_ports_iff (p ∷ l) = ground (arith, validate_ports_iff l, validate_backends_iff p.backends)

-- ValidateService accepts a Service exactly when its namespace and its name are not blank, its
-- external address is IPv4, and every port has protocol TCP or none, a positive number, and
-- backends with an IPv4 address and a positive port.
pub validate_service_iff : (s : Service) → (validate_service s ≡ ok tt) ↔ IsValidService s
unfolding validate_service
validate_service_iff s = ground (
  arith,
  validate_ports_iff s.ports,
  eq_iff (trim_space s.namespace) "",
  eq_iff (trim_space s.name) "",
)
