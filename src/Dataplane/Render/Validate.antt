-- ===== src/Dataplane/Render/Validate.antt =====
-- ValidateService: what may be rendered.
pub mod Accepts
use k8s_lb_controller.Prelude.{
  String, ◌≡◌, refl, Bool, true, false, not, ◌&&◌, List, [], ◌∷◌, Option, none, some, Result, ok,
  err, ◌==◌, string_eq, if◌then◌else◌,
}
use k8s_lb_controller.Prelude.Int.{ℤ, is_positive}
use k8s_lb_controller.Prelude.Texts.{trim_space, to_lower}
use k8s_lb_controller.Netip.{parse_ipv4}
use k8s_lb_controller.Provider.{Service, ServicePort, BackendEndpoint}

pub data InvalidService : Type 0 where
  namespace_empty : InvalidService
  name_empty : InvalidService
  external_ip_invalid : String → InvalidService
  protocol_unsupported : ℤ → String → InvalidService
  port_not_positive : InvalidService
  backend_address_invalid : String → InvalidService
  backend_port_not_positive : InvalidService

abbrev pub Check : Type 0
Check = Result InvalidService (Unit {0})

abbrev pub and_then : Check → Check → Check
and_then (ok _) next = next
and_then (err e) next = err e

abbrev pub require : Bool → InvalidService → Check
require true e = ok tt
require false e = err e

abbrev pub is_ipv4 : String → Bool
is_ipv4 s = elim (parse_ipv4 s) [ none ↦ false | some addr ↦ true ]

unfoldable pub validate_backends : List BackendEndpoint → Check
validate_backends [] = ok tt
validate_backends (b ∷ rest) =
    and_then (require (is_ipv4 b.address) (backend_address_invalid b.address))
      (and_then (require (is_positive b.port) backend_port_not_positive) (validate_backends rest))

-- The protocol is TCP in any case, or blank.
unfoldable pub is_tcp : String → Bool
unfolding trim_space to_lower
is_tcp protocol =
    let trimmed = trim_space protocol in if to_lower trimmed == "tcp" then true else trimmed == ""

unfoldable pub validate_ports : List ServicePort → Check
validate_ports [] = ok tt
validate_ports (p ∷ rest) =
    and_then (require (is_tcp p.protocol) (protocol_unsupported p.port p.protocol)) (
      and_then (require (is_positive p.port) port_not_positive)
        (and_then (validate_backends p.backends) (validate_ports rest)))

-- ValidateService
unfoldable pub validate_service : Service → Check
unfolding validate_ports validate_backends is_tcp
validate_service s = and_then (require (not (trim_space s.namespace == "")) namespace_empty) (
    and_then (require (not (trim_space s.name == "")) name_empty) (
      and_then (require (is_ipv4 s.external_ip) (external_ip_invalid s.external_ip))
        (validate_ports s.ports)))
