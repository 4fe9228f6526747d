-- ===== src/Dataplane/Render.antt =====
-- internal/dataplane/render.go: the HAProxy configuration of the desired state.
pub mod Validate
pub mod Identifier
pub mod Outcome
use k8s_lb_controller.Prelude.{
  ℕ, suc, ◌+◌, String, Bool, List, [], ◌∷◌, map, Result, ok, err, ◌≡◌, refl,
}
use k8s_lb_controller.Prelude.Int.{show_int}
use k8s_lb_controller.Provider.{ServiceRef, Service, ServicePort, BackendEndpoint, ref}
use k8s_lb_controller.Dataplane.Store.{Store, new_store, normalize_service, upsert, list}
use Validate.{InvalidService, validate_service}
use Identifier.{frontend_identifier, backend_identifier, server_identifier}
use Prim.Native.String.{◌++◌}

abbrev pub config_header : String
config_header =
    "# Managed by k8s-lb-controller. DO NOT EDIT.\nglobal\n    maxconn 2048\n\ndefaults\n    mode tcp\n    timeout connect 5s\n    timeout client 30s\n    timeout server 30s\n"

abbrev pub bootstrap_frontend_section : String
bootstrap_frontend_section =
    "\n# Bootstrap listener keeps HAProxy runnable before the first managed Service exists.\nfrontend fe_bootstrap_loopback\n    bind 127.0.0.2:65535\n    mode http\n    http-request return status 204\n"

pub record RenderError : Type 0 where
  pub service : ServiceRef
  pub reason : InvalidService

-- The lines of the servers from an index on.
unfoldable pub render_backends : ℕ → List BackendEndpoint → String
unfolding server_identifier show_int
render_backends index [] = ""
render_backends index (b ∷ rest) =
    "    server "
    ++ server_identifier index b
    ++ " "
    ++ b.address
    ++ ":"
    ++ show_int b.port
    ++ "\n"
    ++ render_backends (index + 1) rest

abbrev servers : List BackendEndpoint → String
servers [] = "    server srv_unavailable 127.0.0.1:1 disabled\n"
servers (b ∷ rest) = render_backends 0 (b ∷ rest)

-- The frontend and the backend section of one port.
unfoldable pub render_port : Service → ServicePort → String
unfolding render_backends frontend_identifier backend_identifier show_int
render_port s p =
    "\nfrontend "
    ++ frontend_identifier s p
    ++ "\n"
    ++ "    bind "
    ++ s.external_ip
    ++ ":"
    ++ show_int p.port
    ++ "\n"
    ++ "    mode tcp\n"
    ++ "    default_backend "
    ++ backend_identifier s p
    ++ "\n\n"
    ++ "backend "
    ++ backend_identifier s p
    ++ "\n"
    ++ "    mode tcp\n"
    ++ "    balance roundrobin\n"
    ++ servers p.backends

unfoldable pub render_ports : Service → List ServicePort → String
unfolding render_port
render_ports s [] = ""
render_ports s (p ∷ rest) = render_port s p ++ render_ports s rest

abbrev pub prepend : String → Result RenderError String → Result RenderError String
prepend text (ok rest) = ok (text ++ rest)
prepend text (err e) = err e

abbrev pub checked :
    Service
    → Result InvalidService (Unit {0})
    → Result RenderError String
    → Result RenderError String
checked s (ok _) rest = rest
checked s (err e) rest = err (record { service = ref s; reason = e })

-- The loop over the sorted Services. The text before an error is thrown away.
unfoldable pub render_services : List Service → Result RenderError String
unfolding render_ports validate_service
render_services [] = ok ""
render_services (s ∷ rest) =
    checked s (validate_service s) (prepend (render_ports s s.ports) (render_services rest))

unfoldable pub upsert_all : Store → List Service → Store
unfolding upsert
upsert_all st [] = st
upsert_all st (s ∷ rest) = upsert_all (upsert st s) rest

-- sortedServiceListFromSlice
unfoldable pub sorted_from_slice : List Service → List Service
unfolding upsert_all list
sorted_from_slice services = list (upsert_all new_store services)

-- Render
unfoldable pub render : List Service → Result RenderError String
unfolding render_services sorted_from_slice normalize_service
render [] = ok (config_header ++ bootstrap_frontend_section)
render (s ∷ rest) =
    prepend config_header (render_services (sorted_from_slice (map normalize_service (s ∷ rest))))
