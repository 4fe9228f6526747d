-- ===== src/Provider/Api/Payloads.antt =====
-- A Service and its payload.
use k8s_lb_controller.Prelude.{◌≡◌, refl, ap, ◌∙◌, List, [], ◌∷◌, map}
use k8s_lb_controller.Provider.{Service, ServicePort, BackendEndpoint}
use k8s_lb_controller.Provider.Api.{
  ServicePayload, ServicePortPayload, BackendEndpointPayload, service_payload_from_service,
  backend_payload, port_payload,
}

-- The Service with the fields of a payload, as its JSON names the same fields.
abbrev pub backend_of : BackendEndpointPayload → BackendEndpoint
backend_of b = record { address = b.address; port = b.port }

abbrev pub port_of : ServicePortPayload → ServicePort
port_of p = record {
  name = p.name;
  protocol = p.protocol;
  port = p.port;
  target_port = p.target_port;
  backends = map backend_of p.backends;
}

abbrev pub service_of : ServicePayload → Service
service_of p = record {
  namespace = p.namespace;
  name = p.name;
  load_balancer_class = p.load_balancer_class;
  external_ip = p.external_ip;
  ports = map port_of p.ports;
}

backends_back : (l : List BackendEndpoint) → map backend_of (map backend_payload l) ≡ l
backends_back [] = refl
backends_back (b ∷ l) = ap (λ z. b ∷ z) (backends_back l)

ports_back : (l : List ServicePort) → map port_of (map port_payload l) ≡ l
ports_back [] = refl
ports_back (p ∷ l) =
    ap (λ b. record p { backends = b } ∷ map port_of (map port_payload l))
      (backends_back p.backends)
    ∙ ap (λ z. p ∷ z) (ports_back l)

-- A payload has everything that the Service has.
pub service_of-payload : (s : Service) → service_of (service_payload_from_service s) ≡ s
unfolding service_payload_from_service
service_of-payload s = ap (λ l. record s { ports = l }) (ports_back s.ports)
