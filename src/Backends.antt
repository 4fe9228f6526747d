-- ===== src/Backends.antt =====
-- internal/backends/discovery.go: the backends of each port of a Service, from EndpointSlices.
pub mod Found
use k8s_lb_controller.Prelude.{
  String, Bool, true, false, not, List, [], ◌∷◌, ◌++◌, map, Option, none, some, ◌==◌, ◌&&◌,
  string_eq, if◌then◌else◌, contains,
}
use k8s_lb_controller.Prelude.Int.{ℤ, pos, is_positive, int_eq, show_int}
use k8s_lb_controller.Prelude.Sort.{sort}
use k8s_lb_controller.Prelude.Texts.{trim_space}
use k8s_lb_controller.Netip.{parse_ipv4, show_ipv4}
use k8s_lb_controller.Kube.{
  IntOrString, str, int, ServicePort, Service, EndpointPort, Endpoint, EndpointSlice,
}
use k8s_lb_controller.Provider.{BackendEndpoint}
use k8s_lb_controller.Dataplane.Store.{backend_less}
use Prim.Native.String as Text

pub record ServicePortBackends : Type 0 where
  pub name : String
  pub protocol : String
  pub port : ℤ
  pub target_port : IntOrString
  pub backends : List BackendEndpoint

-- normalizeServiceProtocol
unfoldable pub normalize_service_protocol : String → String
normalize_service_protocol protocol = if protocol == "" then "TCP" else protocol

-- normalizeEndpointSliceProtocol
unfoldable pub normalize_endpoint_slice_protocol : Option String → String
unfolding normalize_service_protocol
normalize_endpoint_slice_protocol none = "TCP"
normalize_endpoint_slice_protocol (some protocol) = normalize_service_protocol protocol

-- valueOrEmpty
unfoldable pub value_or_empty : Option String → String
unfolding trim_space
value_or_empty none = ""
value_or_empty (some value) = trim_space value

-- servicePortTargetPort: a name, or the empty text and a number.
unfoldable pub service_port_target_port : ServicePort → String × ℤ
unfolding trim_space
service_port_target_port p = elim p.target_port [
  | str s ↦ if trim_space s == "" then ("", p.port) else (trim_space s, pos 0)
  | int n ↦ if is_positive n then ("", n) else ("", p.port)
]

-- endpointSlicePortMatchesServicePort, for a port number that is not nil.
unfoldable pub port_matches : ServicePort → EndpointPort → ℤ → Bool
unfolding normalize_service_protocol normalize_endpoint_slice_protocol value_or_empty trim_space
    service_port_target_port
port_matches sp ep number =
    let name = trim_space (value_or_empty ep.name) in
    let (target_name, target_number) = service_port_target_port sp in
    if not (is_positive number)
    then false
    else if not
        (normalize_service_protocol sp.protocol == normalize_endpoint_slice_protocol ep.protocol)
    then false
    else if not (sp.name == "") && name == sp.name
    then true
    else if not (target_name == "")
    then name == target_name
    else number == target_number

-- The number of an endpoint port that matches.
unfoldable pub matching_number : ServicePort → EndpointPort → Option ℤ
unfolding port_matches
matching_number sp ep = elim ep.port [
  | none ↦ none
  | some number ↦ if port_matches sp ep number then some number else none
]

-- endpointSliceBelongsToService
unfoldable pub belongs_to_service : Service → EndpointSlice → Bool
belongs_to_service s slice =
    if not (slice.namespace == s.namespace) then false else slice.service_label == s.name

-- endpointReady
unfoldable pub endpoint_ready : Endpoint → Bool
endpoint_ready e = elim e.ready [ none ↦ true | some ready ↦ ready ]

-- normalizeIPv4Address
unfoldable pub normalize_ipv4_address : String → Option String
unfolding parse_ipv4 show_ipv4 trim_space
normalize_ipv4_address address = elim (parse_ipv4 (trim_space address)) [
  | none ↦ none
  | some addr ↦ some (show_ipv4 addr)
]

unfoldable pub key : BackendEndpoint → String
unfolding show_int
key b = Text.◌++◌ b.address (Text.◌++◌ ":" (show_int b.port))

-- What the loops fill: the keys seen and the backends.
pub record Progress : Type 0 where
  pub seen : List String
  pub backends : List BackendEndpoint

abbrev pub add_backend : Progress → BackendEndpoint → Progress
add_backend p b =
    if contains p.seen (key b)
    then p
    else record { seen = key b ∷ p.seen; backends = p.backends ++ b ∷ [] }

-- The loop over the addresses of an endpoint.
unfoldable pub add_addresses : ℤ → List String → Progress → Progress
add_addresses number [] p = p
add_addresses number (address ∷ rest) p =
    add_addresses number rest (elim (normalize_ipv4_address address) [
      | none ↦ p
      | some normalized ↦ add_backend p (record { address = normalized; port = number })
    ])

-- The loop over the endpoints of a slice.
unfoldable pub add_endpoints : ℤ → List Endpoint → Progress → Progress
add_endpoints number [] p = p
add_endpoints number (e ∷ rest) p =
    add_endpoints number rest (if endpoint_ready e then add_addresses number e.addresses p else p)

-- The loop over the ports of a slice.
unfoldable pub add_ports : ServicePort → List Endpoint → List EndpointPort → Progress → Progress
add_ports sp endpoints [] p = p
add_ports sp endpoints (ep ∷ rest) p =
    add_ports sp endpoints rest
      (elim (matching_number sp ep) [ none ↦ p | some number ↦ add_endpoints number endpoints p ])

-- The loop over the slices.
unfoldable pub add_slices : Service → ServicePort → List EndpointSlice → Progress → Progress
add_slices s sp [] p = p
add_slices s sp (slice ∷ rest) p =
    add_slices s sp rest
      (if belongs_to_service s slice then add_ports sp slice.endpoints slice.ports p else p)

-- The body of the loop over the Service's ports.
unfoldable pub discover_port : Service → List EndpointSlice → ServicePort → ServicePortBackends
unfolding normalize_service_protocol add_slices sort backend_less
discover_port s slices sp = record {
  name = sp.name;
  protocol = normalize_service_protocol sp.protocol;
  port = sp.port;
  target_port = sp.target_port;
  backends =
      sort backend_less (add_slices s sp slices (record { seen = []; backends = [] })).backends;
}

-- Discover
unfoldable pub discover : Service → List EndpointSlice → List ServicePortBackends
unfolding discover_port
discover s slices = map (discover_port s slices) s.ports
