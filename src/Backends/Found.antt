-- ===== src/Backends/Found.antt =====
-- Which backends are found.
use k8s_lb_controller.Prelude.{
  ℕ, suc, ◌+◌, ◌≡◌, refl, sym, ◌∙◌, ap, String, Bool, true, false, List, [], ◌∷◌, ◌++◌, none, some,
  ◌==◌, ◌||◌, string_eq, if◌then◌else◌, contains, arith, Option-cases, Bool-cases, inl, inr,
}
use k8s_lb_controller.Prelude.Int.{ℤ}
use k8s_lb_controller.Prelude.Sort.{sort, insert}
use k8s_lb_controller.Kube.{ServicePort, Service, EndpointPort, Endpoint, EndpointSlice}
use k8s_lb_controller.Provider.{BackendEndpoint}
use k8s_lb_controller.Dataplane.Store.{backend_less}
use k8s_lb_controller.Backends.{
  matching_number, belongs_to_service, endpoint_ready, normalize_ipv4_address, key, Progress,
  add_backend, add_addresses, add_endpoints, add_ports, add_slices, discover_port,
}
use text.Mathlib.TextEquality.{eq_iff}

-- The backends of the texts that are IPv4 addresses.
unfoldable pub of_addresses : ℤ → List String → List BackendEndpoint
of_addresses number [] = []
of_addresses number (address ∷ rest) =
    let later = of_addresses number rest in
    elim (normalize_ipv4_address address) [
      | none ↦ later
      | some normalized ↦ record { address = normalized; port = number } ∷ later
    ]

-- The candidates: every IPv4 address of every ready endpoint of a slice that belongs to the
-- Service, with every number of that slice that matches the port.
unfoldable pub of_endpoints : ℤ → List Endpoint → List BackendEndpoint
of_endpoints number [] = []
of_endpoints number (e ∷ rest) =
    (if endpoint_ready e then of_addresses number e.addresses else []) ++ of_endpoints number rest

unfoldable pub of_ports : ServicePort → List Endpoint → List EndpointPort → List BackendEndpoint
of_ports sp endpoints [] = []
of_ports sp endpoints (ep ∷ rest) =
    let later = of_ports sp endpoints rest in
    elim (matching_number sp ep) [
      | none ↦ later
      | some number ↦ of_endpoints number endpoints ++ later
    ]

unfoldable pub candidates : Service → ServicePort → List EndpointSlice → List BackendEndpoint
candidates s sp [] = []
candidates s sp (slice ∷ rest) =
    (if belongs_to_service s slice then of_ports sp slice.endpoints slice.ports else [])
    ++ candidates s sp rest

unfoldable add_all : List BackendEndpoint → Progress → Progress
add_all [] p = p
add_all (b ∷ rest) p = add_all rest (add_backend p b)

add_all-append :
    (l m : List BackendEndpoint) (p : Progress) → add_all (l ++ m) p ≡ add_all m (add_all l p)
unfolding add_all
add_all-append [] m p = refl
add_all-append (b ∷ l) m p = add_all-append l m (add_backend p b)

add_addresses-eq :
    (number : ℤ) (l : List String) (p : Progress)
    → add_addresses number l p ≡ add_all (of_addresses number l) p
unfolding add_addresses of_addresses add_all
add_addresses-eq number [] p = refl
add_addresses-eq number (address ∷ rest) p = elim (Option-cases (normalize_ipv4_address address)) [
  | inl n ↦ rw (n, of_addresses) (add_addresses-eq number rest p)
  | inr (a, n) ↦
      rw (n, of_addresses)
        (add_addresses-eq number rest (add_backend p (record { address = a; port = number })))
]

add_endpoints-eq :
    (number : ℤ) (l : List Endpoint) (p : Progress)
    → add_endpoints number l p ≡ add_all (of_endpoints number l) p
unfolding add_endpoints of_endpoints add_all
add_endpoints-eq number [] p = refl
add_endpoints-eq number (e ∷ rest) p =
    let add = add_all-append (of_addresses number e.addresses) (of_endpoints number rest) p in
    elim (Bool-cases (endpoint_ready e)) [
      | inr n ↦ rw n (add_endpoints-eq number rest p)
      | inl n ↦ rw n (
          ap (add_endpoints number rest) (add_addresses-eq number e.addresses p)
          ∙ add_endpoints-eq number rest _
          ∙ sym add)
    ]

add_ports-eq :
    (sp : ServicePort) (endpoints : List Endpoint) (l : List EndpointPort) (p : Progress)
    → add_ports sp endpoints l p ≡ add_all (of_ports sp endpoints l) p
unfolding add_ports of_ports add_all
add_ports-eq sp endpoints [] p = refl
add_ports-eq sp endpoints (ep ∷ rest) p = elim (Option-cases (matching_number sp ep)) [
  | inl n ↦ rw (n, of_ports) (add_ports-eq sp endpoints rest p)
  | inr (number, n) ↦
      rw (n, of_ports)
        (ap (add_ports sp endpoints rest) (add_endpoints-eq number endpoints p)
          ∙ add_ports-eq sp endpoints rest _
          ∙ sym (add_all-append (of_endpoints number endpoints) (of_ports sp endpoints rest) p))
]

add_slices-eq :
    (s : Service) (sp : ServicePort) (l : List EndpointSlice) (p : Progress)
    → add_slices s sp l p ≡ add_all (candidates s sp l) p
unfolding add_slices candidates add_all
add_slices-eq s sp [] p = refl
add_slices-eq s sp (slice ∷ rest) p = elim (Bool-cases (belongs_to_service s slice)) [
  | inr n ↦ rw n (add_slices-eq s sp rest p)
  | inl n ↦ rw n (
      ap (add_slices s sp rest) (add_ports-eq sp slice.endpoints slice.ports p)
      ∙ add_slices-eq s sp rest _
      ∙ sym (add_all-append (of_ports sp slice.endpoints slice.ports) (candidates s sp rest) p))
]

-- How often a key occurs among the backends.
unfoldable pub occurrences : String → List BackendEndpoint → ℕ
occurrences k [] = 0
occurrences k (b ∷ rest) = let n = occurrences k rest in if key b == k then suc n else n

occurrences-append :
    (k : String) (l m : List BackendEndpoint)
    → occurrences k (l ++ m) ≡ occurrences k l + occurrences k m
unfolding occurrences
occurrences-append k [] m = omega arith
occurrences-append k (b ∷ l) m = ground (arith, occurrences-append k l m)

abbrev pub one_if : Bool → ℕ
one_if true = 1
one_if false = 0

add_backend-occurrences :
    (k : String) (b : BackendEndpoint) (p : Progress)
    → ((j : String) → occurrences j p.backends ≡ one_if (contains p.seen j))
    → occurrences k (add_backend p b).backends ≡ one_if (contains (add_backend p b).seen k)
unfolding occurrences contains
add_backend-occurrences k b p h = elim (Bool-cases (contains p.seen (key b))) [
  | inl old ↦ rw old (h k)
  | inr new ↦
      rw new (occurrences-append k p.backends (b ∷ []) ∙ ground (arith, h k, eq_iff (key b) k))
]

add_backend-seen :
    (k : String) (b : BackendEndpoint) (p : Progress)
    → contains (add_backend p b).seen k ≡ (key b == k || contains p.seen k)
unfolding contains
add_backend-seen k b p = ground (arith, eq_iff (key b) k)

-- The candidates have a backend with this key.
unfoldable pub has_key : String → List BackendEndpoint → Bool
has_key k [] = false
has_key k (b ∷ rest) = key b == k || has_key k rest

add_all-occurrences :
    (k : String) (l : List BackendEndpoint) (p : Progress)
    → ((j : String) → occurrences j p.backends ≡ one_if (contains p.seen j))
    → occurrences k (add_all l p).backends ≡ one_if (contains p.seen k || has_key k l)
unfolding add_all has_key
add_all-occurrences k [] p h = h k ∙ ground arith
add_all-occurrences k (b ∷ l) p h =
    add_all-occurrences k l (add_backend p b) (λ j. add_backend-occurrences j b p h)
    ∙ ground (arith, add_backend-seen k b p)

insert-occurrences :
    (k : String) (b : BackendEndpoint) (l : List BackendEndpoint)
    → occurrences k (insert backend_less b l) ≡ occurrences k (b ∷ l)
unfolding insert occurrences
insert-occurrences k b [] = refl
insert-occurrences k b (c ∷ l) = ground (arith, insert-occurrences k b l)

sort-occurrences :
    (k : String) (l : List BackendEndpoint) → occurrences k (sort backend_less l) ≡ occurrences k l
unfolding sort occurrences
sort-occurrences k [] = refl
sort-occurrences k (b ∷ l) =
    ground (arith, sort-occurrences k l, insert-occurrences k b (sort backend_less l))

-- The backends of a port are those of its candidates, each once: an `address:port` occurs once
-- among the backends found when an IPv4 address of a ready endpoint in a slice of the Service, with
-- a matching number of that slice, has it, and does not occur otherwise.
pub discover_port-occurrences :
    (s : Service) (slices : List EndpointSlice) (sp : ServicePort) (k : String)
    → occurrences k (discover_port s slices sp).backends
      ≡ one_if (has_key k (candidates s sp slices))
unfolding discover_port contains occurrences
discover_port-occurrences s slices sp k =
    sort-occurrences k (add_slices s sp slices (record { seen = []; backends = [] })).backends
    ∙ ap (λ (p : Progress). occurrences k p.backends) (add_slices-eq s sp slices _)
    ∙ add_all-occurrences k (candidates s sp slices) (record { seen = []; backends = [] })
        (λ j. refl)
