-- ===== src/Controller/Laws.antt =====
-- What Reconcile relies on of the API client and the provider, while nobody else writes.
use k8s_lb_controller.Prelude.{String, ◌≡◌, ◌⊎◌, Bool, false, List, [], ◌∷◌, Option, some, ok, ◌==◌}
use k8s_lb_controller.Kube.{NamespacedName, Service, name_eq}
use k8s_lb_controller.Provider.{ServiceRef}
use k8s_lb_controller.Provider as Provider
use k8s_lb_controller.Ipam.Allocator.{service_key}
use k8s_lb_controller.Controller.Reconcile.{Client, ServiceProvider}

-- The Service is an element of the list.
abbrev pub Listed : Service → List Service → Type 0
Listed t [] = ⊥
Listed t (s ∷ rest) = (s ≡ t) ⊎ Listed t rest

-- `stored` is what the server holds, and `ensured` what the provider was last asked for. A read may
-- lag behind the server, as the reads of a client with a cache do: it changes nothing, and a Get
-- answers with an object of the name. A status update that returns has stored the status under the
-- Service's name and touches no other Service, and the provider touches none.
pub record ClusterLaws {W E P : Type 0} (client : Client W E) (provider : ServiceProvider W P)
    (stored : W → NamespacedName → Option Service)
    (ensured : W → ServiceRef → Option Provider.Service) : Type 0 where
  pub get-keeps : (k j : NamespacedName) (w : W) → stored (client.get k w).1 j ≡ stored w j
  pub get-key :
      (k : NamespacedName) (w : W) (s : Service)
      → (client.get k w).0 ≡ ok (some s)
      → service_key s ≡ k
  pub stored-key :
      (k : NamespacedName) (w : W) (s : Service) → stored w k ≡ some s → service_key s ≡ k
  pub list-keeps : (j : NamespacedName) (w : W) → stored (client.list_services w).1 j ≡ stored w j
  pub slices-keeps :
      (ns name : String) (j : NamespacedName) (w : W)
      → stored (client.list_endpoint_slices ns name w).1 j ≡ stored w j
  pub status-stored :
      (s : Service) (w : W) (u : Unit {0})
      → (client.update_service_status s w).0 ≡ ok u
      → (t : Service) × (stored (client.update_service_status s w).1 (service_key s) ≡ some t)
        × (t.ingress ≡ s.ingress)
  pub status-other :
      (s : Service) (w : W) (j : NamespacedName)
      → (service_key s == j) ≡ false
      → stored (client.update_service_status s w).1 j ≡ stored w j
  pub status-ensured :
      (s : Service) (w : W) (r : ServiceRef)
      → ensured (client.update_service_status s w).1 r ≡ ensured w r
  pub ensure-keeps :
      (p : Provider.Service) (w : W) (j : NamespacedName)
      → stored (provider.ensure p w).1 j ≡ stored w j
  pub ensure-ensured :
      (p : Provider.Service) (w : W) (b : Bool)
      → (provider.ensure p w).0 ≡ ok b
      → ensured (provider.ensure p w).1 (Provider.ref p) ≡ some p

-- In this state the cache has caught up: a Get answers with what the server holds, and a List has
-- every Service that it holds.
pub record IsCurrent {W E : Type 0} (client : Client W E)
    (stored : W → NamespacedName → Option Service) (w : W) : Type 0 where
  pub get-stored :
      (k : NamespacedName) (o : Option Service) → (client.get k w).0 ≡ ok o → stored w k ≡ o
  pub list-lists :
      (l : List Service) (k : NamespacedName) (s : Service)
      → (client.list_services w).0 ≡ ok l
      → stored w k ≡ some s
      → Listed s l
