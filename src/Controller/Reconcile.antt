-- ===== src/Controller/Reconcile.antt =====
-- internal/controller/service_controller.go: Reconcile and what it calls, over the API client and
-- the provider.
use k8s_lb_controller.Prelude.{
  ℕ, String, Bool, true, false, not, ◌&&◌, List, [], ◌∷◌, map, Option, none, some, Result, ok, err,
  M, ◌>>=◌, ◌>>◌, pure, raise, if◌then◌else◌, ◌==◌, string_eq,
}
use k8s_lb_controller.Netip.{Addr, show_ipv4}
use k8s_lb_controller.Kube.{NamespacedName, Service, EndpointSlice, Helpers}
use k8s_lb_controller.Provider.{ServiceRef}
use k8s_lb_controller.Provider as Provider
use k8s_lb_controller.Ipam.Allocator.{
  Allocator, Allocation, AllocateError, pool_empty, no_free_ip, allocate,
}
use k8s_lb_controller.Backends.{ServicePortBackends, discover}
use k8s_lb_controller.Status.{desired_ingress, update_status, has_ingress_in_pool}
use k8s_lb_controller.Controller.Filter.{
  is_managed, class_of, has_service_finalizer, service_finalizer,
}

-- The settings that Reconcile reads.
pub record Config : Type 0 where
  pub load_balancer_class : String
  pub ip_pool : List Addr
  pub requeue_after : ℕ

-- The calls of the API client; a Get of an object that is not there has no answer. Patch answers
-- with the object as the server has it afterwards. With them come the libraries' helpers.
pub record Client (W E : Type 0) : Type 0 where
  pub helpers : Helpers
  pub get : NamespacedName → M W E (Option Service)
  pub list_services : M W E (List Service)
  pub list_endpoint_slices : String → String → M W E (List EndpointSlice)
  pub patch : Service → Service → M W E Service
  pub update_service_status : Service → M W E (Unit {0})

-- provider.Provider
pub record ServiceProvider (W P : Type 0) : Type 0 where
  pub ensure : Provider.Service → M W P Bool
  pub delete : ServiceRef → M W P Bool

pub data ReconcileError (E P : Type 0) : Type 0 where
  get_service : E → ReconcileError E P
  refresh_service : E → ReconcileError E P
  refresh_missing : ReconcileError E P
  add_finalizer_failed : E → ReconcileError E P
  remove_finalizer_failed : E → ReconcileError E P
  list_services_failed : E → ReconcileError E P
  allocate_failed : AllocateError → ReconcileError E P
  list_slices_failed : E → ReconcileError E P
  ensure_provider : P → ReconcileError E P
  delete_provider : P → ReconcileError E P
  update_status_failed : E → ReconcileError E P
  clear_status_failed : E → ReconcileError E P

-- The result of a run: nothing more to do, or another run after the configured time.
pub data Verdict : Type 0 where
  finished : Verdict
  requeue : ℕ → Verdict

abbrev pub provider_port : Helpers → ServicePortBackends → Provider.ServicePort
provider_port h p = record {
  name = p.name;
  protocol = p.protocol;
  port = p.port;
  target_port = h.show_int_or_string p.target_port;
  backends = p.backends;
}

-- buildProviderService
unfoldable pub build_provider_service :
    Helpers → Service → String → List ServicePortBackends → Provider.Service
unfolding class_of
build_provider_service h s external_ip discovered = record {
  namespace = s.namespace;
  name = s.name;
  load_balancer_class = class_of s;
  external_ip = external_ip;
  ports = map (provider_port h) discovered;
}

abbrev pub ref_of : Service → ServiceRef
ref_of s = record { namespace = s.namespace; name = s.name }

-- The allocator that Reconcile makes.
abbrev pub allocator : Config → Allocator
allocator cfg = record {
  pool = cfg.ip_pool;
  matches = some (λ s. is_managed s cfg.load_balancer_class);
}

-- endpointSliceToServiceRequests, for an object that is an EndpointSlice.
unfoldable pub endpoint_slice_to_service_requests : EndpointSlice → List NamespacedName
endpoint_slice_to_service_requests slice =
    if slice.service_label == ""
    then []
    else record { namespace = slice.namespace; name = slice.service_label } ∷ []

abbrev pub wrapped : {E F A : Type 0} → (E → F) → Result E A → Result F A
wrapped f (ok a) = ok a
wrapped f (err e) = err (f e)

-- An error is returned with a prefix.
abbrev pub wrap : {W E F A : Type 0} → (E → F) → M W E A → M W F A
wrap f m w = (wrapped f (m w).0, (m w).1)

module _ {W E P : Type 0} (cfg : Config) (client : Client W E)
    (provider : ServiceProvider W P) where
  abbrev pub Run : Type 0 → Type 0
  Run A = M W (ReconcileError E P) A

  abbrev pub with_service : {A : Type 0} → (Service → Run A) → Option Service → Run A
  with_service next none = raise refresh_missing
  with_service next (some s) = next s

  -- The refreshing Get, if it is asked for; the Service must be there.
  unfoldable pub refreshed :
      {A : Type 0} → Bool → Service → NamespacedName → (Service → Run A) → Run A
  refreshed false s key next = next s
  refreshed true s key next = wrap refresh_service (client.get key) >>= with_service next

  abbrev pub with_finalizer : Service → Bool → Run (Bool × Service)
  with_finalizer s true = pure (false, s)
  with_finalizer s false =
      wrap add_finalizer_failed (client.patch s (client.helpers.add_finalizer s service_finalizer))
      >>= λ t. pure (true, t)

  -- ensureServiceFinalizer
  unfoldable pub ensure_service_finalizer : Service → Run (Bool × Service)
  ensure_service_finalizer s = with_finalizer s (has_service_finalizer client.helpers s)

  -- removeServiceFinalizer
  unfoldable pub remove_service_finalizer : Service → Run (Unit {0})
  remove_service_finalizer s =
      if has_service_finalizer client.helpers s
      then (wrap remove_finalizer_failed
            (client.patch s (client.helpers.remove_finalizer s service_finalizer))
          >>= λ t. pure tt)
      else pure tt

  -- reconcileDeletingService
  unfoldable pub reconcile_deleting : Service → Run (Unit {0})
  reconcile_deleting s =
      if has_service_finalizer client.helpers s
      then (wrap delete_provider (provider.delete (ref_of s)) >> remove_service_finalizer s)
      else pure tt

  abbrev pub after_clear : NamespacedName → Bool × Service → Run (Unit {0})
  after_clear key (cleared, s) =
      if has_service_finalizer client.helpers s
      then refreshed cleared s key remove_service_finalizer
      else pure tt

  -- reconcileUnmanagedService
  unfoldable pub reconcile_unmanaged : NamespacedName → Service → Run (Unit {0})
  reconcile_unmanaged key s =
      if not (has_service_finalizer client.helpers s)
        && not (has_ingress_in_pool s.ingress cfg.ip_pool)
      then pure tt
      else (wrap delete_provider (provider.delete (ref_of s))
          >> (wrap clear_status_failed (update_status client.update_service_status s [])
              >>= after_clear key))

  -- What follows the choice of an address.
  unfoldable pub publish : Service → Addr → List EndpointSlice → Run Verdict
  publish s ip slices =
      wrap ensure_provider (
        provider.ensure
          (build_provider_service client.helpers s (show_ipv4 ip) (discover s slices)))
      >> (wrap update_status_failed
            (update_status client.update_service_status s (desired_ingress (show_ipv4 ip)))
          >> pure finished)

  unfoldable pub after_allocate : Service → Result AllocateError Allocation → Run Verdict
  after_allocate s (err no_free_ip) = pure (requeue cfg.requeue_after)
  after_allocate s (err pool_empty) = raise (allocate_failed pool_empty)
  after_allocate s (ok a) =
      wrap list_slices_failed (client.list_endpoint_slices s.namespace s.name) >>= publish s a.ip

  -- From the listing of the Services on.
  unfoldable pub assign : Service → Run Verdict
  assign s = wrap list_services_failed client.list_services >>= λ services.
      after_allocate s (allocate (allocator cfg) s services)

  abbrev pub after_finalizer : NamespacedName → Bool × Service → Run Verdict
  after_finalizer key (added, s) = refreshed added s key assign

  unfoldable pub reconcile_managed : NamespacedName → Service → Run Verdict
  reconcile_managed key s = ensure_service_finalizer s >>= after_finalizer key

  -- Whether the Service is being deleted, and else whether it is managed.
  abbrev pub by_state : NamespacedName → Service → Option ℕ → Bool → Run Verdict
  by_state key s (some t) managed = reconcile_deleting s >> pure finished
  by_state key s none true = reconcile_managed key s
  by_state key s none false = reconcile_unmanaged key s >> pure finished

  -- Reconcile, from the Service on.
  unfoldable pub reconcile_service : NamespacedName → Service → Run Verdict
  unfolding is_managed
  reconcile_service key s = by_state key s s.deletion (is_managed s cfg.load_balancer_class)

  abbrev pub found : NamespacedName → Option Service → Run Verdict
  found key none = pure finished
  found key (some s) = reconcile_service key s

  -- Reconcile
  unfoldable pub reconcile : NamespacedName → Run Verdict
  reconcile key = wrap get_service (client.get key) >>= found key
