-- ===== src/Controller/Isolation.antt =====
-- What a run of Reconcile leaves alone: the Services of other names.
pub mod Calls
pub mod Runs
use k8s_lb_controller.Prelude.{
  ℕ, ◌≡◌, refl, sym, ap, ◌∙◌, String, Bool, true, false, not, ◌&&◌, List, [], Option, none, some,
  Result, ok, err, M, bind_result, ◌>>=◌, ◌>>◌, pure, ◌==◌, Bool-cases, inl, inr, arith,
}
use k8s_lb_controller.Netip.{Addr, show_ipv4}
use k8s_lb_controller.Kube.{NamespacedName, Service, EndpointSlice, Ingress, name_eq}
use k8s_lb_controller.Provider.{ServiceRef}
use k8s_lb_controller.Provider as Provider
use k8s_lb_controller.Ipam.Allocator.{
  Allocation, AllocateError, allocate, service_key, no_free_ip, pool_empty,
}
use k8s_lb_controller.Backends.{discover}
use k8s_lb_controller.Status.{
  update_status, needs_update, updated, desired_ingress, has_ingress_in_pool,
}
use k8s_lb_controller.Controller.Filter.{is_managed, has_service_finalizer, service_finalizer}
use k8s_lb_controller.Controller.Reconcile.{
  Config, Client, ServiceProvider, finished, ReconcileError, Run, allocator, wrap, publish,
  ensure_service_finalizer, remove_service_finalizer, after_allocate, assign, refreshed,
  with_service, reconcile_managed, reconcile_service, reconcile, found, refresh_service,
  after_clear, after_finalizer, reconcile_deleting, reconcile_unmanaged, list_slices_failed,
  list_services_failed, ensure_provider, update_status_failed, delete_provider, clear_status_failed,
  add_finalizer_failed, remove_finalizer_failed, get_service, with_finalizer, by_state,
  build_provider_service, ref_of, wrapped,
}
use k8s_lb_controller.Controller.Laws.{ClusterLaws}
use k8s_lb_controller.Controller.Inversion.{wrapped-ok}

-- A patch touches the Service that it is for, which the helpers do not rename, and a Delete of the
-- provider touches none.
pub record IsolationLaws {W E P : Type 0} (client : Client W E) (provider : ServiceProvider W P)
    (stored : W → NamespacedName → Option Service) : Type 0 where
  pub patch-other :
      (s u : Service) (w : W) (j : NamespacedName)
      → (service_key u == j) ≡ false
      → stored (client.patch s u w).1 j ≡ stored w j
  pub add-key :
      (s : Service) (f : String) → service_key (client.helpers.add_finalizer s f) ≡ service_key s
  pub remove-key :
      (s : Service) (f : String) → service_key (client.helpers.remove_finalizer s f) ≡ service_key s
  pub delete-keeps :
      (r : ServiceRef) (w : W) (j : NamespacedName) → stored (provider.delete r w).1 j ≡ stored w j

module _ {W : Type 0} (stored : W → NamespacedName → Option Service) (j : NamespacedName) where
  abbrev pub Keeps : {E A : Type 0} → M W E A → W → Type 0
  Keeps m w = stored (m w).1 j ≡ stored w j

  pub bind-Keeps :
      {E A B : Type 0} (m : M W E A) (f : A → M W E B) (w : W)
      → Keeps m w
      → ((a : A) → (m w).0 ≡ ok a → Keeps (f a) (m w).1)
      → Keeps (m >>= f) w
  bind-Keeps {E} {A} {B} m f w h k = at (m w).0 k ∙ h
    where
      at :
          (r : Result E A)
          → ((a : A) → r ≡ ok a → Keeps (f a) (m w).1)
          → stored (bind_result r f (m w).1).1 j ≡ stored (m w).1 j
      at (ok a) k = k a refl
      at (err e) k = refl

  pub updated-Keeps :
      {E : Type 0} (s : Service) (r : Result E (Unit {0})) (w w' : W)
      → stored w' j ≡ stored w j
      → stored (updated s r w').1 j ≡ stored w j
  updated-Keeps s (ok u) w w' h = h
  updated-Keeps s (err e) w w' h = h
