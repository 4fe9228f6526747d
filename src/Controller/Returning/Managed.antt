-- ===== src/Controller/Returning/Managed.antt =====
-- Reconcile of a managed Service, and of any, over an API and a provider on which nothing fails.
use k8s_lb_controller.Prelude.{
  ℕ, ◌≡◌, ◌≢◌, refl, sym, ap, Bool, true, false, List, [], Option, none, some, Result, ok, err,
  ◌>>=◌, ◌>>◌, bind_result, pure,
}
use mathlib.Core.Path.{subst}
use k8s_lb_controller.Netip.{Addr, show_ipv4}
use k8s_lb_controller.Kube.{NamespacedName, Service, EndpointSlice}
use k8s_lb_controller.Ipam.Allocator.{Allocation, AllocateError, pool_empty, no_free_ip, allocate}
use k8s_lb_controller.Ipam.Allocator.Choice.{Outcome, allocate-Outcome}
use k8s_lb_controller.Status.{update_status, desired_ingress}
use k8s_lb_controller.Backends.{discover}
use k8s_lb_controller.Controller.Filter.{is_managed, has_service_finalizer, service_finalizer}
use k8s_lb_controller.Controller.Reconcile.{
  Config, Client, ServiceProvider, ReconcileError, Verdict, finished, wrapped, wrap, allocator,
  with_finalizer, ensure_service_finalizer, reconcile_deleting, reconcile_unmanaged, publish,
  after_allocate, assign, build_provider_service, Run, add_finalizer_failed, ensure_provider,
  update_status_failed, list_slices_failed, list_services_failed, get_service, requeue,
  after_finalizer, reconcile_managed, by_state, reconcile_service, found, reconcile,
}
use k8s_lb_controller.Controller.Returning.{
  Answering, Returns, bind-at, step, update-returns, refreshed-returns, deleting-returns,
  unmanaged-returns,
}

module _ {W E P : Type 0} (cfg : Config) (client : Client W E) (provider : ServiceProvider W P)
    (there : W → NamespacedName → Bool) (answers : Answering client provider there) where
  publish-returns :
      (s : Service) (ip : Addr) (slices : List EndpointSlice) (w : W)
      → Returns (publish cfg client provider s ip slices w)
  unfolding publish
  publish-returns s ip slices w =
      let asked = build_provider_service client.helpers s (show_ipv4 ip) (discover s slices) in
      let w' = (provider.ensure asked w).1 in
      let (b, e) = answers.ensures asked w in
      let write = update_status client.update_service_status s (desired_ingress (show_ipv4 ip)) in
      let (c, u) =
        update-returns cfg client provider there answers s (desired_ingress (show_ipv4 ip)) w' in
      step ensure_provider (provider.ensure asked)
        (λ b. wrap update_status_failed write >> pure finished) w b e
        (step update_status_failed write (λ c. pure finished) w' c u (finished, refl))

  after_allocate-returns :
      (s : Service) (services : List Service) (r : Result AllocateError Allocation) (w : W)
      → Outcome (allocator cfg) s services r
      → cfg.ip_pool ≢ []
      → Returns (after_allocate cfg client provider s r w)
  unfolding after_allocate
  after_allocate-returns s services (err no_free_ip) w o n = (requeue cfg.requeue_after, refl)
  after_allocate-returns s services (err pool_empty) w o n = absurd (n o)
  after_allocate-returns s services (ok a) w o n =
      let (l, e) = answers.slices s.namespace s.name w in
      step list_slices_failed (client.list_endpoint_slices s.namespace s.name)
        (publish cfg client provider s a.ip) w l e
        (publish-returns s a.ip l (client.list_endpoint_slices s.namespace s.name w).1)

  assign-returns :
      cfg.ip_pool ≢ [] → (s : Service) (w : W) → Returns (assign cfg client provider s w)
  unfolding assign
  assign-returns n s w =
      let (l, e) = answers.lists w in
      step list_services_failed client.list_services
        (λ services. after_allocate cfg client provider s (allocate (allocator cfg) s services)) w l
        e
        (after_allocate-returns s l (allocate (allocator cfg) s l) (client.list_services w).1
          (allocate-Outcome (allocator cfg) s l) n)

  managed-returns :
      cfg.ip_pool ≢ []
      → (key : NamespacedName) (s : Service) (w : W) → there w key ≡ true
      → Returns (reconcile_managed cfg client provider key s w)
  unfolding reconcile_managed ensure_service_finalizer
  managed-returns n key s w h = by_finalizer (has_service_finalizer client.helpers s)
    where
      by_finalizer :
          (b : Bool)
          → Returns (
              (with_finalizer cfg client provider s b >>= after_finalizer cfg client provider key)
                w)
      by_finalizer true =
          refreshed-returns cfg client provider there answers false s key
            (assign cfg client provider) w h (assign-returns n)
      by_finalizer false =
          let new = client.helpers.add_finalizer s service_finalizer in
          let (t, e) = answers.patches s new w in
          let v = (client.patch s new w).1 in
          let marked : Service → Run cfg client provider (Bool × Service) = λ t. pure (true, t) in
          subst
            (λ (z : Result (ReconcileError E P) Service). Returns (
              bind_result (bind_result z marked v).0 (after_finalizer cfg client provider key)
                (bind_result z marked v).1))
            (sym (ap (wrapped add_finalizer_failed) e))
            (refreshed-returns cfg client provider there answers true t key
              (assign cfg client provider) v (answers.patch-there key s w h) (assign-returns n))

  service-returns :
      cfg.ip_pool ≢ []
      → (key : NamespacedName) (s : Service) (w : W) → there w key ≡ true
      → Returns (reconcile_service cfg client provider key s w)
  unfolding reconcile_service
  service-returns n key s w h = by s.deletion (is_managed s cfg.load_balancer_class)
    where
      by : (d : Option ℕ) (m : Bool) → Returns (by_state cfg client provider key s d m w)
      by (some t) m =
          let (u, e) = deleting-returns cfg client provider there answers s w in
          bind-at (reconcile_deleting cfg client provider s w).0 (λ u. pure finished)
            (reconcile_deleting cfg client provider s w).1 u e (finished, refl)
      by none true = managed-returns n key s w h
      by none false =
          let (u, e) = unmanaged-returns cfg client provider there answers key s w h in
          bind-at (reconcile_unmanaged cfg client provider key s w).0 (λ u. pure finished)
            (reconcile_unmanaged cfg client provider key s w).1 u e (finished, refl)

  -- With a pool that has an address, and an API and a provider on which nothing fails: Reconcile
  -- of any name returns a verdict, whatever the Service of that name is and whether there is one.
  pub reconcile_returns :
      (key : NamespacedName) (w : W)
      → cfg.ip_pool ≢ []
      → (v : Verdict) × ((reconcile cfg client provider key w).0 ≡ ok v)
  unfolding reconcile
  reconcile_returns key w n =
      let (o, e) = answers.gets key w in
      step get_service (client.get key) (found cfg client provider key) w o e (at o e)
    where
      at :
          (o : Option Service)
          → (client.get key w).0 ≡ ok o
          → Returns (found cfg client provider key o (client.get key w).1)
      at none e = (finished, refl)
      at (some s) e = service-returns n key s (client.get key w).1 (answers.get-found key w s e)
