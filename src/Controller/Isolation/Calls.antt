-- ===== src/Controller/Isolation/Calls.antt =====
-- The calls that a run of Reconcile makes.
use k8s_lb_controller.Prelude.{
  ◌≡◌, refl, sym, ap, ◌∙◌, Bool, true, false, List, Option, none, some, Result, ok, err, ◌>>◌, pure,
  ◌==◌, Bool-cases, inl, inr, arith,
}
use k8s_lb_controller.Netip.{Addr, show_ipv4}
use k8s_lb_controller.Kube.{NamespacedName, Service, EndpointSlice, Ingress, name_eq}
use k8s_lb_controller.Provider.{ServiceRef}
use k8s_lb_controller.Provider as Provider
use k8s_lb_controller.Ipam.Allocator.{
  Allocation, AllocateError, allocate, service_key, no_free_ip, pool_empty,
}
use k8s_lb_controller.Backends.{discover}
use k8s_lb_controller.Status.{update_status, needs_update, updated, desired_ingress}
use k8s_lb_controller.Controller.Filter.{has_service_finalizer, service_finalizer}
use k8s_lb_controller.Controller.Reconcile.{
  Config, Client, ServiceProvider, finished, ReconcileError, Run, allocator, wrap, publish,
  remove_service_finalizer, after_allocate, assign, refreshed, with_service, refresh_service,
  list_slices_failed, list_services_failed, ensure_provider, update_status_failed,
  remove_finalizer_failed, build_provider_service,
}
use k8s_lb_controller.Controller.Laws.{ClusterLaws}
use k8s_lb_controller.Controller.Inversion.{wrapped-ok}
use k8s_lb_controller.Controller.Isolation.{IsolationLaws, Keeps, bind-Keeps, updated-Keeps}

module _ {W E P : Type 0} (cfg : Config) (client : Client W E) (provider : ServiceProvider W P)
    (stored : W → NamespacedName → Option Service)
    (ensured : W → ServiceRef → Option Provider.Service)
    (laws : ClusterLaws client provider stored ensured)
    (isolated : IsolationLaws client provider stored) (key j : NamespacedName)
    (n : (key == j) ≡ false) where
  abbrev Kept : {A : Type 0} → Run cfg client provider A → W → Type 0
  Kept m w = Keeps stored j m w

  other : (s : Service) → service_key s ≡ key → (service_key s == j) ≡ false
  other s own = ap (λ q. q == j) own ∙ n

  pub status-Kept :
      (s : Service) (l : List Ingress) (w : W)
      → service_key s ≡ key
      → Keeps stored j (update_status client.update_service_status s l) w
  unfolding update_status needs_update
  status-Kept s l w own = elim (Bool-cases (needs_update s l)) [
    | inl e ↦
        let next = record s { ingress = l } in
        let moved : update_status client.update_service_status s l w
            ≡ updated next (client.update_service_status next w).0
                (client.update_service_status next w).1 =
          rw (e, update_status) refl in
        ap (λ (z : Result E (Bool × Service) × W). stored z.1 j) moved
        ∙ updated-Keeps stored j next (client.update_service_status next w).0 w
            (client.update_service_status next w).1 (laws.status-other next w j (other s own))
    | inr e ↦
        let same : update_status client.update_service_status s l w ≡ (ok (false, s), w) =
          rw (e, update_status) refl in
        ap (λ (z : Result E (Bool × Service) × W). stored z.1 j) same
  ]

  pub remove-Kept :
      (s : Service) (w : W)
      → service_key s ≡ key
      → Kept (remove_service_finalizer cfg client provider s) w
  unfolding remove_service_finalizer
  remove-Kept s w own = elim (Bool-cases (has_service_finalizer client.helpers s)) [
    | inl e ↦
        let u = client.helpers.remove_finalizer s service_finalizer in
        let gone =
          isolated.patch-other s u w j
            (ap (λ q. q == j) (isolated.remove-key s service_finalizer ∙ own) ∙ n) in
        rw e (
          bind-Keeps stored j
            (wrap {F = ReconcileError E P} remove_finalizer_failed (client.patch s u))
            (λ t. pure tt) w gone (λ a h. refl))
    | inr e ↦ rw e refl
  ]

  pub again-Kept :
      {A : Type 0} (s : Service) (next : Service → Run cfg client provider A) (w : W)
      → ((t : Service) (v : W) → service_key t ≡ key → Kept (next t) v)
      → Kept (refreshed cfg client provider true s key next) w
  unfolding refreshed
  again-Kept s next w k =
      bind-Keeps stored j (wrap {F = ReconcileError E P} refresh_service (client.get key))
        (with_service cfg client provider next) w (laws.get-keeps key j w)
        (λ o h. present o (wrapped-ok refresh_service _ o h))
    where
      present :
          (o : Option Service)
          → (client.get key w).0 ≡ ok o
          → Kept (with_service cfg client provider next o) (client.get key w).1
      present none h = refl
      present (some t) h = k t (client.get key w).1 (laws.get-key key w t h)

  pub refreshed-Kept :
      {A : Type 0} (again : Bool) (s : Service) (next : Service → Run cfg client provider A) (w : W)
      → service_key s ≡ key
      → ((t : Service) (v : W) → service_key t ≡ key → Kept (next t) v)
      → Kept (refreshed cfg client provider again s key next) w
  unfolding refreshed
  refreshed-Kept false s next w own k = k s w own
  refreshed-Kept true s next w own k = again-Kept s next w k

  publish-Kept :
      (s : Service) (ip : Addr) (slices : List EndpointSlice) (w : W)
      → service_key s ≡ key
      → Kept (publish cfg client provider s ip slices) w
  unfolding publish build_provider_service
  publish-Kept s ip slices w own =
      let p = build_provider_service client.helpers s (show_ipv4 ip) (discover s slices) in
      let m = wrap {F = ReconcileError E P} ensure_provider (provider.ensure p) in
      let u =
        wrap {F = ReconcileError E P} update_status_failed
          (update_status client.update_service_status s (desired_ingress (show_ipv4 ip))) in
      bind-Keeps stored j m (λ b. u >> pure finished) w (laws.ensure-keeps p w j)
        (λ b h.
          bind-Keeps stored j u (λ q. pure finished) (m w).1
            (status-Kept s (desired_ingress (show_ipv4 ip)) (m w).1 own) (λ q e. refl))

  allocated-Kept :
      (s : Service) (r : Result AllocateError Allocation) (w : W)
      → service_key s ≡ key
      → Kept (after_allocate cfg client provider s r) w
  unfolding after_allocate
  allocated-Kept s (err no_free_ip) w own = refl
  allocated-Kept s (err pool_empty) w own = refl
  allocated-Kept s (ok a) w own =
      let m =
        wrap {F = ReconcileError E P} list_slices_failed
          (client.list_endpoint_slices s.namespace s.name) in
      bind-Keeps stored j m (publish cfg client provider s a.ip) w
        (laws.slices-keeps s.namespace s.name j w) (λ l h. publish-Kept s a.ip l (m w).1 own)

  pub assign-Kept :
      (s : Service) (w : W) → service_key s ≡ key → Kept (assign cfg client provider s) w
  unfolding assign
  assign-Kept s w own =
      let m = wrap {F = ReconcileError E P} list_services_failed client.list_services in
      bind-Keeps stored j m
        (λ l. after_allocate cfg client provider s (allocate (allocator cfg) s l)) w
        (laws.list-keeps j w) (λ l h. allocated-Kept s (allocate (allocator cfg) s l) (m w).1 own)

  -- The Service that a status update answers with has the name of the one it was given.
  pub status-key :
      (s : Service) (l : List Ingress) (w : W) (p : Bool × Service)
      → service_key s ≡ key
      → (update_status client.update_service_status s l w).0 ≡ ok p
      → service_key p.1 ≡ key
  unfolding update_status needs_update
  status-key s l w p own h = elim (Bool-cases (needs_update s l)) [
    | inl e ↦
        let next = record s { ingress = l } in
        let moved : update_status client.update_service_status s l w
            ≡ updated next (client.update_service_status next w).0
                (client.update_service_status next w).1 =
          rw (e, update_status) refl in
        named next (client.update_service_status next w).0 (client.update_service_status next w).1
          own (sym (ap (λ (z : Result E (Bool × Service) × W). z.0) moved) ∙ h)
    | inr e ↦
        let same : update_status client.update_service_status s l w ≡ (ok (false, s), w) =
          rw (e, update_status) refl in
        answered (sym (ap (λ (z : Result E (Bool × Service) × W). z.0) same) ∙ h)
  ]
    where
      named :
          (next : Service) (r : Result E (Unit {0})) (v : W)
          → service_key next ≡ key
          → (updated next r v).0 ≡ ok p
          → service_key p.1 ≡ key
      named next (ok u) v o k = ground (arith, o, k)
      named next (err e) v o k = absurd (cc)

      answered : Path (Result E (Bool × Service)) (ok (false, s)) (ok p) → service_key p.1 ≡ key
      answered k = ground (arith, own, k)
