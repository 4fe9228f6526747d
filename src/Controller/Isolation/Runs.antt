-- ===== src/Controller/Isolation/Runs.antt =====
-- Reconcile, by the state of the Service.
use k8s_lb_controller.Prelude.{
  ℕ, ◌≡◌, refl, ap, ◌∙◌, Bool, true, false, not, ◌&&◌, [], Option, none, some, Result, ok, err,
  bind_result, ◌>>=◌, pure, ◌==◌, Bool-cases, inl, inr,
}
use k8s_lb_controller.Kube.{NamespacedName, Service, name_eq}
use k8s_lb_controller.Provider.{ServiceRef}
use k8s_lb_controller.Provider as Provider
use k8s_lb_controller.Ipam.Allocator.{service_key}
use k8s_lb_controller.Status.{update_status, has_ingress_in_pool}
use k8s_lb_controller.Controller.Filter.{is_managed, has_service_finalizer, service_finalizer}
use k8s_lb_controller.Controller.Reconcile.{
  Config, Client, ServiceProvider, finished, ReconcileError, Run, wrap, ensure_service_finalizer,
  remove_service_finalizer, assign, reconcile_managed, reconcile_service, reconcile, found,
  after_clear, after_finalizer, reconcile_deleting, reconcile_unmanaged, delete_provider,
  clear_status_failed, add_finalizer_failed, get_service, with_finalizer, by_state, ref_of, wrapped,
}
use k8s_lb_controller.Controller.Laws.{ClusterLaws}
use k8s_lb_controller.Controller.Inversion.{wrapped-ok}
use k8s_lb_controller.Controller.Isolation.{IsolationLaws, Keeps, bind-Keeps}
use k8s_lb_controller.Controller.Isolation.Calls.{
  status-Kept, remove-Kept, again-Kept, refreshed-Kept, assign-Kept, status-key,
}

module _ {W E P : Type 0} (cfg : Config) (client : Client W E) (provider : ServiceProvider W P)
    (stored : W → NamespacedName → Option Service)
    (ensured : W → ServiceRef → Option Provider.Service)
    (laws : ClusterLaws client provider stored ensured)
    (isolated : IsolationLaws client provider stored) (key j : NamespacedName)
    (n : (key == j) ≡ false) where
  abbrev Kept : {A : Type 0} → Run cfg client provider A → W → Type 0
  Kept m w = Keeps stored j m w

  -- The patch that adds the finalizer, which is followed by a refreshing Get.
  added-Kept :
      (s : Service) (w : W)
      → service_key s ≡ key
      → Kept
          (with_finalizer cfg client provider s false >>= after_finalizer cfg client provider key)
          w
  added-Kept s w own =
      let u = client.helpers.add_finalizer s service_finalizer in
      after (client.patch s u w).0 (client.patch s u w).1
      ∙ isolated.patch-other s u w j
          (ap (λ q. q == j) (isolated.add-key s service_finalizer ∙ own) ∙ n)
    where
      after :
          (r : Result E Service) (v : W)
          → stored
              (bind_result
                (bind_result {B = Bool × Service}
                  (wrapped {F = ReconcileError E P} add_finalizer_failed r)
                  (λ t. pure (true, t))
                  v).0
                (after_finalizer cfg client provider key)
                (bind_result {B = Bool × Service}
                  (wrapped {F = ReconcileError E P} add_finalizer_failed r)
                  (λ t. pure (true, t))
                  v).1).1
              j
            ≡ stored v j
      after (ok t) v =
          again-Kept cfg client provider stored ensured laws isolated key j n t
            (assign cfg client provider) v
            (λ t u k. assign-Kept cfg client provider stored ensured laws isolated key j n t u k)
      after (err e) v = refl

  managed-Kept :
      (s : Service) (w : W)
      → service_key s ≡ key
      → Kept (reconcile_managed cfg client provider key s) w
  unfolding reconcile_managed ensure_service_finalizer
  managed-Kept s w own = by (has_service_finalizer client.helpers s)
    where
      by :
          (b : Bool)
          → Kept
              (with_finalizer cfg client provider s b >>= after_finalizer cfg client provider key)
              w
      by true =
          refreshed-Kept cfg client provider stored ensured laws isolated key j n false s
            (assign cfg client provider) w own
            (λ t u k. assign-Kept cfg client provider stored ensured laws isolated key j n t u k)
      by false = added-Kept s w own

  deleting-Kept :
      (s : Service) (w : W)
      → service_key s ≡ key
      → Kept (reconcile_deleting cfg client provider s) w
  unfolding reconcile_deleting
  deleting-Kept s w own = elim (Bool-cases (has_service_finalizer client.helpers s)) [
    | inl e ↦
        let m = wrap {F = ReconcileError E P} delete_provider (provider.delete (ref_of s)) in
        rw e (
          bind-Keeps stored j m (λ b. remove_service_finalizer cfg client provider s) w
            (isolated.delete-keeps (ref_of s) w j)
            (λ b h.
              remove-Kept cfg client provider stored ensured laws isolated key j n s (m w).1 own))
    | inr e ↦ rw e refl
  ]

  clear-Kept :
      (p : Bool × Service) (w : W)
      → service_key p.1 ≡ key
      → Kept (after_clear cfg client provider key p) w
  clear-Kept p w own = elim (Bool-cases (has_service_finalizer client.helpers p.1)) [
    | inl e ↦ rw e (
        refreshed-Kept cfg client provider stored ensured laws isolated key j n p.0 p.1
          (remove_service_finalizer cfg client provider) w own
          (λ t v k. remove-Kept cfg client provider stored ensured laws isolated key j n t v k))
    | inr e ↦ rw e refl
  ]

  unmanaged-Kept :
      (s : Service) (w : W)
      → service_key s ≡ key
      → Kept (reconcile_unmanaged cfg client provider key s) w
  unfolding reconcile_unmanaged
  unmanaged-Kept s w own =
      elim (Bool-cases (
        not (has_service_finalizer client.helpers s)
        && not (has_ingress_in_pool s.ingress cfg.ip_pool))) [
          | inl e ↦ rw e refl
          | inr e ↦
              let m = wrap {F = ReconcileError E P} delete_provider (provider.delete (ref_of s)) in
              let c =
                wrap {F = ReconcileError E P} clear_status_failed
                  (update_status client.update_service_status s []) in
              rw e (
                bind-Keeps stored j m (λ b. c >>= after_clear cfg client provider key) w
                  (isolated.delete-keeps (ref_of s) w j)
                  (λ b h.
                    bind-Keeps stored j c (after_clear cfg client provider key) (m w).1
                      (status-Kept cfg client provider stored ensured laws isolated key j n s []
                        (m w).1 own)
                      (λ p k. clear-Kept p (c (m w).1).1 (
                        status-key cfg client provider stored ensured laws isolated key j n s []
                          (m w).1 p own (wrapped-ok clear_status_failed _ p k)))))
        ]

  service-Kept :
      (s : Service) (w : W)
      → service_key s ≡ key
      → Kept (reconcile_service cfg client provider key s) w
  unfolding reconcile_service
  service-Kept s w own = by s.deletion (is_managed s cfg.load_balancer_class)
    where
      by : (d : Option ℕ) (b : Bool) → Kept (by_state cfg client provider key s d b) w
      by (some t) b =
          bind-Keeps stored j (reconcile_deleting cfg client provider s) (λ u. pure finished) w
            (deleting-Kept s w own) (λ u h. refl)
      by none true = managed-Kept s w own
      by none false =
          bind-Keeps stored j (reconcile_unmanaged cfg client provider key s) (λ u. pure finished) w
            (unmanaged-Kept s w own) (λ u h. refl)

  -- While nobody else writes, a run of Reconcile for one name leaves what the API holds under every
  -- other name as it was, whatever the run does and also when it fails.
  pub reconcile-other : (w : W) → stored (reconcile cfg client provider key w).1 j ≡ stored w j
  unfolding reconcile
  reconcile-other w =
      let m = wrap {F = ReconcileError E P} get_service (client.get key) in
      bind-Keeps stored j m (found cfg client provider key) w (laws.get-keeps key j w)
        (λ o h. present o (wrapped-ok get_service _ o h))
    where
      present :
          (o : Option Service)
          → (client.get key w).0 ≡ ok o
          → Kept (found cfg client provider key o) (client.get key w).1
      present none h = refl
      present (some s) h = service-Kept s (client.get key w).1 (laws.get-key key w s h)
