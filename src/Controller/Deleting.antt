-- ===== src/Controller/Deleting.antt =====
-- The deletion of a Service.
use k8s_lb_controller.Prelude.{
  ℕ, ◌≡◌, refl, sym, ap, ◌∙◌, Bool, true, Option, some, Result, ok, M, string_eq, ◌>>=◌,
}
use mathlib.Core.Path.{subst}
use k8s_lb_controller.Kube.{NamespacedName, Service}
use k8s_lb_controller.Controller.Filter.{is_managed, has_service_finalizer, service_finalizer}
use k8s_lb_controller.Controller.Reconcile.{
  Config, Client, ServiceProvider, Verdict, finished, ReconcileError, wrap, found, reconcile,
  reconcile_service, reconcile_deleting, remove_service_finalizer, by_state, ref_of, get_service,
  delete_provider, remove_finalizer_failed,
}
use k8s_lb_controller.Controller.Inversion.{bind-ok, wrapped-ok}

module _ {W E P : Type 0} (cfg : Config) (client : Client W E)
    (provider : ServiceProvider W P) where
  -- The provider has deleted the Service, and then the object without the finalizer was written.
  abbrev pub Released : Service → W → W → Type 0
  Released s start w =
      (b : Bool) × ((provider.delete (ref_of s) start).0 ≡ ok b)
      × (t : Service) × ((client.patch s (client.helpers.remove_finalizer s service_finalizer)
            (provider.delete (ref_of s) start).1).0
          ≡ ok t)
      × (w
          ≡ (client.patch s (client.helpers.remove_finalizer s service_finalizer)
              (provider.delete (ref_of s) start).1).1)

  remove-Released :
      (s : Service) (b : Bool) (start : W)
      → (provider.delete (ref_of s) start).0 ≡ ok b
      → has_service_finalizer client.helpers s ≡ true
      → (remove_service_finalizer cfg client provider s (provider.delete (ref_of s) start).1).0
        ≡ ok tt
      → Released s start
          (remove_service_finalizer cfg client provider s (provider.delete (ref_of s) start).1).1
  unfolding remove_service_finalizer
  remove-Released s b start deleted there h =
      let m =
        wrap {F = ReconcileError E P} remove_finalizer_failed
          (client.patch s (client.helpers.remove_finalizer s service_finalizer)) in
      let v = (provider.delete (ref_of s) start).1 in
      let opened : remove_service_finalizer cfg client provider s v ≡ (m >>= λ t w. (ok tt, w)) v =
        rw (there, remove_service_finalizer) refl in
      let (t, e, rest, moved) =
        bind-ok m (λ t w. (ok tt, w)) tt v
          (sym (ap (λ (z : Result (ReconcileError E P) (Unit {0}) × W). z.0) opened) ∙ h) in
      (
        b,
        deleted,
        t,
        wrapped-ok remove_finalizer_failed _ t e,
        ap (λ (z : Result (ReconcileError E P) (Unit {0}) × W). z.1) opened ∙ moved,
      )

  deleting-Released :
      (s : Service) (w : W)
      → has_service_finalizer client.helpers s ≡ true
      → (reconcile_deleting cfg client provider s w).0 ≡ ok tt
      → Released s w (reconcile_deleting cfg client provider s w).1
  unfolding reconcile_deleting
  deleting-Released s w there h =
      let m = wrap {F = ReconcileError E P} delete_provider (provider.delete (ref_of s)) in
      let next = λ (b : Bool). remove_service_finalizer cfg client provider s in
      let opened : reconcile_deleting cfg client provider s w ≡ (m >>= next) w =
        rw (there, reconcile_deleting) refl in
      let (b, e, rest, moved) =
        bind-ok m next tt w
          (sym (ap (λ (z : Result (ReconcileError E P) (Unit {0}) × W). z.0) opened) ∙ h) in
      subst (Released s w)
        (sym (ap (λ (z : Result (ReconcileError E P) (Unit {0}) × W). z.1) opened ∙ moved))
        (remove-Released s b w (wrapped-ok delete_provider _ b e) there rest)

  to_deleting :
      (key : NamespacedName) (s : Service) (w : W) (instant : ℕ)
      → s.deletion ≡ some instant
      → reconcile_service cfg client provider key s w
        ≡ by_state cfg client provider key s (some instant) (is_managed s cfg.load_balancer_class) w
  unfolding reconcile_service
  to_deleting key s w instant h =
      ap (λ d. by_state cfg client provider key s d (is_managed s cfg.load_balancer_class) w) h

  got :
      {s : Service} (o : Option Service)
      → Path (Result E (Option Service)) (ok o) (ok (some s))
      → o ≡ some s
  got o h = cc

  -- When the Get of a run answers with a Service that is being deleted and has the finalizer, and
  -- the run returns without an error, the provider has deleted the Service before the object was
  -- written without the finalizer, and that write was the last.
  pub reconcile_releases :
      (key : NamespacedName) (s : Service) (w : W) (instant : ℕ) (v : Verdict)
      → (client.get key w).0 ≡ ok (some s)
      → s.deletion ≡ some instant
      → has_service_finalizer client.helpers s ≡ true
      → (reconcile cfg client provider key w).0 ≡ ok v
      → Released s (client.get key w).1 (reconcile cfg client provider key w).1
  unfolding reconcile
  reconcile_releases key s w instant v there dying has h =
      let m = wrap {F = ReconcileError E P} get_service (client.get key) in
      let (o, e, rest, moved) = bind-ok m (found cfg client provider key) v w h in
      let w' = (client.get key w).1 in
      let is : o ≡ some s = got o (sym (wrapped-ok get_service _ o e) ∙ there) in
      let d = reconcile_deleting cfg client provider s in
      let next : Unit {0} → M W (ReconcileError E P) Verdict = λ u x. (ok finished, x) in
      let path : found cfg client provider key o w' ≡ (d >>= next) w' =
        ap (λ z. found cfg client provider key z w') is ∙ to_deleting key s w' instant dying in
      let (u, f, _, last) =
        bind-ok d next v w'
          (sym (ap (λ (z : Result (ReconcileError E P) Verdict × W). z.0) path) ∙ rest) in
      subst (Released s w')
        (sym (moved ∙ ap (λ (z : Result (ReconcileError E P) Verdict × W). z.1) path ∙ last))
        (deleting-Released s w' has f)
