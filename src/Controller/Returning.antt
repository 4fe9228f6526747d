-- ===== src/Controller/Returning.antt =====
-- Reconcile over an API and a provider on which nothing fails.
pub mod Managed
use k8s_lb_controller.Prelude.{
  ℕ, ◌≡◌, ◌≢◌, refl, sym, ap, ◌∙◌, String, Bool, true, false, not, ◌&&◌, List, [], ◌∷◌, Option,
  none, some, Result, ok, err, M, ◌>>=◌, ◌>>◌, bind_result, pure, arith, if◌then◌else◌, Bool-cases,
  inl, inr,
}
use mathlib.Core.Path.{subst}
use k8s_lb_controller.Netip.{Addr, show_ipv4}
use k8s_lb_controller.Kube.{NamespacedName, Service, EndpointSlice, Ingress}
use k8s_lb_controller.Provider.{ServiceRef}
use k8s_lb_controller.Provider as Provider
use k8s_lb_controller.Ipam.Allocator.{Allocation, AllocateError, pool_empty, no_free_ip, allocate}
use k8s_lb_controller.Ipam.Allocator.Choice.{Outcome, allocate-Outcome}
use k8s_lb_controller.Status.{
  update_status, updated, needs_update, desired_ingress, has_ingress_in_pool,
}
use k8s_lb_controller.Backends.{discover}
use k8s_lb_controller.Controller.Filter.{is_managed, has_service_finalizer, service_finalizer}
use k8s_lb_controller.Controller.Reconcile.{
  Config, Client, ServiceProvider, ReconcileError, Verdict, finished, wrapped, wrap, allocator,
  ref_of, with_service, refreshed, with_finalizer, ensure_service_finalizer,
  remove_service_finalizer, reconcile_deleting, after_clear, reconcile_unmanaged, publish,
  after_allocate, assign, build_provider_service, Run, refresh_service, remove_finalizer_failed,
  delete_provider, add_finalizer_failed, clear_status_failed, ensure_provider, update_status_failed,
  list_slices_failed, list_services_failed, get_service, requeue, refresh_missing, after_finalizer,
  reconcile_managed, by_state, reconcile_service, found, reconcile,
}

-- Every call is answered without an error. `there` says which Services the server has; they stay
-- there through what Reconcile does before it reads them again.
pub record Answering {W E P : Type 0} (client : Client W E) (provider : ServiceProvider W P)
    (there : W → NamespacedName → Bool) : Type 0 where
  pub gets : (k : NamespacedName) (w : W) → (o : Option Service) × ((client.get k w).0 ≡ ok o)
  pub get-there :
      (k : NamespacedName) (w : W)
      → there w k ≡ true
      → (s : Service) × ((client.get k w).0 ≡ ok (some s))
  pub get-found :
      (k : NamespacedName) (w : W) (s : Service)
      → (client.get k w).0 ≡ ok (some s)
      → there (client.get k w).1 k ≡ true
  pub lists : (w : W) → (l : List Service) × ((client.list_services w).0 ≡ ok l)
  pub slices :
      (ns name : String) (w : W)
      → (l : List EndpointSlice) × ((client.list_endpoint_slices ns name w).0 ≡ ok l)
  pub patches : (old new : Service) (w : W) → (s : Service) × ((client.patch old new w).0 ≡ ok s)
  pub patch-there :
      (k : NamespacedName) (s : Service) (w : W)
      → there w k ≡ true
      → there (client.patch s (client.helpers.add_finalizer s service_finalizer) w).1 k ≡ true
  pub statuses :
      (s : Service) (w : W) → (u : Unit {0}) × ((client.update_service_status s w).0 ≡ ok u)
  pub status-there :
      (k : NamespacedName) (s : Service) (w : W)
      → there w k ≡ true
      → there (client.update_service_status s w).1 k ≡ true
  pub ensures : (s : Provider.Service) (w : W) → (b : Bool) × ((provider.ensure s w).0 ≡ ok b)
  pub deletes : (r : ServiceRef) (w : W) → (b : Bool) × ((provider.delete r w).0 ≡ ok b)
  pub delete-there :
      (k : NamespacedName) (r : ServiceRef) (w : W)
      → there w k ≡ true
      → there (provider.delete r w).1 k ≡ true

-- A run returns.
abbrev pub Returns : {W E A : Type 0} → Result E A × W → Type 0
Returns {W} {E} {A} x = (a : A) × (x.0 ≡ ok a)

pub bind-at :
    {W E A B : Type 0} (r : Result E A) (f : A → M W E B) (w : W) (a : A)
    → r ≡ ok a
    → Returns (f a w)
    → Returns (bind_result r f w)
bind-at r f w a h k = subst (λ z. Returns (bind_result z f w)) (sym h) k

-- A wrapped call that returns, and what follows it.
pub step :
    {W E F A B : Type 0} (f : E → F) (m : M W E A) (g : A → M W F B) (w : W) (a : A)
    → (m w).0 ≡ ok a
    → Returns (g a (m w).1)
    → Returns ((wrap f m >>= g) w)
step f m g w a h k = bind-at (wrapped f (m w).0) g (m w).1 a (ap (wrapped f) h) k

updated-returns :
    {W E : Type 0} (s : Service) (r : Result E (Unit {0})) (w : W) (u : Unit {0})
    → r ≡ ok u
    → Returns (updated s r w)
updated-returns s (ok _) w u h = ((true, s), refl)
updated-returns s (err e) w u h = absurd (cc)

updated-state :
    {W E : Type 0} (s : Service) (r : Result E (Unit {0})) (w : W) → (updated s r w).1 ≡ w
updated-state s (ok _) w = refl
updated-state s (err e) w = refl

module _ {W E P : Type 0} (cfg : Config) (client : Client W E) (provider : ServiceProvider W P)
    (there : W → NamespacedName → Bool) (answers : Answering client provider there) where
  pub update-returns :
      (s : Service) (desired : List Ingress) (w : W)
      → Returns (update_status client.update_service_status s desired w)
  unfolding update_status
  update-returns s desired w = elim (Bool-cases (needs_update s desired)) [
    | inr n ↦ rw n ((false, s), refl)
    | inl e ↦
        let next = record s { ingress = desired } in
        let (u, h) = answers.statuses next w in
        rw e (
          updated-returns next (client.update_service_status next w).0
            (client.update_service_status next w).1 u h)
  ]

  update-there :
      (s : Service) (desired : List Ingress) (k : NamespacedName) (w : W)
      → there w k ≡ true
      → there (update_status client.update_service_status s desired w).1 k ≡ true
  unfolding update_status
  update-there s desired k w h = elim (Bool-cases (needs_update s desired)) [
    | inr n ↦ rw n h
    | inl e ↦
        let next = record s { ingress = desired } in
        rw e (
          subst (λ v. there v k ≡ true)
            (sym (
              updated-state next (client.update_service_status next w).0
                (client.update_service_status next w).1))
            (answers.status-there k next w h))
  ]

  remove-returns :
      (s : Service) (w : W) → Returns (remove_service_finalizer cfg client provider s w)
  unfolding remove_service_finalizer
  remove-returns s w = elim (Bool-cases (has_service_finalizer client.helpers s)) [
    | inr n ↦ rw n (tt, refl)
    | inl e ↦
        let new = client.helpers.remove_finalizer s service_finalizer in
        let (t, h) = answers.patches s new w in
        rw e (step remove_finalizer_failed (client.patch s new) (λ t. pure tt) w t h (tt, refl))
  ]

  pub deleting-returns :
      (s : Service) (w : W) → Returns (reconcile_deleting cfg client provider s w)
  unfolding reconcile_deleting
  deleting-returns s w = elim (Bool-cases (has_service_finalizer client.helpers s)) [
    | inr n ↦ rw n (tt, refl)
    | inl e ↦
        let (b, h) = answers.deletes (ref_of s) w in
        rw e (
          step delete_provider (provider.delete (ref_of s))
            (λ b. remove_service_finalizer cfg client provider s) w b h
            (remove-returns s (provider.delete (ref_of s) w).1))
  ]

  pub refreshed-returns :
      {A : Type 0} (b : Bool) (s : Service) (key : NamespacedName)
      (next : Service → Run cfg client provider A) (w : W)
      → there w key ≡ true
      → ((t : Service) (v : W) → Returns (next t v))
      → Returns (refreshed cfg client provider b s key next w)
  unfolding refreshed
  refreshed-returns false s key next w h k = k s w
  refreshed-returns true s key next w h k =
      let (t, e) = answers.get-there key w h in
      step refresh_service (client.get key) (with_service cfg client provider next) w (some t) e
        (k t (client.get key w).1)

  clear-returns :
      (key : NamespacedName) (c : Bool × Service) (w : W)
      → there w key ≡ true
      → Returns (after_clear cfg client provider key c w)
  clear-returns key (cleared, s) w h = elim (Bool-cases (has_service_finalizer client.helpers s)) [
    | inr n ↦ rw n (tt, refl)
    | inl e ↦ rw e (
        refreshed-returns cleared s key (remove_service_finalizer cfg client provider) w h
          remove-returns)
  ]

  pub unmanaged-returns :
      (key : NamespacedName) (s : Service) (w : W)
      → there w key ≡ true
      → Returns (reconcile_unmanaged cfg client provider key s w)
  unfolding reconcile_unmanaged
  unmanaged-returns key s w h =
      elim (Bool-cases (
        not (has_service_finalizer client.helpers s)
        && not (has_ingress_in_pool s.ingress cfg.ip_pool))) [
          | inl e ↦ rw e (tt, refl)
          | inr n ↦
              let w' = (provider.delete (ref_of s) w).1 in
              let (b, e) = answers.deletes (ref_of s) w in
              let (c, u) = update-returns s [] w' in
              let clear = update_status client.update_service_status s [] in
              rw n (
                step delete_provider (provider.delete (ref_of s))
                  (λ b. wrap clear_status_failed clear >>= after_clear cfg client provider key) w b
                  e
                  (step clear_status_failed clear (after_clear cfg client provider key) w' c u (
                    clear-returns key c (clear w').1
                      (update-there s [] key w' (answers.delete-there key (ref_of s) w h)))))
        ]
