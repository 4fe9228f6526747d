-- ===== src/Controller/Reads.antt =====
-- What a run of Reconcile reads, and when it adds no finalizer.
use k8s_lb_controller.Prelude.{
  ◌≡◌, refl, sym, ◌∙◌, Bool, true, false, List, [], ◌∷◌, Option, none, some, Result, ok, err, ◌==◌,
  nat_eq, string_eq, All, arith, Bool-cases, inl, inr,
}
use k8s_lb_controller.Kube.{NamespacedName, Service, name_eq}
use k8s_lb_controller.Controller.Filter.{is_managed, has_service_finalizer, service_finalizer}
use k8s_lb_controller.Controller.Reconcile.{
  Config, Client, ServiceProvider, ReconcileError, wrap, ensure_service_finalizer,
  reconcile_managed, reconcile_service, add_finalizer_failed, with_finalizer, by_state,
}
use k8s_lb_controller.Controller.Inversion.{bind-ok}
use mathlib.Core.Path.{ap₂}
use mathlib.Core.Bool.{false≢true}

pub flipped : (a b : NamespacedName) → (a == b) ≡ false → (b == a) ≡ false
flipped a b n = elim (Bool-cases (b == a)) [
  | inr e ↦ e
  | inl e ↦
      absurd (false≢true (sym n ∙ (name_eq.equal_iff a b).1 (sym ((name_eq.equal_iff b a).0 e))))
]

-- What holds of each element by two facts that hold of each.
pub All-both :
    {A : Type 0} {P Q R : A → Type 0} (l : List A)
    → ((x : A) → P x → Q x → R x)
    → All P l
    → All Q l
    → All R l
All-both [] f p q = tt
All-both (x ∷ l) f (p, ps) (q, qs) = (f x p q, All-both l f ps qs)

module _ {W E P : Type 0} (cfg : Config) (client : Client W E)
    (provider : ServiceProvider W P) where
  -- The states in which a run reads the Services: the first Get, the Get after the finalizer has
  -- been added, and the List.
  abbrev pub later_reads : NamespacedName → Result E (Option Service) → W → List W
  later_reads key (err e) w = []
  later_reads key (ok none) w = []
  later_reads key (ok (some s)) w =
      let v = (ensure_service_finalizer cfg client provider s w).1 in v ∷ (client.get key v).1 ∷ []

  abbrev pub read_states : NamespacedName → W → List W
  read_states key w = w ∷ later_reads key (client.get key w).0 (client.get key w).1

  with_finalizer_same :
      (s : Service) (there : Bool) (w : W) (p : Bool × Service)
      → (with_finalizer cfg client provider s there w).0 ≡ ok p
      → p.0 ≡ false
      → (p.1 ≡ s) × ((with_finalizer cfg client provider s there w).1 ≡ w)
  with_finalizer_same s true w p h fresh = (ground arith, refl)
  with_finalizer_same s false w p h fresh =
      let m =
        wrap {F = ReconcileError E P} add_finalizer_failed
          (client.patch s (client.helpers.add_finalizer s service_finalizer)) in
      let (u, e, rest, moved) = bind-ok m (λ u v. (ok (true, u), v)) p w h in
      absurd (ground (arith, rest))

  pub ensure_finalizer_same :
      (s : Service) (w : W) (p : Bool × Service)
      → (ensure_service_finalizer cfg client provider s w).0 ≡ ok p
      → p.0 ≡ false
      → (p.1 ≡ s) × ((ensure_service_finalizer cfg client provider s w).1 ≡ w)
  unfolding ensure_service_finalizer
  ensure_finalizer_same s w p h fresh =
      with_finalizer_same s (has_service_finalizer client.helpers s) w p h fresh

  pub to_managed :
      (key : NamespacedName) (s : Service) (w : W)
      → s.deletion ≡ none
      → is_managed s cfg.load_balancer_class ≡ true
      → reconcile_service cfg client provider key s w
        ≡ reconcile_managed cfg client provider key s w
  unfolding reconcile_service
  to_managed key s w alive managed =
      ap₂ (λ d m. by_state cfg client provider key s d m w) alive managed
