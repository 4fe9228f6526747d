-- ===== src/Dataplane/Engine/Stores.antt =====
-- The stores that Ensure and Delete ask for, and the one that they leave.
use k8s_lb_controller.Prelude.{
  ◌≡◌, sym, Bool, true, false, List, ◌⊎◌, none, some, ok, err, arith, Result-cases, Bool-cases, inl,
  inr, if◌then◌else◌,
}
use k8s_lb_controller.Prelude.Order.{same}
use k8s_lb_controller.Netip.{Addr}
use k8s_lb_controller.Provider.{Service, ServiceRef, ref, ref_order}
use k8s_lb_controller.Dataplane.Store.{Store, list, normalize_service, clone, upsert, get, is_some}
use k8s_lb_controller.Dataplane.Store as Store
use k8s_lb_controller.Dataplane.Store.Normal.{normalize_service_idem, ref-normalize_service}
use k8s_lb_controller.Dataplane.Store.Laws.{IsCanonical, get-upsert, get-delete}
use k8s_lb_controller.Dataplane.Store.Cloning.{clone-IsCanonical, get-clone}
use k8s_lb_controller.Dataplane.Render.Validate.{InvalidService, validate_service}
use k8s_lb_controller.Dataplane.Host.{IpManager, ConfigApplier, HostLaws}
use k8s_lb_controller.Dataplane.Engine.{
  Engine, Step, invalid, list_ips, desired_ips, attach_ip, apply_config, detach_ip, ensure, delete,
  reconcile_locked,
}
use k8s_lb_controller.Dataplane.Engine.Reconcile.{Outcome, reconcile_locked-Outcome}
use mathlib.Core.Path.{subst}

-- The store that Ensure asks for, and the one that Delete asks for.
abbrev pub ensured : Store → Service → Store
ensured st s = upsert (clone st) (normalize_service s)

abbrev pub deleted : Store → ServiceRef → Store
deleted st r = (Store.delete (clone st) r).0

pub get-ensured :
    (st : Store) (s : Service) (r : ServiceRef)
    → IsCanonical st
    → get (ensured st s) r ≡ (if same (ref s) r then some (normalize_service s) else get st r)
get-ensured st s r c = ground (
  arith,
  get-upsert (clone st) (normalize_service s) r,
  normalize_service_idem s,
  get-clone st r c,
  ref-normalize_service s,
)

pub get-deleted :
    (st : Store) (r q : ServiceRef)
    → IsCanonical st
    → get (deleted st r) q ≡ (if same r q then none else get st q)
get-deleted st r q c =
    ground (arith, get-delete (clone st) r q (clone-IsCanonical st c), get-clone st q c)

pub gone : (st : Store) (r : ServiceRef) → IsCanonical st → is_some (get (deleted st r) r) ≡ false
gone st r can = ground (arith, get-deleted st r r can, ref_order.cmp_refl r)

module _ {W E F C : Type 0} (ipm : IpManager W E) (applier : ConfigApplier W F)
    (attached : W → Addr → Bool) (active : W → C) (rendered : List Service → C)
    (laws : HostLaws ipm applier attached active rendered) where
  pub outcome :
      (next : Store) (e : Engine W)
      → Outcome ipm applier attached active rendered laws e.store next e.host
          (reconcile_locked ipm applier next e)
  outcome next e = reconcile_locked-Outcome ipm applier attached active rendered laws next e

  store_cases :
      (old next : Store) (start : W) (s : Step W E F)
      → Outcome ipm applier attached active rendered laws old next start s
      → (s.1.store ≡ old) ⊎ (s.1.store ≡ next)
  store_cases old next start (ok c, e) o = inr o.0
  store_cases old next start (err (invalid x), e) o = absurd o
  store_cases old next start (err (list_ips x), e) o = inl o.0
  store_cases old next start (err (desired_ips x), e) o = inl o.0
  store_cases old next start (err (attach_ip x f l), e) o = inl o.0
  store_cases old next start (err (apply_config f l), e) o = inl o.0
  store_cases old next start (err (detach_ip x f), e) o = inr o.0

  pub ensure-valid :
      (s : Service) (e : Engine W) (u : Unit {0})
      → validate_service (normalize_service s) ≡ ok u
      → ensure ipm applier s e ≡ reconcile_locked ipm applier (ensured e.store s) e
  unfolding ensure
  ensure-valid s e u v = rw (v, ensure)

  pub ensure-invalid :
      (s : Service) (e : Engine W) (x : InvalidService)
      → validate_service (normalize_service s) ≡ err x
      → ensure ipm applier s e ≡ (err (invalid x), e)
  unfolding ensure
  ensure-invalid s e x v = rw (v, ensure)

  pub delete-present :
      (r : ServiceRef) (e : Engine W)
      → is_some (get e.store r) ≡ true
      → delete ipm applier r e ≡ reconcile_locked ipm applier (deleted e.store r) e
  unfolding delete
  delete-present r e h = rw (h, delete)

  pub delete-absent :
      (r : ServiceRef) (e : Engine W)
      → is_some (get e.store r) ≡ false
      → delete ipm applier r e ≡ (ok false, e)
  unfolding delete
  delete-absent r e h = rw (h, delete)

  kept :
      (P : Store → Type 0) (next : Store) (e : Engine W) (t : Step W E F)
      → t ≡ reconcile_locked ipm applier next e
      → P e.store
      → P next
      → P t.1.store
  kept P next e t same old new =
      elim (store_cases e.store next e.host t (
        subst (Outcome ipm applier attached active rendered laws e.store next e.host) (sym same)
          (outcome next e))) [ inl p ↦ subst P (sym p) old | inr p ↦ subst P (sym p) new ]

  -- What holds of the store and of the one that Ensure asks for holds of the store it leaves.
  pub ensure-keeps :
      (P : Store → Type 0) (s : Service) (e : Engine W)
      → P e.store
      → ((u : Unit {0}) → validate_service (normalize_service s) ≡ ok u → P (ensured e.store s))
      → P (ensure ipm applier s e).1.store
  ensure-keeps P s e old new = elim (Result-cases (validate_service (normalize_service s))) [
    | inr (x, v) ↦ subst (λ (t : Step W E F). P t.1.store) (sym (ensure-invalid s e x v)) old
    | inl (u, v) ↦
        kept P (ensured e.store s) e (ensure ipm applier s e) (ensure-valid s e u v) old (new u v)
  ]

  -- What holds of the store and of the one that Delete asks for holds of the store it leaves.
  pub delete-keeps :
      (P : Store → Type 0) (r : ServiceRef) (e : Engine W)
      → P e.store
      → P (deleted e.store r)
      → P (delete ipm applier r e).1.store
  delete-keeps P r e old new = elim (Bool-cases (is_some (get e.store r))) [
    | inr h ↦ subst (λ (t : Step W E F). P t.1.store) (sym (delete-absent r e h)) old
    | inl h ↦ kept P (deleted e.store r) e (delete ipm applier r e) (delete-present r e h) old new
  ]
