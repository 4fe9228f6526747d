-- ===== src/Dataplane/Engine/Methods.antt =====
-- Ensure and Delete as operations on the map of desired Services.
use k8s_lb_controller.Prelude.{
  ◌≡◌, sym, ◌∙◌, ap, Bool, true, false, List, Option, none, some, ok, err, Result-cases, Bool-cases,
  inl, inr, if◌then◌else◌,
}
use k8s_lb_controller.Prelude.Order.{same}
use k8s_lb_controller.Netip.{Addr}
use k8s_lb_controller.Provider.{Service, ServiceRef, ref, ref_order}
use k8s_lb_controller.Dataplane.Store.{Store, list, normalize_service, clone, get, is_some}
use k8s_lb_controller.Dataplane.Store.Laws
use k8s_lb_controller.Dataplane.Store.Laws.{IsCanonical, upsert-IsCanonical, get-upsert, get-delete}
use k8s_lb_controller.Dataplane.Store.Cloning.{clone-IsCanonical}
use k8s_lb_controller.Dataplane.ExternalIps.Sets.{wanted}
use k8s_lb_controller.Dataplane.Render.Validate.{InvalidService, validate_service}
use k8s_lb_controller.Dataplane.Host.{IpManager, ConfigApplier, HostLaws}
use k8s_lb_controller.Dataplane.Engine.{
  Engine, Step, invalid, list_ips, desired_ips, attach_ip, apply_config, detach_ip, ensure, delete,
  reconcile_locked,
}
use k8s_lb_controller.Dataplane.Engine.Stores.{
  ensured, deleted, get-ensured, get-deleted, gone, outcome, ensure-valid, ensure-invalid,
  delete-present, delete-absent, ensure-keeps, delete-keeps,
}
use k8s_lb_controller.Dataplane.Engine.Reconcile.{Outcome}
use mathlib.Core.Path.{subst}

module _ {W E F C : Type 0} (ipm : IpManager W E) (applier : ConfigApplier W F)
    (attached : W → Addr → Bool) (active : W → C) (rendered : List Service → C)
    (laws : HostLaws ipm applier attached active rendered) where
  -- What a reconciliation that returned has established for its store.
  abbrev pub Settled : Store → Engine W → Type 0
  Settled next e =
      (e.store ≡ next)
      × ((a : Addr) → attached e.host a ≡ wanted (list e.store) a)
      × (active e.host ≡ rendered (list e.store))

  settled :
      (old next : Store) (start : W) (s : Step W E F) (c : Bool)
      → s.0 ≡ ok c
      → Outcome ipm applier attached active rendered laws old next start s
      → Settled next s.1
  settled old next start (ok d, e) c h o = (o.0, λ a. o.1 a ∙ rw (o.0), o.2 ∙ rw (o.0))
  settled old next start (err x, e) c h o = cc

  -- The state after a call that returned: what is stored, attached and active.
  abbrev pub Serves : (ServiceRef → Option Service) → Engine W → Type 0
  Serves content e =
      ((r : ServiceRef) → get e.store r ≡ content r)
      × ((a : Addr) → attached e.host a ≡ wanted (list e.store) a)
      × (active e.host ≡ rendered (list e.store))

  serves :
      (next : Store) (e : Engine W) (c : Bool) (content : ServiceRef → Option Service)
      (t : Step W E F)
      → t ≡ reconcile_locked ipm applier next e
      → t.0 ≡ ok c
      → ((r : ServiceRef) → get next r ≡ content r)
      → Serves content t.1
  serves next e c content t same h has =
      let (store, set, config) = settled e.store next e.host t c h (
        subst (Outcome ipm applier attached active rendered laws e.store next e.host) (sym same)
          (outcome ipm applier attached active rendered laws next e)) in
      (λ r. ap (λ (st : Store). get st r) store ∙ has r, set, config)

  -- Over a host that keeps its laws, an Ensure on a canonical store that returns: the Service's
  -- canonical form is under its reference and every other Service is untouched, the attached
  -- addresses are those that the stored Services ask for, and the active configuration is theirs.
  pub ensure-ok :
      (s : Service) (e : Engine W) (c : Bool)
      → IsCanonical e.store
      → (ensure ipm applier s e).0 ≡ ok c
      → Serves
          (λ r. if same (ref s) r then some (normalize_service s) else get e.store r)
          (ensure ipm applier s e).1
  ensure-ok s e c can h = elim (Result-cases (validate_service (normalize_service s))) [
    | inr (x, v) ↦ absurd (
        fails (ensure ipm applier s e) x
          (ensure-invalid ipm applier attached active rendered laws s e x v) h)
    | inl (u, v) ↦
        serves (ensured e.store s) e c _ (ensure ipm applier s e)
          (ensure-valid ipm applier attached active rendered laws s e u v) h
          (λ r. get-ensured e.store s r can)
  ]
    where
      fails : (t : Step W E F) (x : InvalidService) → t ≡ (err (invalid x), e) → t.0 ≡ ok c → ⊥
      fails t x p q = cc (ap (λ (z : Step W E F). z.0) p)

  -- Over a host that keeps its laws, a Delete from a canonical store of a Service in it that
  -- returns: the Service is gone and every other is untouched, the attached addresses are those
  -- that the stored Services ask for, and the active configuration is theirs.
  pub delete-ok :
      (r : ServiceRef) (e : Engine W) (c : Bool)
      → IsCanonical e.store
      → is_some (get e.store r) ≡ true
      → (delete ipm applier r e).0 ≡ ok c
      → Serves (λ q. if same r q then none else get e.store q) (delete ipm applier r e).1
  delete-ok r e c can there h =
      serves (deleted e.store r) e c _ (delete ipm applier r e)
        (delete-present ipm applier attached active rendered laws r e there) h
        (λ q. get-deleted e.store r q can)

  -- Over a host that keeps its laws, Ensure keeps the store one of canonical Services under their
  -- own references, also when it fails.
  pub ensure-IsCanonical :
      (s : Service) (e : Engine W)
      → IsCanonical e.store
      → IsCanonical (ensure ipm applier s e).1.store
  ensure-IsCanonical s e can =
      ensure-keeps ipm applier attached active rendered laws IsCanonical s e can (λ u v.
        upsert-IsCanonical (clone e.store) (normalize_service s) (clone-IsCanonical e.store can))

  -- Over a host that keeps its laws, Delete keeps the store one of canonical Services under their
  -- own references, also when it fails.
  pub delete-IsCanonical :
      (r : ServiceRef) (e : Engine W)
      → IsCanonical e.store
      → IsCanonical (delete ipm applier r e).1.store
  delete-IsCanonical r e can =
      delete-keeps ipm applier attached active rendered laws IsCanonical r e can
        (Laws.delete-IsCanonical (clone e.store) r (clone-IsCanonical e.store can))

  left_store :
      (old next : Store) (start : W) (s : Step W E F) (x : Addr) (fault : E)
      → s.0 ≡ err (detach_ip x fault)
      → Outcome ipm applier attached active rendered laws old next start s
      → s.1.store ≡ next
  left_store old next start (ok c, e) x fault h o = cc
  left_store old next start (err (detach_ip y f), e) x fault h o = o.0
  left_store old next start (err (invalid y), e) x fault h o = absurd o
  left_store old next start (err (list_ips y), e) x fault h o = cc
  left_store old next start (err (desired_ips y), e) x fault h o = cc
  left_store old next start (err (attach_ip y f l), e) x fault h o = cc
  left_store old next start (err (apply_config f l), e) x fault h o = cc

  -- Over a host that keeps its laws, a Delete from a canonical store that failed to detach an
  -- address has already taken the Service out of the store. So the next Delete of it finds nothing
  -- to do: it returns without an error and changes nothing.
  pub delete_after_detach_failure :
      (r : ServiceRef) (e : Engine W) (x : Addr) (fault : E)
      → IsCanonical e.store
      → (delete ipm applier r e).0 ≡ err (detach_ip x fault)
      → delete ipm applier r (delete ipm applier r e).1 ≡ (ok false, (delete ipm applier r e).1)
  delete_after_detach_failure r e x fault can h = elim (Bool-cases (is_some (get e.store r))) [
    | inr absent ↦ absurd (
        cc (
          ap (λ (z : Step W E F). z.0)
            (delete-absent ipm applier attached active rendered laws r e absent)))
    | inl there ↦
        delete-absent ipm applier attached active rendered laws r (delete ipm applier r e).1 (
          ap (λ (st : Store). is_some (get st r))
            (left_store e.store (deleted e.store r) e.host (delete ipm applier r e) x fault h (
              subst
                (Outcome ipm applier attached active rendered laws e.store (deleted e.store r)
                  e.host)
                (sym (delete-present ipm applier attached active rendered laws r e there))
                (outcome ipm applier attached active rendered laws (deleted e.store r) e)))
          ∙ gone e.store r can)
  ]
