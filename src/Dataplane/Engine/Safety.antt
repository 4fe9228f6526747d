-- ===== src/Dataplane/Engine/Safety.antt =====
-- What a reconciliation that fails leaves behind.
use k8s_lb_controller.Prelude.{◌≡◌, ◌∙◌, Bool, true, false, List, [], ok, err, ◌==◌, nat_eq, arith}
use k8s_lb_controller.Netip.{Addr}
use k8s_lb_controller.Provider.{Service}
use k8s_lb_controller.Dataplane.Store.{Store, list}
use k8s_lb_controller.Dataplane.ExternalIps.Sets.{wanted}
use k8s_lb_controller.Dataplane.Host.{IpManager, ConfigApplier, HostLaws}
use k8s_lb_controller.Dataplane.Engine.{
  Engine, Step, invalid, list_ips, desired_ips, attach_ip, apply_config, detach_ip,
  reconcile_locked,
}
use k8s_lb_controller.Dataplane.Engine.Reconcile.{Outcome, reconcile_locked-Outcome}

module _ {W E F C : Type 0} (ipm : IpManager W E) (applier : ConfigApplier W F)
    (attached : W → Addr → Bool) (active : W → C) (rendered : List Service → C)
    (laws : HostLaws ipm applier attached active rendered) where
  outcome :
      (next : Store) (e : Engine W)
      → Outcome ipm applier attached active rendered laws e.store next e.host
          (reconcile_locked ipm applier next e)
  outcome next e = reconcile_locked-Outcome ipm applier attached active rendered laws next e

  kept :
      (old next : Store) (start : W) (s : Step W E F) (a : Addr)
      → attached start a ≡ true
      → wanted (list next) a ≡ true
      → Outcome ipm applier attached active rendered laws old next start s
      → attached s.1.host a ≡ true
  kept old next start (ok c, e) a on want o = o.1 a ∙ want
  kept old next start (err (invalid x), e) a on want o = absurd o
  kept old next start (err (list_ips x), e) a on want o = o.1 a ∙ on
  kept old next start (err (desired_ips x), e) a on want o = o.1 a ∙ on
  kept old next start (err (attach_ip x f l), e) a on want o = o.2 a on want
  kept old next start (err (apply_config f l), e) a on want o = o.2 a on want
  kept old next start (err (detach_ip x f), e) a on want o = o.1 a want

  -- Over a host that keeps its laws, no reconciliation, also none that fails at any step or in its
  -- rollback, detaches an address that was attached and that the new store asks for.
  pub reconcile_never_drops :
      (next : Store) (e : Engine W) (a : Addr)
      → attached e.host a ≡ true
      → wanted (list next) a ≡ true
      → attached (reconcile_locked ipm applier next e).1.host a ≡ true
  reconcile_never_drops next e a on want =
      kept e.store next e.host (reconcile_locked ipm applier next e) a on want (outcome next e)

  restored_apply :
      (old next : Store) (start : W) (s : Step W E F) (f : F) (a : Addr)
      → s.0 ≡ err (apply_config f [])
      → Outcome ipm applier attached active rendered laws old next start s
      → (s.1.store ≡ old) × (attached s.1.host a ≡ attached start a)
  restored_apply old next start (ok c, e) f a h o = cc
  restored_apply old next start (err (invalid x), e) f a h o = absurd o
  restored_apply old next start (err (list_ips x), e) f a h o = cc
  restored_apply old next start (err (desired_ips x), e) f a h o = cc
  restored_apply old next start (err (attach_ip x g l), e) f a h o = cc
  restored_apply old next start (err (apply_config g l), e) f a h o = (o.0, o.1 (ground arith) a)
  restored_apply old next start (err (detach_ip x g), e) f a h o = cc

  -- Over a host that keeps its laws, a reconciliation whose configuration could not be applied,
  -- and whose rollback met no error, keeps the old store and attaches the addresses that were
  -- attached before it, no more and no fewer.
  pub reconcile_apply_failure :
      (next : Store) (e : Engine W) (f : F) (a : Addr)
      → (reconcile_locked ipm applier next e).0 ≡ err (apply_config f [])
      → ((reconcile_locked ipm applier next e).1.store ≡ e.store)
        × (attached (reconcile_locked ipm applier next e).1.host a ≡ attached e.host a)
  reconcile_apply_failure next e f a h =
      restored_apply e.store next e.host (reconcile_locked ipm applier next e) f a h
        (outcome next e)

  restored_attach :
      (old next : Store) (start : W) (s : Step W E F) (x : Addr) (fault : E) (a : Addr)
      → s.0 ≡ err (attach_ip x fault [])
      → (x == a) ≡ false
      → Outcome ipm applier attached active rendered laws old next start s
      → (s.1.store ≡ old) × (attached s.1.host a ≡ attached start a)
  restored_attach old next start (ok c, e) x fault a h n o = cc
  restored_attach old next start (err (invalid y), e) x fault a h n o = absurd o
  restored_attach old next start (err (list_ips y), e) x fault a h n o = cc
  restored_attach old next start (err (desired_ips y), e) x fault a h n o = cc
  restored_attach old next start (err (attach_ip y g l), e) x fault a h n o =
      (o.0, o.1 (ground arith) a (ground arith))
  restored_attach old next start (err (apply_config g l), e) x fault a h n o = cc
  restored_attach old next start (err (detach_ip y g), e) x fault a h n o = cc

  -- Over a host that keeps its laws, a reconciliation that could not attach an address, and whose
  -- rollback met no error, keeps the old store and has every other address attached just as before
  -- it.
  pub reconcile_attach_failure :
      (next : Store) (e : Engine W) (x : Addr) (fault : E) (a : Addr)
      → (reconcile_locked ipm applier next e).0 ≡ err (attach_ip x fault [])
      → (x == a) ≡ false
      → ((reconcile_locked ipm applier next e).1.store ≡ e.store)
        × (attached (reconcile_locked ipm applier next e).1.host a ≡ attached e.host a)
  reconcile_attach_failure next e x fault a h n =
      restored_attach e.store next e.host (reconcile_locked ipm applier next e) x fault a h n
        (outcome next e)
