-- ===== src/Dataplane/Engine/Reconcile.antt =====
-- What one reconciliation of the host does, on every path.
use k8s_lb_controller.Prelude.{
  ◌≡◌, refl, ◌∙◌, Bool, true, false, not, ◌&&◌, ◌||◌, List, [], Result, ok, err, ◌==◌, nat_eq,
  contains, arith,
}
use k8s_lb_controller.Netip.{Addr}
use k8s_lb_controller.Provider.{Service}
use k8s_lb_controller.Dataplane.Store.{Store, list}
use k8s_lb_controller.Dataplane.ExternalIps.{
  DesiredIpError, desired_external_ips, diff_external_ips,
}
use k8s_lb_controller.Dataplane.ExternalIps.Sets.{
  wanted, contains-diff, contains-desired_external_ips,
}
use k8s_lb_controller.Dataplane.Host.{IpManager, ConfigApplier, HostLaws}
use k8s_lb_controller.Dataplane.Engine.{
  Engine, Step, invalid, list_ips, desired_ips, attach_ip, apply_config, detach_ip, attach_all,
  detach_all, committed, commit, give_up, after_apply, after_attach, after_desired, after_list,
  reconcile_locked,
}
use k8s_lb_controller.Dataplane.Engine.Attaching.{
  Added, AddedBut, AttachPost, DetachPost, attach_all-post, detach_all-post, rollback-set,
  rollback-keeps,
}
use k8s_lb_controller.Dataplane.Engine.Configuration.{detach_all-active}

module _ {W E F C : Type 0} (ipm : IpManager W E) (applier : ConfigApplier W F)
    (attached : W → Addr → Bool) (active : W → C) (rendered : List Service → C)
    (laws : HostLaws ipm applier attached active rendered) (old next : Store) (start : W) where
  abbrev want : Addr → Bool
  want = wanted (list next)

  -- An address that was attached and is wanted is attached.
  abbrev pub Kept : W → Type 0
  Kept w = (a : Addr) → attached start a ≡ true → want a ≡ true → attached w a ≡ true

  -- The addresses are those at the start.
  abbrev pub Restored : W → Type 0
  Restored w = (a : Addr) → attached w a ≡ attached start a

  abbrev pub RestoredBut : Addr → W → Type 0
  RestoredBut x w = (a : Addr) → (x == a) ≡ false → attached w a ≡ attached start a

  abbrev pub Outcome : Step W E F → Type 0
  Outcome (ok changed, e) =
      (e.store ≡ next)
      × ((a : Addr) → attached e.host a ≡ want a)
      × (active e.host ≡ rendered (list next))
  Outcome (err (invalid x), e) = ⊥
  Outcome (err (list_ips x), e) = (e.store ≡ old) × Restored e.host
  Outcome (err (desired_ips x), e) = (e.store ≡ old) × Restored e.host
  Outcome (err (attach_ip x fault errors), e) =
      (e.store ≡ old) × (errors ≡ [] → RestoredBut x e.host) × Kept e.host
  Outcome (err (apply_config fault errors), e) =
      (e.store ≡ old) × (errors ≡ [] → Restored e.host) × Kept e.host
  Outcome (err (detach_ip x fault), e) =
      (e.store ≡ next)
      × ((a : Addr) → want a ≡ true → attached e.host a ≡ true)
      × (active e.host ≡ rendered (list next))

  module _ (new stale : List Addr)
      (new-lem : (a : Addr) → contains new a ≡ (want a && not (attached start a)))
      (stale-lem : (a : Addr) → contains stale a ≡ (attached start a && not (want a))) where
    committed-Outcome :
        (w w' : W) (r : Result (Addr × E) Bool)
        → ((a : Addr) → attached w a ≡ (attached start a || want a))
        → active w' ≡ rendered (list next)
        → DetachPost ipm applier attached laws.ips w stale (r, w')
        → Outcome (committed ipm applier next r w')
    committed-Outcome w w' (ok c) set config p =
        (refl, λ a. ground (arith, p a, set a, stale-lem a), config)
    committed-Outcome w w' (err (x, e)) set config p =
        (refl, λ a h. ground (arith, p a, set a, stale-lem a), config)

    commit-Outcome :
        (changed : Bool) (w : W)
        → ((a : Addr) → attached w a ≡ (attached start a || want a))
        → active w ≡ rendered (list next)
        → Outcome (commit ipm applier next stale changed w)
    unfolding commit
    commit-Outcome changed w set config =
        let d = detach_all ipm applier stale changed w in
        committed-Outcome w d.1 d.0 set
          (detach_all-active ipm applier attached active rendered laws stale changed w ∙ config)
          (detach_all-post ipm applier attached laws.ips stale changed w)

    give_up_attach :
        (l : List Addr) (x : Addr) (e : E) (w : W)
        → AddedBut ipm applier attached laws.ips start w l x
        → contains new x ≡ true
        → Outcome (give_up ipm applier old l (attach_ip x e) w)
    unfolding give_up
    give_up_attach l x e w v i = (
      refl,
      λ none_failed a other. ground (
        arith,
        rollback-set ipm applier attached laws.ips l w a none_failed,
        v.set a other,
        v.fresh a,
      ),
      λ a on wants. ground (
        arith,
        rollback-keeps ipm applier attached laws.ips l w a,
        v.set a,
        v.fresh a,
        new-lem x,
      ),
    )

    give_up_apply :
        (l : List Addr) (f : F) (w w' : W)
        → Added ipm applier attached laws.ips start w l
        → ((a : Addr) → attached w' a ≡ attached w a)
        → Outcome (give_up ipm applier old l (apply_config f) w')
    unfolding give_up
    give_up_apply l f w w' v same = (
      refl,
      λ none_failed a. ground (
        arith,
        rollback-set ipm applier attached laws.ips l w' a none_failed,
        v.set a,
        v.fresh a,
        same a,
      ),
      λ a on wants.
          ground (
            arith,
            rollback-keeps ipm applier attached laws.ips l w' a,
            v.set a,
            v.fresh a,
            same a,
          ),
    )

    after_apply-Outcome :
        (l : List Addr) (r : Result F Bool) (w w' : W)
        → Added ipm applier attached laws.ips start w l
        → ((a : Addr) → (attached start a || contains l a) ≡ (attached start a || want a))
        → ((a : Addr) → attached w' a ≡ attached w a)
        → ((b : Bool) → r ≡ ok b → active w' ≡ rendered (list next))
        → Outcome (after_apply ipm applier old next stale l r w')
    unfolding after_apply
    after_apply-Outcome l (err f) w w' v all same config = give_up_apply l f w w' v same
    after_apply-Outcome l (ok b) w w' v all same config =
        commit-Outcome _ w' (λ a. same a ∙ v.set a ∙ all a) (config b refl)

    after_attach-Outcome :
        (r : Result (Addr × E × List Addr) (List Addr)) (w : W)
        → AttachPost ipm applier attached laws.ips start [] new (r, w)
        → Outcome (after_attach ipm applier old next stale r w)
    unfolding after_attach contains
    after_attach-Outcome (err (x, e, l)) w (v, i) = give_up_attach l x e w v i
    after_attach-Outcome (ok l) w (v, all) =
        let s = applier.apply (list next) w in
        after_apply-Outcome l s.0 w s.1 v (λ a. ground (arith, all a, new-lem a))
          (laws.apply-keeps (list next) w) (laws.apply-active (list next) w)

    attach-Outcome :
        (w : W)
        → ((a : Addr) → attached w a ≡ attached start a)
        → Outcome (
            after_attach ipm applier old next stale
              (attach_all ipm applier new [] w).0
              (attach_all ipm applier new [] w).1)
    unfolding contains
    attach-Outcome w same =
        after_attach-Outcome (attach_all ipm applier new [] w).0 (attach_all ipm applier new [] w).1
          (attach_all-post ipm applier attached laws.ips new [] start w
            (record { set = λ a. same a ∙ ground arith; fresh = λ a h. ground arith }))

  after_desired-Outcome :
      (current : List Addr) (r : Result DesiredIpError (List Addr)) (w : W)
      → ((a : Addr) → attached w a ≡ attached start a)
      → ((a : Addr) → contains current a ≡ attached start a)
      → ((desired : List Addr) (a : Addr) → r ≡ ok desired → contains desired a ≡ want a)
      → Outcome (after_desired ipm applier old next current r w)
  unfolding after_desired
  after_desired-Outcome current (err x) w same have need = (refl, same)
  after_desired-Outcome current (ok desired) w same have need =
      attach-Outcome (diff_external_ips desired current) (diff_external_ips current desired)
        (λ a. ground (arith, contains-diff desired current a, have a, need desired a refl))
        (λ a. ground (arith, contains-diff current desired a, have a, need desired a refl)) w same

  after_list-Outcome :
      (r : Result E (List Addr)) (w : W)
      → ((a : Addr) → attached w a ≡ attached start a)
      → ((l : List Addr) (a : Addr) → r ≡ ok l → contains l a ≡ attached start a)
      → Outcome (after_list ipm applier old next r w)
  unfolding after_list
  after_list-Outcome (err x) w same have = (refl, same)
  after_list-Outcome (ok current) w same have =
      after_desired-Outcome current (desired_external_ips (list next)) w same
        (λ a. have current a refl)
        (λ desired a h. contains-desired_external_ips (list next) desired a h)

module _ {W E F C : Type 0} (ipm : IpManager W E) (applier : ConfigApplier W F)
    (attached : W → Addr → Bool) (active : W → C) (rendered : List Service → C)
    (laws : HostLaws ipm applier attached active rendered) where
  -- A reconciliation that returns has replaced the store, attached exactly the addresses that the
  -- new store asks for, and made its configuration active. One that fails before the configuration
  -- is applied keeps the store and, if the rollback meets no error, every address but the one
  -- whose attachment failed; an address that was attached and is still asked for is never lost. One
  -- that fails on a stale address has replaced the store and the configuration, and attached all
  -- that is asked for.
  pub reconcile_locked-Outcome :
      (next : Store) (e : Engine W)
      → Outcome ipm applier attached active rendered laws e.store next e.host
          (reconcile_locked ipm applier next e)
  unfolding reconcile_locked
  reconcile_locked-Outcome next e =
      after_list-Outcome ipm applier attached active rendered laws e.store next e.host
        (ipm.list e.host).0 (ipm.list e.host).1 (laws.ips.list-keeps e.host)
        (laws.ips.list-lists e.host)
