-- ===== src/Dataplane/Engine/Configuration.antt =====
-- The active configuration under the loops over addresses.
use k8s_lb_controller.Prelude.{
  ◌≡◌, refl, ◌∙◌, Bool, ◌||◌, List, [], ◌∷◌, ◌++◌, if◌then◌else◌, Result-cases, inl, inr,
}
use k8s_lb_controller.Netip.{Addr}
use k8s_lb_controller.Provider.{Service}
use k8s_lb_controller.Dataplane.Host.{IpManager, ConfigApplier, HostLaws}
use k8s_lb_controller.Dataplane.Engine.{attach_all, detach_all}

module _ {W E F C : Type 0} (ipm : IpManager W E) (applier : ConfigApplier W F)
    (attached : W → Addr → Bool) (active : W → C) (rendered : List Service → C)
    (laws : HostLaws ipm applier attached active rendered) where
  pub attach_all-active :
      (new acc : List Addr) (w : W) → active (attach_all ipm applier new acc w).1 ≡ active w
  unfolding attach_all
  attach_all-active [] acc w = refl
  attach_all-active (x ∷ new) acc w = elim (Result-cases (ipm.ensure_present x w).0) [
    | inl (b, h) ↦
        rw (h, attach_all)
          (attach_all-active new (if b then acc ++ x ∷ [] else acc) (ipm.ensure_present x w).1
            ∙ laws.present-active x w)
    | inr (e, h) ↦ rw (h, attach_all) (laws.present-active x w)
  ]

  pub detach_all-active :
      (stale : List Addr) (changed : Bool) (w : W)
      → active (detach_all ipm applier stale changed w).1 ≡ active w
  unfolding detach_all
  detach_all-active [] changed w = refl
  detach_all-active (x ∷ stale) changed w = elim (Result-cases (ipm.ensure_absent x w).0) [
    | inl (b, h) ↦
        rw (h, detach_all)
          (detach_all-active stale (changed || b) (ipm.ensure_absent x w).1
            ∙ laws.absent-active x w)
    | inr (e, h) ↦ rw (h, detach_all) (laws.absent-active x w)
  ]
