-- ===== src/Dataplane/Apply/Atomic.antt =====
-- The guarantees of Applier.Apply.
use k8s_lb_controller.Prelude.{
  ◌≡◌, refl, sym, ◌∙◌, ap, String, Bool, true, false, ◌⊎◌, inl, inr, some, ok, err, List, string_eq,
  Result-cases,
}
use k8s_lb_controller.Provider.{Service}
use k8s_lb_controller.Dataplane.Render.{RenderError, render}
use k8s_lb_controller.Dataplane.Apply.{
  ApplyConfig, Faults, Disk, Answer, render_config, apply_rendered_config, apply,
}
use k8s_lb_controller.Dataplane.Apply.Replacing.{IsAccepted, apply_rendered_config-Post}

module _ (cfg : ApplyConfig) (f : Faults) (services : List Service) (d : Disk) where
  pub apply-rendered :
      (text : String)
      → render services ≡ ok text
      → apply cfg f services d ≡ apply_rendered_config cfg f text true d
  unfolding apply
  apply-rendered text h = rw (h, apply)

  pub apply-refused :
      (e : RenderError)
      → render services ≡ err e
      → apply cfg f services d ≡ (err (render_config e), d)
  unfolding apply
  apply-refused e h = rw (h, apply)

  -- An Apply, also one that fails, leaves the active file as it was, or has replaced it as a whole
  -- by the configuration of the Services after the validation command accepted that.
  pub apply_atomic :
      ((apply cfg f services d).1.active ≡ d.active)
      ⊎ ((text : String) × (render services ≡ ok text)
          × ((apply cfg f services d).1.active ≡ some text)
          × IsAccepted cfg f text)
  apply_atomic = elim (Result-cases (render services)) [
    | inr (e, h) ↦ rw (apply-refused e h) (inl refl)
    | inl (text, h) ↦ elim (apply_rendered_config-Post cfg f text true d).0 [
      | inl same ↦ rw (apply-rendered text h) (inl same)
      | inr (new, good) ↦
          inr (text, h, ap (λ (a : Answer Bool). a.1.active) (apply-rendered text h) ∙ new, good)
    ]
  ]

  -- When the removal of a file works, no Apply leaves a candidate behind, also none that fails.
  pub apply_leaves_no_candidate :
      f.remove ≡ false → (apply cfg f services d).1.candidates ≡ d.candidates
  apply_leaves_no_candidate works = elim (Result-cases (render services)) [
    | inr (e, h) ↦ rw (apply-refused e h) refl
    | inl (text, h) ↦
        rw (apply-rendered text h) ((apply_rendered_config-Post cfg f text true d).1 works)
  ]

  -- An Apply that returns without an error has left the configuration of the Services in the
  -- active file.
  pub apply-ok :
      (b : Bool)
      → (apply cfg f services d).0 ≡ ok b
      → (text : String) × (render services ≡ ok text)
        × ((apply cfg f services d).1.active ≡ some text)
  apply-ok b r = elim (Result-cases (render services)) [
    | inr (e, h) ↦ absurd (cc (r, ap (λ (a : Answer Bool). a.0) (apply-refused e h)))
    | inl (text, h) ↦ (
      text,
      h,
      ap (λ (a : Answer Bool). a.1.active) (apply-rendered text h)
          ∙ (apply_rendered_config-Post cfg f text true d).2 b
              (sym (ap (λ (a : Answer Bool). a.0) (apply-rendered text h)) ∙ r),
    )
  ]
