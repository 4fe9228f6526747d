-- ===== src/Dataplane/Apply/Reloading.antt =====
-- Reloads: what the running HAProxy has loaded after an Apply.
use k8s_lb_controller.Prelude.{
  ◌≡◌, ◌≢◌, refl, sym, ◌∙◌, ap, String, Bool, true, false, inl, inr, none, some, Result, ok, err,
  List, ◌==◌, string_eq, arith, Result-cases,
}
use k8s_lb_controller.Prelude.Texts.{trim_space}
use k8s_lb_controller.Provider.{Service}
use k8s_lb_controller.Dataplane.Render.{render}
use k8s_lb_controller.Dataplane.Apply.Commands.{CommandError}
use k8s_lb_controller.Dataplane.Apply.{
  ApplyConfig, Faults, Disk, Answer, ApplyError, reload_haproxy, apply_rendered_config, apply,
  after_read, after_candidate, after_rename, reload_step, matches_current, sync_path,
  write_candidate, fill_candidate, cleanup,
}
use k8s_lb_controller.Dataplane.Apply.Atomic.{apply-rendered, apply-refused}
use text.Mathlib.TextEquality.{eq_iff}

module _ (cfg : ApplyConfig) where
  after_rename_reloaded :
      (f : Faults) (text : String) (d : Disk)
      → (after_rename cfg f text true d).0 ≡ ok true
      → (trim_space cfg.reload_command == "") ≡ false
      → (after_rename cfg f text true d).1.loaded ≡ some text
  unfolding after_rename reload_step
  after_rename_reloaded f text d h full = ground arith

  after_candidate_reloaded :
      (f : Faults) (text : String) (d : Disk) (r : Result ApplyError (Unit {0}))
      → (after_candidate cfg f text true r d).0 ≡ ok true
      → (trim_space cfg.reload_command == "") ≡ false
      → (after_candidate cfg f text true r d).1.loaded ≡ some text
  unfolding after_candidate
  after_candidate_reloaded f text d (err e) h full = cc
  after_candidate_reloaded f text d (ok _) h full = ground (arith, after_rename_reloaded f text _)

  after_read_reloaded :
      (f : Faults) (text : String) (d : Disk) (r : Result ApplyError Bool)
      → (after_read cfg f text true r d).0 ≡ ok true
      → (trim_space cfg.reload_command == "") ≡ false
      → (after_read cfg f text true r d).1.loaded ≡ some text
  unfolding after_read
  after_read_reloaded f text d (err e) h full = cc
  after_read_reloaded f text d (ok true) h full = cc
  after_read_reloaded f text d (ok false) h full =
      after_candidate_reloaded f text (write_candidate f text d).1 (write_candidate f text d).0 h
        full

  rendered_reloaded :
      (f : Faults) (text : String) (d : Disk)
      → (apply_rendered_config cfg f text true d).0 ≡ ok true
      → (trim_space cfg.reload_command == "") ≡ false
      → (apply_rendered_config cfg f text true d).1.loaded ≡ some text
  unfolding apply_rendered_config
  rendered_reloaded f text d h full = after_read_reloaded f text d (matches_current f text d) h full

  -- An Apply that reports a change has had the configuration of the Services reloaded, when there
  -- is a reload command.
  pub apply_reloads :
      (f : Faults) (services : List Service) (d : Disk)
      → (trim_space cfg.reload_command == "") ≡ false
      → (apply cfg f services d).0 ≡ ok true
      → (text : String) × (render services ≡ ok text)
        × ((apply cfg f services d).1.loaded ≡ some text)
  apply_reloads f services d full h = elim (Result-cases (render services)) [
    | inr (e, bad) ↦
        absurd (cc (h, ap (λ (a : Answer Bool). a.0) (apply-refused cfg f services d e bad)))
    | inl (text, good) ↦ (
      text,
      good,
      ap (λ (a : Answer Bool). a.1.loaded) (apply-rendered cfg f services d text good)
          ∙ rendered_reloaded f text d
              (sym (ap (λ (a : Answer Bool). a.0) (apply-rendered cfg f services d text good)) ∙ h)
              full,
    )
  ]

  -- The state after a reload that failed: the new file is active, the old one is loaded.
  abbrev Unloaded : String → Disk → Answer Bool → Type 0
  Unloaded text d (r, w) =
      (e : CommandError)
      → r ≡ err (reload_haproxy e)
      → (w.active ≡ some text) × (w.loaded ≡ d.loaded)

  after_rename-Unloaded :
      (f : Faults) (text : String) (d : Disk)
      → d.active ≡ some text
      → Unloaded text d (after_rename cfg f text true d)
  unfolding after_rename reload_step sync_path
  after_rename-Unloaded f text d h e r = ground arith

  write_candidate_keeps :
      (f : Faults) (text : String) (d : Disk)
      → (e : CommandError)
      → ((write_candidate f text d).1.loaded ≡ d.loaded)
        × ((write_candidate f text d).0 ≢ err (reload_haproxy e))
  unfolding write_candidate fill_candidate cleanup
  write_candidate_keeps f text d e = ground arith

  after_candidate-Unloaded :
      (f : Faults) (text : String) (d w : Disk) (r : Result ApplyError (Unit {0}))
      → w.loaded ≡ d.loaded
      → ((e : CommandError) → r ≢ err (reload_haproxy e))
      → Unloaded text d (after_candidate cfg f text true r w)
  unfolding after_candidate cleanup
  after_candidate-Unloaded f text d w (err x) same n e h = absurd (n e (ground arith))
  after_candidate-Unloaded f text d w (ok _) same n e h =
      ground (arith, after_rename-Unloaded f text _ refl e)

  after_read-Unloaded :
      (f : Faults) (text : String) (d : Disk) (r : Result ApplyError Bool)
      → ((e : CommandError) → r ≢ err (reload_haproxy e))
      → Unloaded text d (after_read cfg f text true r d)
  unfolding after_read
  after_read-Unloaded f text d (err x) n e h = absurd (n e (ground arith))
  after_read-Unloaded f text d (ok true) n e h = cc
  after_read-Unloaded f text d (ok false) n e h =
      after_candidate-Unloaded f text d (write_candidate f text d).1 (write_candidate f text d).0
        (write_candidate_keeps f text d e).0 (λ x. (write_candidate_keeps f text d x).1) e h

  rendered-Unloaded :
      (f : Faults) (text : String) (d : Disk)
      → Unloaded text d (apply_rendered_config cfg f text true d)
  unfolding apply_rendered_config matches_current
  rendered-Unloaded f text d =
      after_read-Unloaded f text d (matches_current f text d) (λ e h. ground arith)

  up_to_date :
      (f : Faults) (text : String) (d : Disk)
      → f.read ≡ none
      → d.active ≡ some text
      → apply_rendered_config cfg f text true d ≡ (ok false, d)
  unfolding apply_rendered_config matches_current after_read
  up_to_date f text d r h = ground (arith, eq_iff text text)

  -- After an Apply whose reload failed, the next Apply of the same Services, if it can read the
  -- active file, returns no change and no error and does nothing: HAProxy still has the
  -- configuration from before the first one.
  pub apply_after_failed_reload :
      (f g : Faults) (services : List Service) (d : Disk) (e : CommandError)
      → g.read ≡ none
      → (apply cfg f services d).0 ≡ err (reload_haproxy e)
      → (apply cfg g services (apply cfg f services d).1 ≡ (ok false, (apply cfg f services d).1))
        × ((apply cfg f services d).1.loaded ≡ d.loaded)
  apply_after_failed_reload f g services d e readable h = elim (Result-cases (render services)) [
    | inr (x, bad) ↦
        absurd
          (ground (arith, ap (λ (a : Answer Bool). a.0) (apply-refused cfg f services d x bad)))
    | inl (text, good) ↦
        let same = apply-rendered cfg f services d text good in
        let (active, loaded) =
          rendered-Unloaded f text d e (sym (ap (λ (a : Answer Bool). a.0) same) ∙ h) in
        (
          apply-rendered cfg g services (apply cfg f services d).1 text good
              ∙ up_to_date g text (apply cfg f services d).1 readable
                  (ap (λ (a : Answer Bool). a.1.active) same ∙ active),
          ap (λ (a : Answer Bool). a.1.loaded) same ∙ loaded,
        )
  ]
