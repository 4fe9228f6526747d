-- ===== src/Dataplane/Apply/Replacing.antt =====
-- What an Apply does to the configuration file, on every path.
use k8s_lb_controller.Prelude.{
  ◌≡◌, refl, sym, String, Bool, true, false, ◌∷◌, ◌⊎◌, inl, inr, Option, none, some, Result, ok,
  err, string_eq, arith, Option-cases,
}
use k8s_lb_controller.Dataplane.Apply.Commands.{run_command}
use k8s_lb_controller.Dataplane.Apply.{
  ApplyConfig, Faults, Disk, Answer, ApplyError, cleanup, fill_candidate, write_candidate,
  reload_step, after_rename, after_candidate, after_read, matches_current, holds,
  apply_rendered_config, sync_path,
}
use mathlib.Core.Path.{subst}
use text.Mathlib.TextEquality.{eq_iff}

-- The validation command accepts the text, or there is none.
abbrev pub IsAccepted : ApplyConfig → Faults → String → Type 0
IsAccepted cfg f text = run_command f.command cfg.validate_command f.temp text ≡ none

-- A candidate that was written is on top of the others; a failure leaves none.
abbrev Written : Faults → String → Disk → Answer (Unit {0}) → Type 0
Written f text d (ok _, w) = w ≡ record d { candidates = text ∷ d.candidates }
Written f text d (err e, w) =
    (w.active ≡ d.active) × (f.remove ≡ false → w.candidates ≡ d.candidates)

fill_candidate-Written :
    (f : Faults) (text : String) (d : Disk) → Written f text d (fill_candidate f text d)
unfolding fill_candidate cleanup
fill_candidate-Written f text d = ground arith

write_candidate-Written :
    (f : Faults) (text : String) (d : Disk) → Written f text d (write_candidate f text d)
unfolding write_candidate
write_candidate-Written f text d = ground (arith, fill_candidate-Written f text d)

module _ (cfg : ApplyConfig) (f : Faults) (text : String) where
  -- The file after a run that started from `d`: as it was, or the text, which has been accepted.
  abbrev pub Replaced : Disk → Disk → Type 0
  Replaced d w = (w.active ≡ d.active) ⊎ ((w.active ≡ some text) × IsAccepted cfg f text)

  after_rename-keeps :
      (reload : Bool) (d : Disk)
      → ((after_rename cfg f text reload d).1.active ≡ d.active)
        × ((after_rename cfg f text reload d).1.candidates ≡ d.candidates)
  unfolding after_rename reload_step sync_path
  after_rename-keeps true d = ground arith
  after_rename-keeps false d = ground arith

  abbrev Post : Disk → Answer Bool → Type 0
  Post d (r, w) =
      Replaced d w
      × (f.remove ≡ false → w.candidates ≡ d.candidates)
      × ((b : Bool) → r ≡ ok b → w.active ≡ some text)

  after_rename-Post :
      (reload : Bool) (d : Disk)
      → IsAccepted cfg f text
      → Post d (after_rename cfg f text reload (record d { active = some text }))
  after_rename-Post reload d acc =
      let keeps = after_rename-keeps reload (record d { active = some text }) in
      (inr (keeps.0, acc), λ h. keeps.1, λ b h. keeps.0)

  after_candidate-renamed :
      (reload : Bool) (d w : Disk)
      → w ≡ record d { candidates = text ∷ d.candidates }
      → IsAccepted cfg f text
      → f.rename ≡ none
      → after_candidate cfg f text reload (ok tt) w
        ≡ after_rename cfg f text reload (record d { active = some text })
  unfolding after_candidate
  after_candidate-renamed reload d w h good renamed = ground arith

  after_candidate-Post :
      (reload : Bool) (r : Result ApplyError (Unit {0})) (d w : Disk)
      → Written f text d (r, w)
      → Post d (after_candidate cfg f text reload r w)
  unfolding after_candidate cleanup
  after_candidate-Post reload (err e) d w h = (inl h.0, h.1, λ b p. cc)
  after_candidate-Post reload (ok _) d w h =
      elim (Option-cases (run_command f.command cfg.validate_command f.temp text)) [
        | inr (e, bad) ↦ rw bad (inl (ground arith), λ p. ground arith, λ b p. cc)
        | inl good ↦ elim (Option-cases f.rename) [
          | inr (e, bad) ↦ rw (good, bad) (inl (ground arith), λ p. ground arith, λ b p. cc)
          | inl renamed ↦
              subst (Post d) (sym (after_candidate-renamed reload d w h good renamed))
                (after_rename-Post reload d good)
        ]
      ]

  holds-eq : (o : Option String) → holds o text ≡ true → o ≡ some text
  holds-eq none h = ground arith
  holds-eq (some s) h = ground (arith, eq_iff s text)

  after_read-Post :
      (reload : Bool) (d : Disk) (r : Result ApplyError Bool)
      → (r ≡ ok true → d.active ≡ some text)
      → Post d (after_read cfg f text reload r d)
  unfolding after_read
  after_read-Post reload d (err e) same = (inl refl, λ p. refl, λ b p. cc)
  after_read-Post reload d (ok true) same = (inl refl, λ p. refl, λ b p. same refl)
  after_read-Post reload d (ok false) same =
      let a = write_candidate f text d in
      after_candidate-Post reload a.0 d a.1 (write_candidate-Written f text d)

  matches-active : (d : Disk) → matches_current f text d ≡ ok true → d.active ≡ some text
  unfolding matches_current
  matches-active d h = ground (arith, holds-eq d.active)

  pub apply_rendered_config-Post :
      (reload : Bool) (d : Disk) → Post d (apply_rendered_config cfg f text reload d)
  unfolding apply_rendered_config
  apply_rendered_config-Post reload d =
      after_read-Post reload d (matches_current f text d) (matches-active d)
