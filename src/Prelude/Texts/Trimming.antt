-- ===== src/Prelude/Texts/Trimming.antt =====
-- Trimming a text that is trimmed already.
use Prim.Native.Char.{Char, code}
use Prim.Native.String.{String}
use mathlib.Core.Path.{◌≡◌, refl, ◌∙◌, ap}
use mathlib.Core.Logic.{inl, inr}
use mathlib.Core.Bool.{Bool, true, false, ◌&&◌}
use k8s_lb_controller.Prelude.Tests.{Bool-cases}
use k8s_lb_controller.Prelude.Texts.{is_space, is_empty, trim_left, trim_right, trim_space}

-- No space at the front.
abbrev StartsPlain : String → Type 0
StartsPlain String.[] = Unit
StartsPlain (String.◌∷◌ c s) = is_space (code c) ≡ false

trim_left-StartsPlain : (s : String) → StartsPlain (trim_left s)
unfolding trim_left
trim_left-StartsPlain String.[] = tt
trim_left-StartsPlain (String.◌∷◌ c s) = elim (Bool-cases (is_space (code c))) [
  | inl e ↦ rw e (trim_left-StartsPlain s)
  | inr e ↦ rw e e
]

trim_left-plain : (s : String) → StartsPlain s → trim_left s ≡ s
unfolding trim_left
trim_left-plain String.[] h = refl
trim_left-plain (String.◌∷◌ c s) h = rw h

pub and_false : (b : Bool) → (b && false) ≡ false
and_false true = refl
and_false false = refl

trim_right-StartsPlain : (s : String) → StartsPlain s → StartsPlain (trim_right s)
unfolding trim_right
trim_right-StartsPlain String.[] h = tt
trim_right-StartsPlain (String.◌∷◌ c s) h = rw (h, and_false (is_empty (trim_right s))) h

trim_right-cons :
    (c : Char) (s : String)
    → (is_empty (trim_right s) && is_space (code c)) ≡ false
    → trim_right (String.◌∷◌ c s) ≡ String.◌∷◌ c (trim_right s)
unfolding trim_right
trim_right-cons c s h = rw h

trim_right-blank :
    (c : Char) (s : String)
    → (is_empty (trim_right s) && is_space (code c)) ≡ true
    → trim_right (String.◌∷◌ c s) ≡ ""
unfolding trim_right
trim_right-blank c s h = rw h

trim_right_idem : (s : String) → trim_right (trim_right s) ≡ trim_right s
trim_right_idem String.[] = unfold trim_right in refl
trim_right_idem (String.◌∷◌ c s) =
    elim (Bool-cases (is_empty (trim_right s) && is_space (code c))) [
      | inl e ↦ rw (trim_right-blank c s e) (unfold trim_right in refl)
      | inr e ↦ rw (trim_right-cons c s e) (
          trim_right-cons c (trim_right s) (rw (trim_right_idem s) e)
          ∙ ap (String.◌∷◌ c) (trim_right_idem s))
    ]

-- strings.TrimSpace of a trimmed text is that text.
pub trim_space_idem : (s : String) → trim_space (trim_space s) ≡ trim_space s
unfolding trim_space
trim_space_idem s =
    ap trim_right (
      trim_left-plain (trim_right (trim_left s))
        (trim_right-StartsPlain (trim_left s) (trim_left-StartsPlain s)))
    ∙ trim_right_idem (trim_left s)
