-- ===== src/Prelude/Sort/Kept.antt =====
-- What holds of every element holds of every element of the sorted list.
use k8s_lb_controller.Prelude.Tests.{All, Bool-cases}
use k8s_lb_controller.Prelude.Sort.{insert, sort}
use mathlib.Core.Logic.{inl, inr}
use mathlib.Core.Bool.{Bool}
use mathlib.Core.List.{List, [], ◌∷◌}

module _ {A : Type 0} (P : A → Type 0) (before : A → A → Bool) where
  pub All-insert : (x : A) (l : List A) → P x → All P l → All P (insert before x l)
  unfolding insert
  All-insert x [] h hs = (h, tt)
  All-insert x (y ∷ l) h hs = elim (Bool-cases (before y x)) [
    | inl e ↦ rw e (hs.0, All-insert x l h hs.1)
    | inr e ↦ rw e (h, hs)
  ]

  pub All-sort : (l : List A) → All P l → All P (sort before l)
  unfolding sort
  All-sort [] h = tt
  All-sort (x ∷ l) h = All-insert x (sort before l) h.0 (All-sort l h.1)
