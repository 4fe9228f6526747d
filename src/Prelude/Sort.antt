-- ===== src/Prelude/Sort.antt =====
-- sort.Slice and slices.SortFunc by a key: a stable insertion sort, which is what Go runs on up to
-- twelve elements. Above that Go may order elements with equal keys otherwise.
pub mod Unique
pub mod Kept
use k8s_lb_controller.Prelude.Tests.{if◌then◌else◌, Bool-cases}
use k8s_lb_controller.Prelude.Order.{Order, less, same, not-less_trans, less_asym}
use mathlib.Core.Path.{◌≡◌, refl}
use mathlib.Core.Logic.{inl, inr}
use mathlib.Core.Bool.{Bool, true, false}
use mathlib.Core.Option.{Option, none, some}
use mathlib.Core.List.{List, [], ◌∷◌, Perm}
use mathlib.Core.List.Perm

module _ {ℓ} {A : Type ℓ} where
  unfoldable pub insert : (A → A → Bool) → A → List A → List A
  insert before x [] = x ∷ []
  insert before x (y ∷ ys) = if before y x then y ∷ insert before x ys else x ∷ y ∷ ys

  unfoldable pub sort : (A → A → Bool) → List A → List A
  unfolding insert
  sort before [] = []
  sort before (x ∷ xs) = insert before x (sort before xs)

  pub insert-perm : (before : A → A → Bool) (x : A) (l : List A) → Perm (insert before x l) (x ∷ l)
  unfolding insert
  insert-perm before x [] = Perm.rfl
  insert-perm before x (y ∷ ys) = elim (Bool-cases (before y x)) [
    | inl e ↦ rw e (Perm.trans (Perm.cons y (insert-perm before x ys)) (Perm.swap x y ys))
    | inr e ↦ rw e Perm.rfl
  ]

  pub sort-perm : (before : A → A → Bool) (l : List A) → Perm (sort before l) l
  unfolding sort
  sort-perm before [] = Perm.rfl
  sort-perm before (x ∷ xs) =
      Perm.trans (insert-perm before x (sort before xs)) (Perm.cons x (sort-perm before xs))

module _ {ℓ} {A K : Type ℓ} ⦃o : Order K⦄ (key : A → K) where
  abbrev pub before : A → A → Bool
  before a b = less (key a) (key b)

  -- No element is less than the first one.
  abbrev pub AtLeast : A → List A → Type 0
  AtLeast x [] = Unit
  AtLeast x (y ∷ ys) = (before y x ≡ false) × AtLeast x ys

  abbrev pub IsSorted : List A → Type 0
  IsSorted [] = Unit
  IsSorted (x ∷ xs) = AtLeast x xs × IsSorted xs

  AtLeast-trans : (x y : A) (l : List A) → before y x ≡ false → AtLeast y l → AtLeast x l
  AtLeast-trans x y [] h a = tt
  AtLeast-trans x y (z ∷ l) h a =
      (not-less_trans (key x) (key y) (key z) h a.0, AtLeast-trans x y l h a.1)

  AtLeast-insert :
      (x y : A) (l : List A) → before y x ≡ false → AtLeast x l → AtLeast x (insert before y l)
  unfolding insert
  AtLeast-insert x y [] h a = (h, tt)
  AtLeast-insert x y (z ∷ l) h a = elim (Bool-cases (before z y)) [
    | inl e ↦ rw e (a.0, AtLeast-insert x y l h a.1)
    | inr e ↦ rw e (h, a)
  ]

  insert-IsSorted : (x : A) (l : List A) → IsSorted l → IsSorted (insert before x l)
  unfolding insert
  insert-IsSorted x [] s = (tt, tt)
  insert-IsSorted x (y ∷ l) s = elim (Bool-cases (before y x)) [
    | inl e ↦ rw e (AtLeast-insert y x l (less_asym (key y) (key x) e) s.0, insert-IsSorted x l s.1)
    | inr e ↦ rw e ((e, AtLeast-trans x y l e s.0), s)
  ]

  pub sort-IsSorted : (l : List A) → IsSorted (sort before l)
  unfolding sort
  sort-IsSorted [] = tt
  sort-IsSorted (x ∷ l) = insert-IsSorted x (sort before l) (sort-IsSorted l)

  insert_first : (x : A) (l : List A) → AtLeast x l → insert before x l ≡ x ∷ l
  unfolding insert
  insert_first x [] a = refl
  insert_first x (y ∷ l) a = rw (a.0)

  -- Sorting again changes nothing.
  pub sort_of_IsSorted : (l : List A) → IsSorted l → sort before l ≡ l
  unfolding sort
  sort_of_IsSorted [] s = refl
  sort_of_IsSorted (x ∷ l) s = rw (sort_of_IsSorted l s.1) (insert_first x l s.0)

  -- The element with a key.
  unfoldable pub find_key : K → List A → Option A
  find_key k [] = none
  find_key k (x ∷ l) = if same (key x) k then some x else find_key k l

  abbrev pub Fresh : K → List A → Type 0
  Fresh k [] = Unit
  Fresh k (x ∷ l) = (same (key x) k ≡ false) × Fresh k l

  abbrev pub Distinct : List A → Type 0
  Distinct [] = Unit
  Distinct (x ∷ l) = Fresh (key x) l × Distinct l
