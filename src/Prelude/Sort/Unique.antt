-- ===== src/Prelude/Sort/Unique.antt =====
-- Sorting by distinct keys, for lists that differ in the order of their elements.
use k8s_lb_controller.Prelude.Tests.{if◌then◌else◌, Bool-cases}
use k8s_lb_controller.Prelude.Order.{Order, same}
use k8s_lb_controller.Prelude.Sort.{
  insert, sort, before, AtLeast, IsSorted, sort-IsSorted, find_key, Fresh, Distinct,
}
use mathlib.Core.Path.{◌≡◌, refl, sym, ap₂, ◌∙◌}
use mathlib.Core.Logic.{inl, inr}
use mathlib.Core.Bool.{false}
use mathlib.Core.Option.{none, some}
use mathlib.Core.List.{List, [], ◌∷◌}
use native.Mathlib.Omega.{arith}

module _ {ℓ} {A K : Type ℓ} ⦃o : Order K⦄ (key : A → K) where
  same-flip : (a b : K) → same a b ≡ false → same b a ≡ false
  same-flip a b h = ground (arith, o.cmp-flip a b)

  find_key-insert :
      (k : K) (x : A) (l : List A)
      → Fresh key (key x) l
      → find_key key k (insert (before key) x l)
        ≡ (if same (key x) k then some x else find_key key k l)
  unfolding find_key insert
  find_key-insert k x [] f = refl
  find_key-insert k x (y ∷ l) f = elim (Bool-cases (before key y x)) [
    | inl e ↦ rw e (
        ground
          (arith, find_key-insert k x l f.1, o.cmp-eq (key x) k, o.cmp-eq (key y) k, o.cmp_refl k))
    | inr e ↦ rw e refl
  ]

  Fresh-insert :
      (k : K) (x : A) (l : List A)
      → same (key x) k ≡ false
      → Fresh key k l
      → Fresh key k (insert (before key) x l)
  unfolding insert
  Fresh-insert k x [] h f = (h, tt)
  Fresh-insert k x (y ∷ l) h f = elim (Bool-cases (before key y x)) [
    | inl e ↦ rw e (f.0, Fresh-insert k x l h f.1)
    | inr e ↦ rw e (h, f)
  ]

  Fresh-sort : (k : K) (l : List A) → Fresh key k l → Fresh key k (sort (before key) l)
  unfolding sort
  Fresh-sort k [] f = tt
  Fresh-sort k (x ∷ l) f = Fresh-insert k x (sort (before key) l) f.0 (Fresh-sort k l f.1)

  Distinct-insert :
      (x : A) (l : List A)
      → Fresh key (key x) l
      → Distinct key l
      → Distinct key (insert (before key) x l)
  unfolding insert
  Distinct-insert x [] f d = (tt, tt)
  Distinct-insert x (y ∷ l) f d = elim (Bool-cases (before key y x)) [
    | inl e ↦
        rw e (
          Fresh-insert (key y) x l (same-flip (key y) (key x) f.0) d.0,
          Distinct-insert x l f.1 d.1,
        )
    | inr e ↦ rw e (f, d)
  ]

  pub sort-Distinct : (l : List A) → Distinct key l → Distinct key (sort (before key) l)
  unfolding sort
  sort-Distinct [] d = tt
  sort-Distinct (x ∷ l) d =
      Distinct-insert x (sort (before key) l) (Fresh-sort (key x) l d.0) (sort-Distinct l d.1)

  pub find_key-sort :
      (k : K) (l : List A)
      → Distinct key l
      → find_key key k (sort (before key) l) ≡ find_key key k l
  unfolding sort find_key
  find_key-sort k [] d = refl
  find_key-sort k (x ∷ l) d =
      find_key-insert k x (sort (before key) l) (Fresh-sort (key x) l d.0)
      ∙ rw (find_key-sort k l d.1)

  find_key-Fresh : (k : K) (l : List A) → Fresh key k l → find_key key k l ≡ none
  unfolding find_key
  find_key-Fresh k [] f = refl
  find_key-Fresh k (x ∷ l) f = rw f.0 (find_key-Fresh k l f.1)

  find_key-AtLeast :
      (k : K) (x y : A) (l : List A)
      → find_key key k l ≡ some x
      → AtLeast key y l
      → before key x y ≡ false
  unfolding find_key
  find_key-AtLeast k x y [] e a = ground arith
  find_key-AtLeast k x y (z ∷ l) e a = ground (arith, find_key-AtLeast k x y l)

  heads :
      (x y : A) (l r : List A)
      → IsSorted key (x ∷ l)
      → IsSorted key (y ∷ r)
      → ((k : K) → find_key key k (x ∷ l) ≡ find_key key k (y ∷ r))
      → x ≡ y
  unfolding find_key
  heads x y l r sl sr h = ground (
    arith,
    h (key x),
    h (key y),
    find_key-AtLeast (key x) x y r,
    find_key-AtLeast (key y) y x l,
    o.cmp_refl (key x),
    o.cmp_refl (key y),
    o.cmp-flip (key x) (key y),
    sl.0,
    sr.0,
  )

  tails :
      (x : A) (l r : List A) (k : K)
      → Fresh key (key x) l
      → Fresh key (key x) r
      → find_key key k (x ∷ l) ≡ find_key key k (x ∷ r)
      → find_key key k l ≡ find_key key k r
  unfolding find_key
  tails x l r k fl fr h =
      ground (arith, find_key-Fresh (key x) l fl, find_key-Fresh (key x) r fr, o.cmp-eq (key x) k)

  sorted_unique :
      (l r : List A)
      → IsSorted key l
      → IsSorted key r
      → Distinct key l
      → Distinct key r
      → ((k : K) → find_key key k l ≡ find_key key k r)
      → l ≡ r
  unfolding find_key
  sorted_unique [] [] sl sr dl dr h = refl
  sorted_unique [] (y ∷ r) sl sr dl dr h = ground (arith, h (key y), o.cmp_refl (key y))
  sorted_unique (x ∷ l) [] sl sr dl dr h = ground (arith, h (key x), o.cmp_refl (key x))
  sorted_unique (x ∷ l) (y ∷ r) sl sr dl dr h =
      let e = heads x y l r sl sr h in
      ap₂ ◌∷◌ e (
        sorted_unique l r sl.1 sr.1 dl.1 dr.1
          (λ k. tails x l r k dl.0 (rw e dr.0) (h k ∙ rw e refl)))

  -- Two lists with distinct keys and the same element for each key are sorted into one list.
  pub sort_unique :
      (l r : List A)
      → Distinct key l
      → Distinct key r
      → ((k : K) → find_key key k l ≡ find_key key k r)
      → sort (before key) l ≡ sort (before key) r
  sort_unique l r dl dr h =
      sorted_unique (sort (before key) l) (sort (before key) r) (sort-IsSorted key l)
        (sort-IsSorted key r) (sort-Distinct l dl) (sort-Distinct r dr)
        (λ k. find_key-sort k l dl ∙ h k ∙ sym (find_key-sort k r dr))
