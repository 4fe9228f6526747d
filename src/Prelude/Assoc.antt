-- ===== src/Prelude/Assoc.antt =====
-- Go's maps as association lists. A map has one entry for each key; the order of the entries is
-- what Go leaves open.
use k8s_lb_controller.Prelude.Tests.{if◌then◌else◌}
use k8s_lb_controller.Prelude.Order.{Order, same}
use k8s_lb_controller.Prelude.Sort.{Fresh, Distinct}
use mathlib.Core.Path.{◌≡◌, refl}
use mathlib.Core.Bool.{false}
use mathlib.Core.Option.{Option, none, some}
use mathlib.Core.List.{List, [], ◌∷◌}
use native.Mathlib.Omega.{arith}

abbrev pub Map {ℓ} : Type ℓ → Type ℓ → Type ℓ
Map K V = List (K × V)

module _ {ℓ} {K V : Type ℓ} where
  abbrev pub key_of : K × V → K
  key_of e = e.0

module _ {ℓ} {K V : Type ℓ} ⦃o : Order K⦄ where
  -- v, ok := m[k]
  unfoldable pub get : Map K V → K → Option V
  get [] k = none
  get ((j, v) ∷ m) k = if same j k then some v else get m k

  -- m[k] = v
  unfoldable pub put : Map K V → K → V → Map K V
  put [] k v = (k, v) ∷ []
  put ((j, w) ∷ m) k v = if same j k then (k, v) ∷ m else (j, w) ∷ put m k v

  -- delete(m, k)
  unfoldable pub remove : Map K V → K → Map K V
  remove [] k = []
  remove ((j, w) ∷ m) k = if same j k then m else (j, w) ∷ remove m k

  -- One entry for each key.
  abbrev pub IsMap : Map K V → Type 0
  IsMap m = Distinct key_of m

  abbrev pub IsFresh : K → Map K V → Type 0
  IsFresh k m = Fresh key_of k m

  pub get_fresh : (k : K) (m : Map K V) → IsFresh k m → get m k ≡ none
  unfolding get
  get_fresh k [] f = refl
  get_fresh k ((j, w) ∷ m) f = rw f.0 (get_fresh k m f.1)

  pub get-put :
      (m : Map K V) (k j : K) (v : V) → get (put m k v) j ≡ (if same k j then some v else get m j)
  unfolding get put
  get-put [] k j v = refl
  get-put ((i, w) ∷ m) k j v =
      ground (arith, get-put m k j v, o.cmp-eq i k, o.cmp-eq i j, o.cmp-eq k j, o.cmp_refl j)

  pub get-remove :
      (m : Map K V) (k j : K) → IsMap m → get (remove m k) j ≡ (if same k j then none else get m j)
  unfolding get remove
  get-remove [] k j d = ground arith
  get-remove ((i, w) ∷ m) k j d =
      ground
        (arith, get-remove m k j d.1, o.cmp-eq i k, o.cmp-eq i j, o.cmp-eq k j, get_fresh i m d.0)

  put-IsFresh :
      (i k : K) (m : Map K V) (v : V) → same k i ≡ false → IsFresh i m → IsFresh i (put m k v)
  unfolding put
  put-IsFresh i k [] v h f = (h, tt)
  put-IsFresh i k ((j, w) ∷ m) v h f = ground (arith, put-IsFresh i k m v h f.1)

  remove-IsFresh : (i k : K) (m : Map K V) → IsFresh i m → IsFresh i (remove m k)
  unfolding remove
  remove-IsFresh i k [] f = tt
  remove-IsFresh i k ((j, w) ∷ m) f = ground (arith, remove-IsFresh i k m f.1)

  pub put-IsMap : (m : Map K V) (k : K) (v : V) → IsMap m → IsMap (put m k v)
  unfolding put
  put-IsMap [] k v d = (tt, tt)
  put-IsMap ((j, w) ∷ m) k v d =
      ground (arith, put-IsMap m k v d.1, put-IsFresh j k m v, o.cmp-flip j k, o.cmp-eq j k)

  pub remove-IsMap : (m : Map K V) (k : K) → IsMap m → IsMap (remove m k)
  unfolding remove
  remove-IsMap [] k d = tt
  remove-IsMap ((j, w) ∷ m) k d = ground (arith, remove-IsMap m k d.1, remove-IsFresh j k m d.0)
