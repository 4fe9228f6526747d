-- ===== src/Controller/Inversion.antt =====
-- What a chain of calls that returned has done.
use k8s_lb_controller.Prelude.{◌≡◌, refl, Result, ok, err, M, bind_result, ◌>>=◌}
use k8s_lb_controller.Controller.Reconcile.{wrapped}

module _ {W E A B : Type 0} where
  -- A chain that returned ran its first part, which returned, and then its second.
  abbrev pub Ran : M W E A → (A → M W E B) → B → W → Type 0
  Ran m f b w =
      (a : A) × ((m w).0 ≡ ok a) × ((f a (m w).1).0 ≡ ok b) × (((m >>= f) w).1 ≡ (f a (m w).1).1)

  ran :
      (r : Result E A) (f : A → M W E B) (b : B) (w : W)
      → (bind_result r f w).0 ≡ ok b
      → (a : A) × (r ≡ ok a) × ((f a w).0 ≡ ok b) × ((bind_result r f w).1 ≡ (f a w).1)
  ran (ok a) f b w h = (a, refl, h, refl)
  ran (err e) f b w h = cc

  pub bind-ok :
      (m : M W E A) (f : A → M W E B) (b : B) (w : W) → ((m >>= f) w).0 ≡ ok b → Ran m f b w
  bind-ok m f b w h = ran (m w).0 f b (m w).1 h

pub wrapped-ok :
    {E F A : Type 0} (f : E → F) (r : Result E A) (a : A) → wrapped f r ≡ ok a → r ≡ ok a
wrapped-ok f (ok b) a h = cc h
wrapped-ok f (err e) a h = cc
