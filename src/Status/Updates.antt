-- ===== src/Status/Updates.antt =====
-- When a status is written.
use k8s_lb_controller.Prelude.{
  ◌≡◌, ◌↔◌, ◌⊎◌, refl, sym, ap, ◌∙◌, String, Bool, true, false, List, [], ◌∷◌, Result, ok, err, M,
  ◌==◌, nat_eq, string_eq, arith, Bool-cases, inl, inr,
}
use k8s_lb_controller.Prelude.Texts.{trim_space}
use k8s_lb_controller.Kube.{Service, Ingress}
use k8s_lb_controller.Status.{
  desired_ingress, first_ingress_ip, ingress_equal, needs_update, update_status, updated,
}
use text.Mathlib.TextEquality.{eq_iff}

-- The addresses of the status, trimmed.
abbrev pub texts : List Ingress → List String
texts [] = []
texts (i ∷ rest) = trim_space i.ip ∷ texts rest

-- For an address that is not blank, the status counts as equal exactly when it has one entry and
-- that entry is the address up to blanks around it.
pub ingress_equal_iff :
    (current : List Ingress) (ip : String)
    → (trim_space ip == "") ≡ false
    → (ingress_equal current (desired_ingress ip) ≡ true) ↔ (texts current ≡ trim_space ip ∷ [])
unfolding ingress_equal first_ingress_ip
ingress_equal_iff [] ip n = ground arith
ingress_equal_iff (i ∷ []) ip n = ground (arith, eq_iff (trim_space i.ip) (trim_space ip))
ingress_equal_iff (i ∷ j ∷ rest) ip n = ground arith

module _ {W E : Type 0} (write : Service → M W E (Unit {0})) (ip : String) where
  desired_equal :
      (trim_space ip == "") ≡ false → ingress_equal (desired_ingress ip) (desired_ingress ip) ≡ true
  desired_equal n = (ingress_equal_iff (desired_ingress ip) ip n).1 refl

  updated_ingress :
      (next s : Service) (b : Bool) (r : Result E (Unit {0})) (w : W)
      → (updated next r w).0 ≡ ok (b, s)
      → s ≡ next
  updated_ingress next s b (ok _) w h = ground arith
  updated_ingress next s b (err e) w h = cc

  settled :
      (s t : Service) (w : W) (b : Bool)
      → (trim_space ip == "") ≡ false
      → (update_status write s (desired_ingress ip) w).0 ≡ ok (b, t)
      → needs_update t (desired_ingress ip) ≡ false
  unfolding update_status needs_update
  settled s t w b n r = elim (Bool-cases (ingress_equal s.ingress (desired_ingress ip))) [
    | inl e ↦ ground arith
    | inr e ↦
        let next = record s { ingress = desired_ingress ip } in
        let same = updated_ingress next t b (write next w).0 (write next w).1 (ground arith) in
        ground (arith, desired_equal n)
  ]

  -- After an update of the status to an address that is not blank, when it returned, a second
  -- update to the same address writes nothing and reports no change.
  pub update_status_again :
      (s t : Service) (w v : W) (b : Bool)
      → (trim_space ip == "") ≡ false
      → (update_status write s (desired_ingress ip) w).0 ≡ ok (b, t)
      → update_status write t (desired_ingress ip) v ≡ (ok (false, t), v)
  unfolding update_status
  update_status_again s t w v b n r = rw (settled s t w b n r, update_status)

  abbrev pub Updated : Service → W → Bool × Service → W → Type 0
  Updated s w (b, t) v =
      ((ingress_equal s.ingress (desired_ingress ip) ≡ true) × (v ≡ w))
      ⊎ (((write (record s { ingress = desired_ingress ip }) w).0 ≡ ok tt)
          × (v ≡ (write (record s { ingress = desired_ingress ip }) w).1))

  updated-ok :
      (next : Service) (p : Bool × Service) (r : Result E (Unit {0})) (w : W)
      → (updated next r w).0 ≡ ok p
      → (r ≡ ok tt) × ((updated next r w).1 ≡ w)
  updated-ok next p (ok u) w h = (refl, refl)
  updated-ok next p (err e) w h = cc

  -- An update that returned has written the address, or has found it there.
  pub update_status-Updated :
      (s : Service) (w : W) (p : Bool × Service)
      → (update_status write s (desired_ingress ip) w).0 ≡ ok p
      → Updated s w p (update_status write s (desired_ingress ip) w).1
  unfolding update_status needs_update
  update_status-Updated s w p h = elim (Bool-cases (ingress_equal s.ingress (desired_ingress ip))) [
    | inl e ↦ inl (e, rw (e, update_status) refl)
    | inr e ↦
        let next = record s { ingress = desired_ingress ip } in
        let moved : update_status write s (desired_ingress ip) w
            ≡ updated next (write next w).0 (write next w).1 =
          rw (e, update_status) refl in
        let u =
          updated-ok next p (write next w).0 (write next w).1
            (sym (ap (λ (t : Result E (Bool × Service) × W). t.0) moved) ∙ h) in
        inr (u.0, ap (λ (t : Result E (Bool × Service) × W). t.1) moved ∙ u.1)
  ]
