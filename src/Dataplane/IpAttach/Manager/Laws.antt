-- ===== src/Dataplane/IpAttach/Manager/Laws.antt =====
-- The managers against what the engine relies on.
use k8s_lb_controller.Prelude.{
  ◌≡◌, refl, ◌∙◌, Bool, true, false, not, List, Result, ok, err, M, ◌==◌, nat_eq, contains, arith,
  Bool-cases, inl, inr,
}
use k8s_lb_controller.Netip.{Addr, v4}
use k8s_lb_controller.Dataplane.Host.{IpLaws}
use k8s_lb_controller.Dataplane.IpAttach.Manager.{
  ManagerError, same_bool, ensure_state_after, ensure_addr, manager, after_list, changed_or, judged,
}

-- What the interface does: a listing is the truth and changes nothing, a change that returns has
-- been made, one that fails has not been made, and no change concerns another address.
pub record InterfaceLaws {W E : Type 0} (list : M W E (List Addr))
    (change : Bool → Addr → M W E (Unit {0})) (attached : W → Addr → Bool) : Type 0 where
  pub list-keeps : (w : W) (a : Addr) → attached (list w).1 a ≡ attached w a
  pub list-lists :
      (w : W) (l : List Addr) (a : Addr) → (list w).0 ≡ ok l → contains l a ≡ attached w a
  pub change-done :
      (want : Bool) (x : Addr) (w : W) (u : Unit {0})
      → (change want x w).0 ≡ ok u
      → attached (change want x w).1 x ≡ want
  pub change-failed :
      (want : Bool) (x : Addr) (w : W) (e : E) (a : Addr)
      → (change want x w).0 ≡ err e
      → attached (change want x w).1 a ≡ attached w a
  pub change-other :
      (want : Bool) (x : Addr) (w : W) (a : Addr)
      → (x == a) ≡ false
      → attached (change want x w).1 a ≡ attached w a

module _ {W E : Type 0} (list : M W E (List Addr)) (change : Bool → Addr → M W E (Unit {0}))
    (attached : W → Addr → Bool) (laws : InterfaceLaws list change attached) where
  -- What a call asked for, and what it leaves alone.
  abbrev Post : Bool → Addr → W → Result (ManagerError E) Bool × W → Type 0
  Post want x start (r, w) =
      ((a : Addr) → (x == a) ≡ false → attached w a ≡ attached start a)
      × ((b : Bool)
          → r ≡ ok b
          → (attached w x ≡ want) × (same_bool (attached start x) want ≡ not b))

  judged-Post :
      (want : Bool) (x : Addr) (e : E) (start w : W) (r : Result E (List Addr))
      → ((a : Addr) → attached w a ≡ attached start a)
      → ((l : List Addr) → r ≡ ok l → contains l x ≡ attached w x)
      → Post want x start (judged list change want x e r w)
  judged-Post want x e start w (err y) same lists = (λ a n. same a, λ b h. cc)
  judged-Post want x e start w (ok l) same lists =
      (λ a n. ground (arith, same a), λ b h. ground (arith, lists l, same x))

  state-Post :
      (want : Bool) (x : Addr) (e : E) (start w : W)
      → ((a : Addr) → attached w a ≡ attached start a)
      → Post want x start (ensure_state_after list change want x e w)
  unfolding ensure_state_after
  state-Post want x e start w same =
      judged-Post want x e start (list w).1 (list w).0
        (λ a. ground (arith, laws.list-keeps w a, same a))
        (λ l h. ground (arith, laws.list-lists w l x, laws.list-keeps w x))

  changed-Post :
      (want : Bool) (x : Addr) (w w' : W) (r : Result E (Unit {0}))
      → same_bool (attached w x) want ≡ false
      → ((a : Addr) → (x == a) ≡ false → attached w' a ≡ attached w a)
      → ((u : Unit {0}) → r ≡ ok u → attached w' x ≡ want)
      → ((e : E) (a : Addr) → r ≡ err e → attached w' a ≡ attached w a)
      → Post want x w (changed_or list change want x r w')
  changed-Post want x w w' (ok u) differs other done failed =
      (other, λ b h. (done u refl, ground arith))
  changed-Post want x w w' (err e) differs other done failed =
      state-Post want x e w w' (λ a. failed e a refl)

  shifted :
      (want : Bool) (x : Addr) (start w : W) (t : Result (ManagerError E) Bool × W)
      → ((a : Addr) → attached w a ≡ attached start a)
      → Post want x w t
      → Post want x start t
  shifted want x start w t same p =
      (λ a n. p.0 a n ∙ same a, λ b h. ((p.1 b h).0, ground (arith, (p.1 b h).1, same x)))

  after_list-Post :
      (want : Bool) (x : Addr) (start w : W) (r : Result E (List Addr))
      → ((a : Addr) → attached w a ≡ attached start a)
      → ((l : List Addr) → r ≡ ok l → contains l x ≡ attached start x)
      → Post want x start (after_list list change want x r w)
  after_list-Post want x start w (err e) same lists = (λ a n. same a, λ b h. cc)
  after_list-Post want x start w (ok l) same lists =
      elim (Bool-cases (same_bool (contains l x) want)) [
        | inl e ↦ rw e (λ a n. same a, λ b h. ground (arith, lists l, same x))
        | inr e ↦ rw e (
            shifted want x start w _ same (
              changed-Post want x w (change want x w).1 (change want x w).0
                (ground (arith, lists l, same x)) (λ a n. laws.change-other want x w a n)
                (λ u h. laws.change-done want x w u h)
                (λ f a h. laws.change-failed want x w f a h)))
      ]

  ensure_addr-Post :
      (want : Bool) (x : Addr) (w : W) → Post want x w (ensure_addr list change want (v4 x) w)
  unfolding ensure_addr
  ensure_addr-Post want x w =
      after_list-Post want x w (list w).1 (list w).0 (λ a. laws.list-keeps w a)
        (λ l h. laws.list-lists w l x h)

  -- A manager over an interface that keeps to these laws does what the engine relies on: it lists
  -- what is attached, a call that returns has attached or detached its address, no call concerns
  -- another address, and an attachment reports a change exactly when the address was not attached.
  pub manager-IpLaws : IpLaws (manager list change) attached
  unfolding manager
  manager-IpLaws = record {
    list-keeps = λ w a. laws.list-keeps w a;
    list-lists = λ w l a h. ground (arith, laws.list-lists w l a);
    present-done = λ x w b h. ((ensure_addr-Post true x w).1 b h).0;
    present-changed = λ x w b h. ground (arith, ((ensure_addr-Post true x w).1 b h).1);
    present-other = λ x w a n. (ensure_addr-Post true x w).0 a n;
    absent-done = λ x w b h. ((ensure_addr-Post false x w).1 b h).0;
    absent-other = λ x w a n. (ensure_addr-Post false x w).0 a n;
  }
