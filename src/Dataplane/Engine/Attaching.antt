-- ===== src/Dataplane/Engine/Attaching.antt =====
-- The loops over addresses, for a host that keeps the laws.
use k8s_lb_controller.Prelude.{
  ◌≡◌, refl, ◌∙◌, Bool, true, false, not, ◌&&◌, ◌||◌, List, [], ◌∷◌, ◌++◌, Result, ok, err, ◌==◌,
  nat_eq, contains, contains-append, if◌then◌else◌, arith, Result-cases, inl, inr,
}
use k8s_lb_controller.Netip.{Addr}
use k8s_lb_controller.Dataplane.Host.{IpManager, ConfigApplier, IpLaws}
use k8s_lb_controller.Dataplane.Engine.{join_error, attach_all, detach_each, rollback, detach_all}
use mathlib.Core.List.{reverse, reverse-cons}

module _ {W E F : Type 0} (ipm : IpManager W E) (applier : ConfigApplier W F)
    (attached : W → Addr → Bool) (laws : IpLaws ipm attached) where
  -- The set at `w` is the set at `start` and the addresses of `new`, which are new to it.
  pub record Added (start w : W) (new : List Addr) : Type 0 where
    pub set : (a : Addr) → attached w a ≡ (attached start a || contains new a)
    pub fresh : (a : Addr) → contains new a ≡ true → attached start a ≡ false

  -- The same with nothing said of one address.
  pub record AddedBut (start w : W) (new : List Addr) (x : Addr) : Type 0 where
    pub set : (a : Addr) → (x == a) ≡ false → attached w a ≡ (attached start a || contains new a)
    pub fresh : (a : Addr) → contains new a ≡ true → attached start a ≡ false

  Added-present :
      (start w : W) (new : List Addr) (x : Addr) (b : Bool)
      → (ipm.ensure_present x w).0 ≡ ok b
      → Added start w new
      → Added start (ipm.ensure_present x w).1 (if b then new ++ x ∷ [] else new)
  unfolding contains
  Added-present start w new x b h v = record {
    set = λ a. ground (
      arith,
      v.set a,
      laws.present-done x w b h,
      laws.present-changed x w b h,
      laws.present-other x w a,
      contains-append new (x ∷ []) a,
    );
    fresh = λ a p.
        ground
          (arith, v.set a, v.fresh a, laws.present-changed x w b h, contains-append new (x ∷ []) a);
  }

  abbrev pub AttachPost :
      W → List Addr → List Addr → Result (Addr × E × List Addr) (List Addr) × W → Type 0
  AttachPost start acc new (ok l, w) =
      Added start w l
      × ((a : Addr)
          → (attached start a || contains l a)
            ≡ (attached start a || contains acc a || contains new a))
  AttachPost start acc new (err (x, e, l), w) = AddedBut start w l x × (contains new x ≡ true)

  -- What the next call starts from, as a set.
  next-acc :
      (start w : W) (acc new : List Addr) (x : Addr) (b : Bool) (a : Addr)
      → (ipm.ensure_present x w).0 ≡ ok b
      → Added start w acc
      → (attached start a || contains (if b then acc ++ x ∷ [] else acc) a || contains new a)
        ≡ (attached start a || contains acc a || contains (x ∷ new) a)
  unfolding contains
  next-acc start w acc new x b a h v =
      ground (arith, v.set a, laws.present-changed x w b h, contains-append acc (x ∷ []) a)

  AttachPost-mono :
      (start : W) (acc acc' new new' : List Addr) (r : Result (Addr × E × List Addr) (List Addr))
      (w : W)
      → ((a : Addr)
          → (attached start a || contains acc' a || contains new' a)
            ≡ (attached start a || contains acc a || contains new a))
      → ((a : Addr) → contains new' a ≡ true → contains new a ≡ true)
      → AttachPost start acc' new' (r, w)
      → AttachPost start acc new (r, w)
  AttachPost-mono start acc acc' new new' (ok l) w h k (v, e) = (v, λ a. e a ∙ h a)
  AttachPost-mono start acc acc' new new' (err (x, e, l)) w h k (v, i) = (v, k x i)

  pub attach_all-post :
      (new acc : List Addr) (start w : W)
      → Added start w acc
      → AttachPost start acc new (attach_all ipm applier new acc w)
  unfolding attach_all contains
  attach_all-post [] acc start w v = (v, λ a. ground arith)
  attach_all-post (x ∷ new) acc start w v = elim (Result-cases (ipm.ensure_present x w).0) [
    | inl (b, h) ↦
        let acc' = if b then acc ++ x ∷ [] else acc in
        let after = (ipm.ensure_present x w).1 in
        let rest = attach_all ipm applier new acc' after in
        rw (h, attach_all)
          (AttachPost-mono start acc acc' (x ∷ new) new rest.0 rest.1
            (λ a. next-acc start w acc new x b a h v) (λ a i. ground arith)
            (attach_all-post new acc' start after (Added-present start w acc x b h v)))
    | inr (e, h) ↦
        rw (h, attach_all)
          (
            record { set = λ a other. laws.present-other x w a other ∙ v.set a; fresh = v.fresh },
            ground arith,
          )
  ]

  pub attach_all_start : (w : W) → Added w w []
  unfolding contains
  attach_all_start w = record { set = λ a. ground arith; fresh = λ a h. ground arith }

  join_error-nil :
      (r : Result E Bool) (l : List E) → join_error r l ≡ [] → (b : Bool) × (r ≡ ok b) × (l ≡ [])
  join_error-nil (ok b) l h = (b, refl, h)
  join_error-nil (err e) l h = cc

  -- With no error the addresses of the list are gone and the others are as before.
  pub detach_each-set :
      (l : List Addr) (w : W) (a : Addr)
      → (detach_each ipm applier l w).0 ≡ []
      → attached (detach_each ipm applier l w).1 a ≡ (attached w a && not (contains l a))
  unfolding detach_each contains
  detach_each-set [] w a h = ground arith
  detach_each-set (x ∷ l) w a h =
      let after = (ipm.ensure_absent x w).1 in
      let (b, done, rest) =
        join_error-nil (ipm.ensure_absent x w).0 (detach_each ipm applier l after).0 h in
      ground (
        arith,
        detach_each-set l after a rest,
        laws.absent-done x w b done,
        laws.absent-other x w a,
      )

  -- Whatever fails, an address that is not on the list is as before.
  pub detach_each-keeps :
      (l : List Addr) (w : W) (a : Addr)
      → contains l a ≡ false
      → attached (detach_each ipm applier l w).1 a ≡ attached w a
  unfolding detach_each contains
  detach_each-keeps [] w a h = refl
  detach_each-keeps (x ∷ l) w a h =
      ground (arith, detach_each-keeps l (ipm.ensure_absent x w).1 a, laws.absent-other x w a)

  pub contains-reverse : (l : List Addr) (a : Addr) → contains (reverse l) a ≡ contains l a
  unfolding contains
  contains-reverse [] a = refl
  contains-reverse (x ∷ l) a =
      ground (arith, reverse-cons x l, contains-reverse l a, contains-append (reverse l) (x ∷ []) a)

  pub rollback-set :
      (l : List Addr) (w : W) (a : Addr)
      → (rollback ipm applier l w).0 ≡ []
      → attached (rollback ipm applier l w).1 a ≡ (attached w a && not (contains l a))
  unfolding rollback
  rollback-set l w a h = detach_each-set (reverse l) w a h ∙ rw (contains-reverse l a)

  pub rollback-keeps :
      (l : List Addr) (w : W) (a : Addr)
      → contains l a ≡ false
      → attached (rollback ipm applier l w).1 a ≡ attached w a
  unfolding rollback
  rollback-keeps l w a h = detach_each-keeps (reverse l) w a (contains-reverse l a ∙ h)

  abbrev pub DetachPost : W → List Addr → Result (Addr × E) Bool × W → Type 0
  DetachPost start stale (ok b, w) =
      (a : Addr) → attached w a ≡ (attached start a && not (contains stale a))
  DetachPost start stale (err (x, e), w) =
      (a : Addr) → contains stale a ≡ false → attached w a ≡ attached start a

  DetachPost-cons :
      (start w : W) (x : Addr) (stale : List Addr) (b : Bool) (r : Result (Addr × E) Bool) (w' : W)
      → (ipm.ensure_absent x start).0 ≡ ok b
      → DetachPost (ipm.ensure_absent x start).1 stale (r, w')
      → DetachPost start (x ∷ stale) (r, w')
  unfolding contains
  DetachPost-cons start w x stale b (ok c) w' h p =
      λ a. ground (arith, p a, laws.absent-done x start b h, laws.absent-other x start a)
  DetachPost-cons start w x stale b (err (y, e)) w' h p =
      λ a out. ground (arith, p a, laws.absent-other x start a)

  pub detach_all-post :
      (stale : List Addr) (changed : Bool) (w : W)
      → DetachPost w stale (detach_all ipm applier stale changed w)
  unfolding detach_all contains
  detach_all-post [] changed w = λ a. ground arith
  detach_all-post (x ∷ stale) changed w = elim (Result-cases (ipm.ensure_absent x w).0) [
    | inl (b, h) ↦
        let after = (ipm.ensure_absent x w).1 in
        let rest = detach_all ipm applier stale (changed || b) after in
        rw (h, detach_all)
          (DetachPost-cons w after x stale b rest.0 rest.1 h
            (detach_all-post stale (changed || b) after))
    | inr (e, h) ↦ rw (h, detach_all) (λ a out. laws.absent-other x w a (ground arith))
  ]
