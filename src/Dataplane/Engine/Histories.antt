-- ===== src/Dataplane/Engine/Histories.antt =====
-- Any sequence of calls of the engine.
use k8s_lb_controller.Prelude.{
  ◌≡◌, refl, sym, ◌∙◌, ap, Bool, false, List, [], ◌∷◌, Option, none, some, ok, Bool-cases, inl, inr,
  if◌then◌else◌,
}
use mathlib.Core.Path.{subst}
use k8s_lb_controller.Prelude.Order.{same, same_iff}
use k8s_lb_controller.Netip.{Addr}
use k8s_lb_controller.Provider.{Service, ServiceRef, ref, ref_order}
use k8s_lb_controller.Dataplane.Store.{Store, normalize_service, get, is_some}
use k8s_lb_controller.Dataplane.Store.Laws.{IsCanonical}
use k8s_lb_controller.Dataplane.Host.{IpManager, ConfigApplier, HostLaws}
use k8s_lb_controller.Dataplane.Engine.{Engine, Step, ensure, delete}
use k8s_lb_controller.Dataplane.Engine.Stores.{delete-absent}
use k8s_lb_controller.Dataplane.Engine.Methods.{
  Serves, ensure-ok, delete-ok, ensure-IsCanonical, delete-IsCanonical,
}

-- The two calls that change what is desired.
pub data Call : Type 0 where
  ensures : Service → Call
  deletes : ServiceRef → Call

-- A map of desired Services, as what it answers for each reference.
abbrev pub Desired : Type 0
Desired = ServiceRef → Option Service

-- What a call that returns does to the map.
abbrev pub specified_call : Call → Desired → Desired
specified_call (ensures s) content r =
    if same (ref s) r then some (normalize_service s) else content r
specified_call (deletes q) content r = if same q r then none else content r

abbrev pub specified : List Call → Desired → Desired
specified [] content = content
specified (c ∷ calls) content = specified calls (specified_call c content)

module _ {W E F : Type 0} (ipm : IpManager W E) (applier : ConfigApplier W F) where
  abbrev pub call : Call → Engine W → Step W E F
  call (ensures s) e = ensure ipm applier s e
  call (deletes r) e = delete ipm applier r e

  -- The engine after the calls, whatever they answer.
  abbrev pub after : List Call → Engine W → Engine W
  after [] e = e
  after (c ∷ calls) e = after calls (call c e).1

  -- Each of the calls returns.
  abbrev pub Return : List Call → Engine W → Type 0
  Return [] e = Unit
  Return (c ∷ calls) e = ((b : Bool) × ((call c e).0 ≡ ok b)) × Return calls (call c e).1

none_of : (o : Option Service) → is_some o ≡ false → o ≡ none
none_of none h = refl
none_of (some s) h = absurd (cc)

-- Taking out what is not there changes nothing.
absent :
    (q r : ServiceRef) (st : Store) (content : Desired)
    → ((p : ServiceRef) → get st p ≡ content p)
    → is_some (get st q) ≡ false
    → content r ≡ (if same q r then none else content r)
absent q r st content v h = elim (Bool-cases (same q r)) [
  | inr n ↦ rw n
  | inl e ↦
      let p : content r ≡ none =
        sym (v r) ∙ ap (get st) (sym ((same_iff q r).0 e)) ∙ none_of (get st q) h in
      rw (e, p)
]

module _ {W E F C : Type 0} (ipm : IpManager W E) (applier : ConfigApplier W F)
    (attached : W → Addr → Bool) (active : W → C) (rendered : List Service → C)
    (laws : HostLaws ipm applier attached active rendered) where
  call-IsCanonical :
      (c : Call) (e : Engine W) → IsCanonical e.store → IsCanonical (call ipm applier c e).1.store
  call-IsCanonical (ensures s) e h =
      ensure-IsCanonical ipm applier attached active rendered laws s e h
  call-IsCanonical (deletes r) e h =
      delete-IsCanonical ipm applier attached active rendered laws r e h

  pub after-IsCanonical :
      (calls : List Call) (e : Engine W)
      → IsCanonical e.store
      → IsCanonical (after ipm applier calls e).store
  after-IsCanonical [] e h = h
  after-IsCanonical (c ∷ calls) e h =
      after-IsCanonical calls (call ipm applier c e).1 (call-IsCanonical c e h)

  abbrev pub ServesHere : Desired → Engine W → Type 0
  ServesHere = Serves ipm applier attached active rendered laws

  Serves-same :
      (a b : Desired) (e : Engine W)
      → ((r : ServiceRef) → a r ≡ b r)
      → ServesHere a e
      → ServesHere b e
  Serves-same a b e h v = (λ r. v.0 r ∙ h r, v.1, v.2)

  call-Serves :
      (c : Call) (e : Engine W) (content : Desired) (b : Bool)
      → IsCanonical e.store
      → ServesHere content e
      → (call ipm applier c e).0 ≡ ok b
      → ServesHere (specified_call c content) (call ipm applier c e).1
  call-Serves (ensures s) e content b can v h =
      Serves-same (λ r. if same (ref s) r then some (normalize_service s) else get e.store r)
        (specified_call (ensures s) content) (ensure ipm applier s e).1
        (λ r. ap (λ o. if same (ref s) r then some (normalize_service s) else o) (v.0 r))
        (ensure-ok ipm applier attached active rendered laws s e b can h)
  call-Serves (deletes q) e content b can v h = elim (Bool-cases (is_some (get e.store q))) [
    | inl there ↦
        Serves-same (λ r. if same q r then none else get e.store r)
          (specified_call (deletes q) content) (delete ipm applier q e).1
          (λ r. ap (λ o. if same q r then none else o) (v.0 r))
          (delete-ok ipm applier attached active rendered laws q e b can there h)
    | inr gone ↦
        subst (λ (z : Step W E F). ServesHere (specified_call (deletes q) content) z.1)
          (sym (delete-absent ipm applier attached active rendered laws q e gone))
          (Serves-same content (specified_call (deletes q) content) e
            (λ r. absent q r e.store content v.0 gone) v)
  ]

  -- Over a host that keeps its laws, from an engine that serves a map on a canonical store: when
  -- each call of a sequence of Ensures and Deletes returns, the engine serves the map that the
  -- calls specify one after the other. It stores that map, the attached addresses are those that
  -- its Services ask for, and the active configuration is theirs.
  pub after-Serves :
      (calls : List Call) (e : Engine W) (content : Desired)
      → IsCanonical e.store
      → ServesHere content e
      → Return ipm applier calls e
      → ServesHere (specified calls content) (after ipm applier calls e)
  after-Serves [] e content can v h = v
  after-Serves (c ∷ calls) e content can v ((b, h), rest) =
      after-Serves calls (call ipm applier c e).1 (specified_call c content)
        (call-IsCanonical c e can) (call-Serves c e content b can v h) rest

  -- Over a host that keeps its laws, from a canonical store: after any sequence of Ensures and
  -- Deletes, also of ones that fail at any place, an Ensure that returns has repaired the host. The
  -- Service is stored in canonical form and the others are as they were, the attached addresses
  -- are those that the stored Services ask for, and the active configuration is theirs.
  pub ensure_after_failures :
      (calls : List Call) (s : Service) (e : Engine W) (b : Bool)
      → IsCanonical e.store
      → (ensure ipm applier s (after ipm applier calls e)).0 ≡ ok b
      → ServesHere
          (specified_call (ensures s) (get (after ipm applier calls e).store))
          (ensure ipm applier s (after ipm applier calls e)).1
  ensure_after_failures calls s e b can h =
      ensure-ok ipm applier attached active rendered laws s (after ipm applier calls e) b
        (after-IsCanonical calls e can) h
