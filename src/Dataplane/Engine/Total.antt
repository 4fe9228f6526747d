-- ===== src/Dataplane/Engine/Total.antt =====
-- Every call of a sequence over a host on which nothing fails.
use k8s_lb_controller.Prelude.{
  ◌≡◌, sym, ap, ◌∙◌, Bool, false, List, [], ◌∷◌, ok, Bool-cases, inl, inr,
}
use mathlib.Core.Path.{subst}
use k8s_lb_controller.Netip.{Addr}
use k8s_lb_controller.Provider.{Service, ServiceRef}
use k8s_lb_controller.Dataplane.Store.{Store, normalize_service, clone, get, is_some}
use k8s_lb_controller.Dataplane.Store.Laws.{IsCanonical, upsert-IsCanonical}
use k8s_lb_controller.Dataplane.Store.Laws
use k8s_lb_controller.Dataplane.Store.Normal.{normalize_service_idem}
use k8s_lb_controller.Dataplane.Store.Cloning.{clone-IsCanonical}
use k8s_lb_controller.Dataplane.Store.Valid.{
  StoredValid, clone-valid, upsert-valid, delete-valid, list-valid,
}
use k8s_lb_controller.Dataplane.Render.Validate.Accepts.{IsValidService, validate_service_iff}
use k8s_lb_controller.Dataplane.Host.{IpManager, ConfigApplier, HostLaws}
use k8s_lb_controller.Dataplane.Engine.{Engine, Step, ensure, delete}
use k8s_lb_controller.Dataplane.Engine.Stores.{
  ensured, deleted, ensure-valid, delete-present, delete-absent, ensure-keeps, delete-keeps,
}
use k8s_lb_controller.Dataplane.Engine.Progress.{Working, reconcile_locked-works}
use k8s_lb_controller.Dataplane.Engine.Histories.{
  Call, ensures, deletes, Desired, specified, after, Return, ServesHere, after-Serves,
}

-- What the calls ask to be served is valid.
abbrev pub Valid : List Call → Type 0
Valid [] = Unit
Valid (ensures s ∷ calls) = IsValidService (normalize_service s) × Valid calls
Valid (deletes r ∷ calls) = Valid calls

-- A store from which nothing is refused.
abbrev pub IsSound : Store → Type 0
IsSound st = IsCanonical st × StoredValid st

ensured-IsSound :
    (st : Store) (s : Service)
    → IsValidService (normalize_service s)
    → IsSound st
    → IsSound (ensured st s)
ensured-IsSound st s h (can, v) = (
  upsert-IsCanonical (clone st) (normalize_service s) (clone-IsCanonical st can),
  upsert-valid (clone st) (normalize_service s)
      (subst IsValidService (sym (normalize_service_idem s)) h) (clone-valid st can v),
)

deleted-IsSound : (st : Store) (r : ServiceRef) → IsSound st → IsSound (deleted st r)
deleted-IsSound st r (can, v) = (
  Laws.delete-IsCanonical (clone st) r (clone-IsCanonical st can),
  delete-valid (clone st) r (clone-valid st can v),
)

module _ {W E F C : Type 0} (ipm : IpManager W E) (applier : ConfigApplier W F)
    (attached : W → Addr → Bool) (active : W → C) (rendered : List Service → C)
    (laws : HostLaws ipm applier attached active rendered) (works : Working ipm applier) where
  ensure-returns :
      (s : Service) (e : Engine W)
      → IsValidService (normalize_service s)
      → IsSound e.store
      → (b : Bool) × ((ensure ipm applier s e).0 ≡ ok b)
  ensure-returns s e h sound =
      let (can, v) = ensured-IsSound e.store s h sound in
      let (b, k) =
        reconcile_locked-works ipm applier works (ensured e.store s) e
          (list-valid (ensured e.store s) can v) in
      (
        b,
        ap (λ (t : Step W E F). t.0)
              (ensure-valid ipm applier attached active rendered laws s e tt
                ((validate_service_iff (normalize_service s)).1 h))
            ∙ k,
      )

  delete-returns :
      (r : ServiceRef) (e : Engine W)
      → IsSound e.store
      → (b : Bool) × ((delete ipm applier r e).0 ≡ ok b)
  delete-returns r e sound = elim (Bool-cases (is_some (get e.store r))) [
    | inr gone ↦ (
      false,
      ap (λ (t : Step W E F). t.0)
          (delete-absent ipm applier attached active rendered laws r e gone),
    )
    | inl there ↦
        let (can, v) = deleted-IsSound e.store r sound in
        let (b, k) =
          reconcile_locked-works ipm applier works (deleted e.store r) e
            (list-valid (deleted e.store r) can v) in
        (
          b,
          ap (λ (t : Step W E F). t.0)
                (delete-present ipm applier attached active rendered laws r e there)
              ∙ k,
        )
  ]

  -- Over a host that keeps its laws and on which nothing fails, from a store of valid Services in
  -- canonical form: each call of any sequence of Ensures of valid Services and of Deletes returns.
  pub calls-Return :
      (calls : List Call) (e : Engine W)
      → Valid calls
      → IsSound e.store
      → Return ipm applier calls e
  calls-Return [] e v sound = tt
  calls-Return (ensures s ∷ calls) e (h, v) sound = (
    ensure-returns s e h sound,
    calls-Return calls (ensure ipm applier s e).1 v (
        ensure-keeps ipm applier attached active rendered laws IsSound s e sound
          (λ u valid. ensured-IsSound e.store s h sound)),
  )
  calls-Return (deletes r ∷ calls) e v sound = (
    delete-returns r e sound,
    calls-Return calls (delete ipm applier r e).1 v (
        delete-keeps ipm applier attached active rendered laws IsSound r e sound
          (deleted-IsSound e.store r sound)),
  )

  -- Over a host that keeps its laws and on which nothing fails, from an engine that serves a map of
  -- valid Services in canonical form: any sequence of Ensures of valid Services and of Deletes ends
  -- with the engine serving the map that the calls specify one after the other. It stores that map,
  -- the attached addresses are those that its Services ask for, and the active configuration is
  -- theirs.
  pub calls_converge :
      (calls : List Call) (e : Engine W) (content : Desired)
      → Valid calls
      → IsSound e.store
      → ServesHere ipm applier attached active rendered laws content e
      → ServesHere ipm applier attached active rendered laws
          (specified calls content)
          (after ipm applier calls e)
  calls_converge calls e content v sound h =
      after-Serves ipm applier attached active rendered laws calls e content sound.0 h
        (calls-Return calls e v sound)
