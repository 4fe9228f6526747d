-- ===== src/Dataplane/Store/Valid.antt =====
-- Stores of Services that pass the validation.
use k8s_lb_controller.Prelude.{sym, [], ◌∷◌, All, Bool-cases, inl, inr}
use mathlib.Core.Path.{subst}
use k8s_lb_controller.Prelude.Order.{same}
use k8s_lb_controller.Prelude.Sort.Kept.{All-sort}
use k8s_lb_controller.Prelude.Assoc.{Map, put}
use k8s_lb_controller.Prelude.Assoc as Map
use k8s_lb_controller.Provider.{Service, ServiceRef, ref, ref_order}
use k8s_lb_controller.Dataplane.Store.{
  Store, normalize_service, clone, clone_entries, upsert, delete, values, list, is_some,
  service_less,
}
use k8s_lb_controller.Dataplane.Store.Laws.{Canonical, IsCanonical}
use k8s_lb_controller.Dataplane.Render.Validate.Accepts.{IsValidService}

abbrev Entries : Map ServiceRef Service → Type 0
Entries m = All (λ e. IsValidService e.1) m

abbrev pub StoredValid : Store → Type 0
StoredValid st = Entries st.services

put-valid :
    (m : Map ServiceRef Service) (r : ServiceRef) (s : Service)
    → IsValidService s
    → Entries m
    → Entries (put m r s)
unfolding put
put-valid [] r s h v = (h, tt)
put-valid ((q, t) ∷ m) r s h v = elim (Bool-cases (same q r)) [
  | inl e ↦ rw e (h, v.1)
  | inr e ↦ rw e (v.0, put-valid m r s h v.1)
]

remove-valid : (m : Map ServiceRef Service) (r : ServiceRef) → Entries m → Entries (Map.remove m r)
unfolding Map.remove
remove-valid [] r v = tt
remove-valid ((q, t) ∷ m) r v = elim (Bool-cases (same q r)) [
  | inl e ↦ rw e v.1
  | inr e ↦ rw e (v.0, remove-valid m r v.1)
]

clone_entries-valid :
    (m cloned : Map ServiceRef Service)
    → Canonical m
    → Entries m
    → Entries cloned
    → Entries (clone_entries m cloned)
unfolding clone_entries
clone_entries-valid [] cloned c v w = w
clone_entries-valid ((r, s) ∷ m) cloned c v w =
    clone_entries-valid m (put cloned r (normalize_service s)) c.1 v.1
      (put-valid cloned r (normalize_service s) (subst IsValidService (sym c.0.1) v.0) w)

pub clone-valid : (st : Store) → IsCanonical st → StoredValid st → StoredValid (clone st)
unfolding clone
clone-valid st c v = clone_entries-valid st.services [] c.entries v tt

pub upsert-valid :
    (st : Store) (s : Service)
    → IsValidService (normalize_service s)
    → StoredValid st
    → StoredValid (upsert st s)
unfolding upsert
upsert-valid st s h v = put-valid st.services (ref (normalize_service s)) (normalize_service s) h v

pub delete-valid : (st : Store) (r : ServiceRef) → StoredValid st → StoredValid (delete st r).0
unfolding delete
delete-valid st r v = elim (Bool-cases (is_some (Map.get st.services r))) [
  | inl e ↦ rw e (remove-valid st.services r v)
  | inr e ↦ rw e v
]

values-valid :
    (m : Map ServiceRef Service) → Canonical m → Entries m → All IsValidService (values m)
unfolding values
values-valid [] c v = tt
values-valid ((r, s) ∷ m) c v = (subst IsValidService (sym c.0.1) v.0, values-valid m c.1 v.1)

pub list-valid : (st : Store) → IsCanonical st → StoredValid st → All IsValidService (list st)
unfolding list
list-valid st c v =
    All-sort IsValidService service_less (values st.services) (values-valid st.services c.entries v)
