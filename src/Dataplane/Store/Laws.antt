-- ===== src/Dataplane/Store/Laws.antt =====
-- The store as a finite map from references to canonical Services.
use k8s_lb_controller.Prelude.{
  ◌≡◌, refl, sym, ◌∙◌, false, [], ◌∷◌, none, some, arith, if◌then◌else◌, inl, inr, Bool-cases, All,
}
use mathlib.Core.Path.{subst}
use k8s_lb_controller.Prelude.Order.{same}
use k8s_lb_controller.Prelude.Sort.{find_key, Fresh, Distinct}
use k8s_lb_controller.Prelude.Sort.Unique.{sort_unique}
use k8s_lb_controller.Prelude.Assoc.{Map, IsMap, put, put-IsMap, remove-IsMap, get-put, get-remove}
use k8s_lb_controller.Prelude.Assoc as Map
use k8s_lb_controller.Provider.{ServiceRef, Service, ref, ref_order}
use k8s_lb_controller.Dataplane.Store.{
  Store, new_store, normalize_service, upsert, delete, get, values, list, is_some,
}
use k8s_lb_controller.Dataplane.Store.Normal.{service_less-before, normalize_service_idem}

-- Each entry is under its own reference and in canonical form.
abbrev pub Canonical : Map ServiceRef Service → Type 0
Canonical m = All (λ e. (e.0 ≡ ref e.1) × (normalize_service e.1 ≡ e.1)) m

pub record IsCanonical (st : Store) : Type 0 where
  pub is_map : IsMap st.services
  pub entries : Canonical st.services

pub new_store-IsCanonical : IsCanonical new_store
new_store-IsCanonical = record { is_map = tt; entries = tt }

pub put-Canonical :
    (m : Map ServiceRef Service) (s : Service)
    → normalize_service s ≡ s
    → Canonical m
    → Canonical (put m (ref s) s)
unfolding put
put-Canonical [] s h c = ((refl, h), tt)
put-Canonical ((r, t) ∷ m) s h c = elim (Bool-cases (same r (ref s))) [
  | inl e ↦ rw e ((refl, h), c.1)
  | inr e ↦ rw e (c.0, put-Canonical m s h c.1)
]

remove-Canonical :
    (m : Map ServiceRef Service) (r : ServiceRef) → Canonical m → Canonical (Map.remove m r)
unfolding Map.remove
remove-Canonical [] r c = tt
remove-Canonical ((q, t) ∷ m) r c = elim (Bool-cases (same q r)) [
  | inl e ↦ rw e c.1
  | inr e ↦ rw e (c.0, remove-Canonical m r c.1)
]

pub upsert-IsCanonical : (st : Store) (s : Service) → IsCanonical st → IsCanonical (upsert st s)
unfolding upsert
upsert-IsCanonical st s c = record {
  is_map = put-IsMap st.services (ref (normalize_service s)) (normalize_service s) c.is_map;
  entries = put-Canonical st.services (normalize_service s) (normalize_service_idem s) c.entries;
}

pub delete-IsCanonical :
    (st : Store) (r : ServiceRef) → IsCanonical st → IsCanonical (delete st r).0
unfolding delete
delete-IsCanonical st r c = elim (Bool-cases (is_some (Map.get st.services r))) [
  | inl e ↦ rw e (record {
    is_map = remove-IsMap st.services r c.is_map;
    entries = remove-Canonical st.services r c.entries;
  })
  | inr e ↦ rw e c
]

-- After an upsert the Service's canonical form is under its reference, and every other reference
-- has what it had.
pub get-upsert :
    (st : Store) (s : Service) (r : ServiceRef)
    → get (upsert st s) r ≡ (if same (ref s) r then some (normalize_service s) else get st r)
unfolding get upsert normalize_service
get-upsert st s r = get-put st.services (ref s) r (normalize_service s)

-- After a Delete from a canonical store nothing is under the reference, and every other reference
-- has what it had.
pub get-delete :
    (st : Store) (r q : ServiceRef)
    → IsCanonical st
    → get (delete st r).0 q ≡ (if same r q then none else get st q)
unfolding get delete
get-delete st r q c = ground (arith, get-remove st.services r q c.is_map, ref_order.cmp-eq r q)

find_key-values :
    (m : Map ServiceRef Service) (r : ServiceRef)
    → Canonical m
    → find_key ref r (values m) ≡ Map.get m r
unfolding find_key values Map.get
find_key-values [] r c = refl
find_key-values ((q, s) ∷ m) r c = rw (c.0.1, c.0.0, find_key-values m r c.1)

Fresh-values :
    (m : Map ServiceRef Service) (r : ServiceRef)
    → Canonical m
    → Fresh Map.key_of r m
    → Fresh ref r (values m)
unfolding values
Fresh-values [] r c f = tt
Fresh-values ((q, s) ∷ m) r c f =
    (subst (λ (k : ServiceRef). same k r ≡ false) c.0.0 f.0, Fresh-values m r c.1 f.1)

Distinct-values : (m : Map ServiceRef Service) → Canonical m → IsMap m → Distinct ref (values m)
unfolding values
Distinct-values [] c d = tt
Distinct-values ((q, s) ∷ m) c d = (
  subst (λ (k : ServiceRef). Fresh ref k (values m)) c.0.0 (Fresh-values m q c.1 d.0),
  Distinct-values m c.1 d.1,
)

-- List depends, for canonical stores, on what the store holds under each reference and on nothing
-- else: the order in which Go walks the map does not show.
pub list_deterministic :
    (a b : Store)
    → IsCanonical a
    → IsCanonical b
    → ((r : ServiceRef) → get a r ≡ get b r)
    → list a ≡ list b
unfolding list get
list_deterministic a b ca cb h = rw service_less-before (
    sort_unique ref (values a.services) (values b.services)
      (Distinct-values a.services ca.entries ca.is_map)
      (Distinct-values b.services cb.entries cb.is_map)
      (λ r.
        find_key-values a.services r ca.entries
        ∙ h r
        ∙ sym (find_key-values b.services r cb.entries)))
