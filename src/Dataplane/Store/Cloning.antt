-- ===== src/Dataplane/Store/Cloning.antt =====
-- Store.Clone as an operation on the map.
use k8s_lb_controller.Prelude.{◌≡◌, refl, sym, ◌∙◌, [], ◌∷◌, none, some, arith}
use k8s_lb_controller.Prelude.Assoc.{Map, IsMap, put, put-IsMap, get-put, get_fresh}
use k8s_lb_controller.Prelude.Assoc as Map
use k8s_lb_controller.Provider.{ServiceRef, Service, ref_order}
use k8s_lb_controller.Dataplane.Store.{Store, normalize_service, clone_entries, clone, get}
use k8s_lb_controller.Dataplane.Store.Normal.{normalize_service_idem}
use k8s_lb_controller.Dataplane.Store.Laws.{Canonical, IsCanonical, put-Canonical}
use mathlib.Core.Path.{subst}

clone_entries-IsMap :
    (m cloned : Map ServiceRef Service) → IsMap cloned → IsMap (clone_entries m cloned)
unfolding clone_entries
clone_entries-IsMap [] cloned d = d
clone_entries-IsMap ((r, s) ∷ m) cloned d =
    clone_entries-IsMap m (put cloned r (normalize_service s))
      (put-IsMap cloned r (normalize_service s) d)

clone_entries-Canonical :
    (m cloned : Map ServiceRef Service)
    → Canonical m
    → Canonical cloned
    → Canonical (clone_entries m cloned)
unfolding clone_entries
clone_entries-Canonical [] cloned c d = d
clone_entries-Canonical ((r, s) ∷ m) cloned c d =
    clone_entries-Canonical m (put cloned r (normalize_service s)) c.1 (
      subst (λ (k : ServiceRef). Canonical (put cloned k (normalize_service s))) (sym c.0.0)
        (put-Canonical cloned (normalize_service s) (normalize_service_idem s) d))

get-clone_entries :
    (m cloned : Map ServiceRef Service) (r : ServiceRef)
    → IsMap m
    → Canonical m
    → Map.get (clone_entries m cloned) r
      ≡ (elim (Map.get m r) [ none ↦ Map.get cloned r | some s ↦ some s ])
unfolding clone_entries Map.get
get-clone_entries [] cloned r d c = refl
get-clone_entries ((q, s) ∷ m) cloned r d c = ground (
  arith,
  get-clone_entries m (put cloned q (normalize_service s)) r d.1 c.1,
  get-put cloned q r (normalize_service s),
  c.0.1,
  get_fresh q m d.0,
  ref_order.cmp-eq q r,
)

pub clone-IsCanonical : (st : Store) → IsCanonical st → IsCanonical (clone st)
unfolding clone
clone-IsCanonical st c = record {
  is_map = clone_entries-IsMap st.services [] tt;
  entries = clone_entries-Canonical st.services [] c.entries tt;
}

-- A clone answers every Get as the store itself.
pub get-clone : (st : Store) (r : ServiceRef) → IsCanonical st → get (clone st) r ≡ get st r
unfolding get clone
get-clone st r c = get-clone_entries st.services [] r c.is_map c.entries ∙ ground arith
