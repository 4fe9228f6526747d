-- ===== src/Command/Kubeconfig/Contexts.antt =====
-- The contexts that a diagnosis names.
use k8s_lb_controller.Prelude.{
  ◌≡◌, refl, sym, ap, ◌∙◌, String, List, [], ◌∷◌, none, some, ◌==◌, string_eq, if◌then◌else◌,
  contains, beq_refl, equal-true, Bool-cases, inl, inr, arith,
}
use k8s_lb_controller.Prelude.Order.{text_order, same, same_iff}
use k8s_lb_controller.Prelude.Sort.{sort, before, Distinct, find_key}
use k8s_lb_controller.Prelude.Sort.Unique.{sort_unique}
use k8s_lb_controller.Command.Kubeconfig.{RawConfig, inspect}

abbrev self : String → String
self name = name

same-equal : (a b : String) → same a b ≡ (a == b)
same-equal a b = elim (Bool-cases (a == b)) [
  | inl e ↦ (same_iff a b).1 (equal-true e) ∙ sym e
  | inr e ↦ elim (Bool-cases (same a b)) [
    | inl k ↦ absurd (ground (arith, (same_iff a b).0 k, beq_refl b))
    | inr k ↦ k ∙ sym e
  ]
]

find_key-contains :
    (name : String) (l : List String)
    → find_key self name l ≡ (if contains l name then some name else none)
unfolding find_key contains
find_key-contains name [] = refl
find_key-contains name (x ∷ l) =
    rw (same-equal x name) (ground (arith, find_key-contains name l, equal-true {a = x} {b = name}))

-- Two kubeconfigs with the same current context and the same context names, each name once, in
-- whatever order Go's map gives them, lead to one diagnosis.
pub inspect_deterministic :
    (path : String) (checked : List String) (a b : RawConfig)
    → a.current_context ≡ b.current_context
    → Distinct self a.contexts
    → Distinct self b.contexts
    → ((name : String) → contains a.contexts name ≡ contains b.contexts name)
    → inspect path checked a ≡ inspect path checked b
unfolding inspect
inspect_deterministic path checked a b e da db h =
    let sorted : sort (before self) a.contexts ≡ sort (before self) b.contexts =
      sort_unique self a.contexts b.contexts da db (λ name.
        find_key-contains name a.contexts
        ∙ ap (λ t. if t then some name else none) (h name)
        ∙ sym (find_key-contains name b.contexts)) in
    rw (e, sorted) refl
