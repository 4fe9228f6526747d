-- ===== src/Ipam/Allocator/Choice.antt =====
-- Which address Allocate returns, against a description that keeps no map of used addresses.
use k8s_lb_controller.Prelude.{
  ◌≡◌, refl, sym, ap, ◌∙◌, ◌≢◌, ◌↔◌, ◌⊎◌, inl, inr, true, false, List, [], ◌∷◌, ◌++◌, Option, none,
  some, Result, ok, err, ◌==◌, nat_eq, contains, arith, Bool-cases, All, All-contains, length,
}
use mathlib.Core.List.{append_assoc}
use mathlib.Core.Path.{subst}
use k8s_lb_controller.Prelude.Order.{nat_order}
use k8s_lb_controller.Netip.{Addr}
use k8s_lb_controller.Kube.{Service}
use k8s_lb_controller.Ipam.Allocator.{
  Allocator, Allocation, AllocateError, Used, no_free_ip, pool_empty, service_key,
  assigned_ip_from_status, collect_used_ips, is_used, first_free, reusable, allocate,
}
use k8s_lb_controller.Ipam.Allocator.Taken.{
  taken, contains-middle, get_nil, is_used-collect_used_ips,
}

-- The address is free: in the pool, and held by no Service that counts.
abbrev pub IsFree : Allocator → Service → List Service → Addr → Type 0
IsFree a current services ip =
    (contains a.pool ip ≡ true) × (taken a (service_key current) services ip ≡ false)

-- Every address of a list is held by a Service that counts.
abbrev pub AllTaken : Allocator → Service → List Service → List Addr → Type 0
AllTaken a current services l = All (λ ip. taken a (service_key current) services ip ≡ true) l

nil_of_length : (l : List Addr) → (length l == 0) ≡ true → l ≡ []
nil_of_length [] h = refl
nil_of_length (x ∷ l) h = ground arith

nonempty : (l : List Addr) (ip : Addr) → contains l ip ≡ true → l ≢ []
unfolding contains
nonempty [] ip h e = ground arith
nonempty (x ∷ l) ip h e = ground arith

module _ (a : Allocator) (current : Service) (services : List Service) where
  used : Used
  used = collect_used_ips a (service_key current) services []

  is_used-used :
      (ip : Addr)
      → contains a.pool ip ≡ true
      → is_used used ip ≡ taken a (service_key current) services ip
  unfolding used
  is_used-used ip h =
      ground (arith, is_used-collect_used_ips a (service_key current) services [] ip, get_nil ip)

  abbrev Answer : List Addr → Result AllocateError Allocation → Type 0
  Answer l (ok r) =
      (before : List Addr) × (after : List Addr) × (l ≡ before ++ r.ip ∷ after)
      × AllTaken a current services before
      × IsFree a current services r.ip
      × (r.reused ≡ false)
  Answer l (err e) = (e ≡ no_free_ip) × AllTaken a current services l

  Answer-cons :
      (ip : Addr) (l : List Addr) (r : Result AllocateError Allocation)
      → taken a (service_key current) services ip ≡ true
      → Answer l r
      → Answer (ip ∷ l) r
  Answer-cons ip l (ok r) t (before, after, e, all, free, fresh) =
      (ip ∷ before, after, ap (◌∷◌ ip) e, (t, all), free, fresh)
  Answer-cons ip l (err e) t (k, all) = (k, (t, all))

  abbrev Within : List Addr → Type 0
  Within l = All (λ ip. contains a.pool ip ≡ true) l

  first_free-Answer : (l : List Addr) → Within l → Answer l (first_free l used)
  unfolding first_free
  first_free-Answer [] h = (refl, tt)
  first_free-Answer (ip ∷ l) h = elim (Bool-cases (is_used used ip)) [
    | inl e ↦ rw e (
        Answer-cons ip l (first_free l used) (sym (is_used-used ip h.0) ∙ e)
          (first_free-Answer l h.1))
    | inr e ↦ rw e ([], l, refl, tt, (h.0, sym (is_used-used ip h.0) ∙ e), refl)
  ]

  Within-tail : (front l : List Addr) → a.pool ≡ front ++ l → Within l
  Within-tail front [] e = tt
  Within-tail front (ip ∷ l) e = (
    rw e (contains-middle front ip l),
    Within-tail (front ++ ip ∷ []) l (e ∙ sym (append_assoc front (ip ∷ []) l)),
  )

  -- What Allocate returns, by the case that it is in.
  abbrev pub Outcome : Result AllocateError Allocation → Type 0
  Outcome (ok r) =
      ((r.reused ≡ true)
        × (assigned_ip_from_status current ≡ some r.ip)
        × IsFree a current services r.ip)
      ⊎ (((ip : Addr) → assigned_ip_from_status current ≡ some ip → ¬ IsFree a current services ip)
          × Answer a.pool (ok r))
  Outcome (err pool_empty) = a.pool ≡ []
  Outcome (err no_free_ip) = AllTaken a current services a.pool × (a.pool ≢ [])

  reuse_cases :
      (o : Option Addr)
      → ((ip : Addr) × (reusable a.pool used o ≡ some ip)
          × (o ≡ some ip)
          × IsFree a current services ip)
        ⊎ ((reusable a.pool used o ≡ none)
            × ((ip : Addr) → o ≡ some ip → ¬ IsFree a current services ip))
  reuse_cases none = inr (refl, λ ip h. ground arith)
  reuse_cases (some ip) = elim (Bool-cases (contains a.pool ip)) [
    | inr out ↦ inr (rw out refl, λ x h free. ground arith)
    | inl within ↦ elim (Bool-cases (is_used used ip)) [
      | inl u ↦ inr (rw (within, u) refl, λ x h free. ground (arith, is_used-used ip within))
      | inr u ↦ inl (ip, rw (within, u) refl, refl, (within, sym (is_used-used ip within) ∙ u))
    ]
  ]

  Outcome-first :
      (r : Result AllocateError Allocation)
      → a.pool ≢ []
      → ((ip : Addr) → assigned_ip_from_status current ≡ some ip → ¬ IsFree a current services ip)
      → Answer a.pool r
      → Outcome r
  Outcome-first (ok r) n h answer = inr (h, answer)
  Outcome-first (err pool_empty) n h answer = ground arith
  Outcome-first (err no_free_ip) n h answer = (answer.1, n)

  -- Allocate keeps the Service's own address where that is free, and else returns the first free
  -- address of the pool; it fails only on an empty pool, and when every address is taken.
  pub allocate-Outcome : Outcome (allocate a current services)
  unfolding allocate used
  allocate-Outcome = elim (Bool-cases (length a.pool == 0)) [
    | inl e ↦ rw e (nil_of_length a.pool e)
    | inr e ↦ elim (reuse_cases (assigned_ip_from_status current)) [
      | inl (ip, r, o, free) ↦ rw (e, r) (inl (refl, o, free))
      | inr (r, none_free) ↦
          rw (e, r)
            (Outcome-first (first_free a.pool used) (λ p. ground arith) none_free
              (first_free-Answer a.pool (Within-tail [] a.pool refl)))
    ]
  ]

module _ (a : Allocator) (current : Service) (services : List Service) where
  -- An address that Allocate returns lies in the pool, and no other Service that the matcher
  -- accepts and that is not being deleted holds it.
  pub allocate-IsFree :
      (r : Allocation) → allocate a current services ≡ ok r → IsFree a current services r.ip
  allocate-IsFree r h =
      elim (subst (Outcome a current services) h (allocate-Outcome a current services)) [
        | inl (_, _, free) ↦ free
        | inr (_, answer) ↦ answer.4
      ]

  not-AllTaken : (ip : Addr) → IsFree a current services ip → ¬ AllTaken a current services a.pool
  not-AllTaken ip free all = ground (
    arith,
    All-contains (λ x. taken a (service_key current) services x ≡ true) a.pool ip all free.0,
  )

  reuses :
      (ip : Addr) (r : Result AllocateError Allocation)
      → assigned_ip_from_status current ≡ some ip
      → IsFree a current services ip
      → Outcome a current services r
      → r ≡ ok (record { ip = ip; reused = true })
  reuses ip (ok r) h free (inl (e, own, _)) = ground arith
  reuses ip (ok r) h free (inr (none_free, _)) = absurd (none_free ip h free)
  reuses ip (err pool_empty) h free e = absurd (nonempty a.pool ip free.0 e)
  reuses ip (err no_free_ip) h free (all, _) = absurd (not-AllTaken ip free all)

  all_taken :
      (r : Result AllocateError Allocation)
      → AllTaken a current services a.pool
      → a.pool ≢ []
      → Outcome a current services r
      → r ≡ err no_free_ip
  all_taken (ok r) all n (inl (_, _, free)) = absurd (not-AllTaken r.ip free all)
  all_taken (ok r) all n (inr (_, answer)) = absurd (not-AllTaken r.ip answer.4 all)
  all_taken (err pool_empty) all n e = absurd (n e)
  all_taken (err no_free_ip) all n _ = refl

  -- A Service keeps the address that its status holds first, as long as that address is free.
  pub allocate-reuses :
      (ip : Addr)
      → assigned_ip_from_status current ≡ some ip
      → IsFree a current services ip
      → allocate a current services ≡ ok (record { ip = ip; reused = true })
  allocate-reuses ip h free =
      reuses ip (allocate a current services) h free (allocate-Outcome a current services)

  -- Allocate reports that no address is free exactly when the pool is not empty and every address
  -- of it is held by a Service that counts.
  pub allocate-no_free_ip :
      (allocate a current services ≡ err no_free_ip)
      ↔ (AllTaken a current services a.pool × (a.pool ≢ []))
  allocate-no_free_ip = (
    λ h. subst (Outcome a current services) h (allocate-Outcome a current services),
    λ p. all_taken (allocate a current services) p.0 p.1 (allocate-Outcome a current services),
  )
