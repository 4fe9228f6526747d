-- ===== src/Dataplane/Engine/Progress.antt =====
-- Calls of the engine over a host on which nothing fails.
use k8s_lb_controller.Prelude.{
  ◌≡◌, refl, ap, Bool, true, false, not, ◌||◌, List, [], ◌∷◌, ◌++◌, Option, none, some, Result, ok,
  err, arith, Bool-cases, Option-cases, inl, inr, if◌then◌else◌, All, ◌==◌, string_eq,
}
use k8s_lb_controller.Prelude.Order.{nat_order}
use k8s_lb_controller.Prelude.Sort.{sort, before}
use k8s_lb_controller.Netip.{Addr, parse_ipv4}
use k8s_lb_controller.Provider.{Service}
use k8s_lb_controller.Dataplane.Store.{Store, list}
use k8s_lb_controller.Dataplane.ExternalIps.{
  DesiredIpError, unique_ips, desired_external_ips, sort_result, add_new, id_addr,
  diff_external_ips,
}
use k8s_lb_controller.Dataplane.Render.Validate.Accepts.{IsValidService}
use k8s_lb_controller.Dataplane.Host.{IpManager, ConfigApplier}
use k8s_lb_controller.Dataplane.Engine.{
  Engine, Step, attach_all, detach_all, commit, committed, after_apply, after_attach, after_desired,
  after_list, reconcile_locked, is_empty,
}

-- Desired addresses of Services whose external address is one.
unique_ips-valid :
    (l : List Service) (unique : List Addr)
    → All IsValidService l
    → (ips : List Addr) × (unique_ips l unique ≡ ok ips)
unfolding unique_ips
unique_ips-valid [] unique h = (unique, refl)
unique_ips-valid (s ∷ l) unique h = elim (Bool-cases (s.external_ip == "")) [
  | inl e ↦ let (ips, p) = unique_ips-valid l unique h.1 in (ips, rw e p)
  | inr n ↦ elim (Option-cases (parse_ipv4 s.external_ip)) [
    | inl none_there ↦ absurd (not_none (parse_ipv4 s.external_ip) none_there h.0.2)
    | inr (a, p) ↦
        let (ips, q) = unique_ips-valid l (add_new unique a) h.1 in (ips, rw (n, p, unique_ips) q)
  ]
]
  where
    not_none :
        (o : Option Addr) → o ≡ none → (elim o [ none ↦ false | some addr ↦ true ]) ≡ true → ⊥
    not_none none e k = absurd (cc)
    not_none (some a) e k = absurd (cc)

pub desired-valid :
    (l : List Service)
    → All IsValidService l
    → (ips : List Addr) × (desired_external_ips l ≡ ok ips)
unfolding desired_external_ips
desired-valid l h =
    let (ips, p) = unique_ips-valid l [] h in (sort (before id_addr) ips, ap sort_result p)

-- A host on which every call returns; the applier does for Services that are valid.
pub record Working {W E F : Type 0} (m : IpManager W E) (c : ConfigApplier W F) : Type 0 where
  pub lists : (w : W) → (l : List Addr) × ((m.list w).0 ≡ ok l)
  pub attaches : (a : Addr) (w : W) → (b : Bool) × ((m.ensure_present a w).0 ≡ ok b)
  pub detaches : (a : Addr) (w : W) → (b : Bool) × ((m.ensure_absent a w).0 ≡ ok b)
  pub applies :
      (l : List Service) (w : W) → All IsValidService l → (b : Bool) × ((c.apply l w).0 ≡ ok b)

module _ {W E F : Type 0} (ipm : IpManager W E) (applier : ConfigApplier W F)
    (works : Working ipm applier) where
  attach_all-works :
      (new acc : List Addr) (w : W)
      → (l : List Addr) × ((attach_all ipm applier new acc w).0 ≡ ok l)
  unfolding attach_all
  attach_all-works [] acc w = (acc, refl)
  attach_all-works (x ∷ new) acc w =
      let (b, e) = works.attaches x w in
      let (l, h) =
        attach_all-works new (if b then acc ++ x ∷ [] else acc) (ipm.ensure_present x w).1 in
      (l, rw (e, attach_all) h)

  detach_all-works :
      (stale : List Addr) (changed : Bool) (w : W)
      → (b : Bool) × ((detach_all ipm applier stale changed w).0 ≡ ok b)
  unfolding detach_all
  detach_all-works [] changed w = (changed, refl)
  detach_all-works (x ∷ stale) changed w =
      let (b, e) = works.detaches x w in
      let (c, h) = detach_all-works stale (changed || b) (ipm.ensure_absent x w).1 in
      (c, rw (e, detach_all) h)

  -- The Services that a store lists are valid.
  abbrev pub AllValid : Store → Type 0
  AllValid st = All IsValidService (list st)

  committed-works :
      (next : Store) (r : Result (Addr × E) Bool) (w : W) (b : Bool)
      → r ≡ ok b
      → (committed ipm applier next r w).0 ≡ ok b
  committed-works next (ok c) w b h = ground arith
  committed-works next (err x) w b h = absurd (cc)

  abbrev Returns : Step W E F → Type 0
  Returns s = (b : Bool) × (s.0 ≡ ok b)

  after_apply-works :
      (old next : Store) (stale added : List Addr) (r : Result F Bool) (w : W) (b : Bool)
      → r ≡ ok b
      → Returns (after_apply ipm applier old next stale added r w)
  unfolding after_apply commit
  after_apply-works old next stale added (err x) w b h = absurd (cc)
  after_apply-works old next stale added (ok c) w b h =
      let (d, k) = detach_all-works stale (c || not (is_empty added)) w in
      (
        d,
        committed-works next (detach_all ipm applier stale (c || not (is_empty added)) w).0
            (detach_all ipm applier stale (c || not (is_empty added)) w).1 d k,
      )

  after_attach-works :
      (old next : Store) (stale : List Addr) (r : Result (Addr × E × List Addr) (List Addr)) (w : W)
      (l : List Addr)
      → AllValid next
      → r ≡ ok l
      → Returns (after_attach ipm applier old next stale r w)
  unfolding after_attach
  after_attach-works old next stale (err x) w l v h = absurd (cc)
  after_attach-works old next stale (ok added) w l v h =
      let (b, k) = works.applies (list next) w v in
      after_apply-works old next stale added (applier.apply (list next) w).0
        (applier.apply (list next) w).1 b k

  after_desired-works :
      (old next : Store) (current : List Addr) (r : Result DesiredIpError (List Addr)) (w : W)
      (ips : List Addr)
      → AllValid next
      → r ≡ ok ips
      → Returns (after_desired ipm applier old next current r w)
  unfolding after_desired
  after_desired-works old next current (err x) w ips v h = absurd (cc)
  after_desired-works old next current (ok desired) w ips v h =
      let (l, k) = attach_all-works (diff_external_ips desired current) [] w in
      after_attach-works old next (diff_external_ips current desired)
        (attach_all ipm applier (diff_external_ips desired current) [] w).0
        (attach_all ipm applier (diff_external_ips desired current) [] w).1 l v k

  after_list-works :
      (old next : Store) (r : Result E (List Addr)) (w : W) (l : List Addr)
      → AllValid next
      → r ≡ ok l
      → Returns (after_list ipm applier old next r w)
  unfolding after_list
  after_list-works old next (err x) w l v h = absurd (cc)
  after_list-works old next (ok current) w l v h =
      let (ips, k) = desired-valid (list next) v in
      after_desired-works old next current (desired_external_ips (list next)) w ips v k

  pub reconcile_locked-works :
      (next : Store) (e : Engine W) → AllValid next → Returns (reconcile_locked ipm applier next e)
  unfolding reconcile_locked
  reconcile_locked-works next e v =
      let (l, h) = works.lists e.host in
      after_list-works e.store next (ipm.list e.host).0 (ipm.list e.host).1 l v h
