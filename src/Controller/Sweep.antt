-- ===== src/Controller/Sweep.antt =====
-- Runs of Reconcile one after the other, for several Services.
use k8s_lb_controller.Prelude.{
  ◌≡◌, refl, sym, ◌∙◌, ◌<◌, ◌^◌, true, false, List, [], ◌∷◌, Option, none, some, ok, ◌==◌, contains,
  All, nat_eq,
}
use k8s_lb_controller.Netip.{Addr}
use k8s_lb_controller.Kube.{NamespacedName, Service, name_eq}
use k8s_lb_controller.Provider.{ServiceRef}
use k8s_lb_controller.Provider as Provider
use k8s_lb_controller.Ipam.Allocator.Taken.{holds}
use k8s_lb_controller.Controller.Filter.{is_managed}
use k8s_lb_controller.Controller.Reconcile.{Config, Client, ServiceProvider, finished, reconcile}
use k8s_lb_controller.Controller.Laws.{ClusterLaws, IsCurrent}
use k8s_lb_controller.Controller.Assigning.{Publishes}
use k8s_lb_controller.Controller.Reads.{flipped, read_states}
use k8s_lb_controller.Controller.Sharing.{reconcile_assigns}
use k8s_lb_controller.Controller.Isolation.{IsolationLaws}
use k8s_lb_controller.Controller.Isolation.Runs.{reconcile-other}

-- No name occurs twice.
abbrev pub DistinctNames : List NamespacedName → Type 0
DistinctNames [] = Unit
DistinctNames (k ∷ ks) = All (λ j. (k == j) ≡ false) ks × DistinctNames ks

module _ {W E P : Type 0} (cfg : Config) (client : Client W E) (provider : ServiceProvider W P)
    (stored : W → NamespacedName → Option Service)
    (ensured : W → ServiceRef → Option Provider.Service)
    (laws : ClusterLaws client provider stored ensured)
    (isolated : IsolationLaws client provider stored)
    (bounds : All (λ ip. ip < 2 ^ 32) cfg.ip_pool) where
  -- The state after a run for each name.
  abbrev pub sweep : List NamespacedName → W → W
  sweep [] w = w
  sweep (k ∷ ks) w = sweep ks (reconcile cfg client provider k w).1

  -- Each run returns and asks for no other one.
  abbrev pub Finish : List NamespacedName → W → Type 0
  Finish [] w = Unit
  Finish (k ∷ ks) w =
      ((reconcile cfg client provider k w).0 ≡ ok finished)
      × Finish ks (reconcile cfg client provider k w).1

  -- The cache has caught up in the states in which each run reads.
  abbrev pub Current : List NamespacedName → W → Type 0
  Current [] w = Unit
  Current (k ∷ ks) w =
      All (IsCurrent client stored) (read_states cfg client provider k w)
      × Current ks (reconcile cfg client provider k w).1

  -- There is a managed Service of the name that is not being deleted.
  abbrev pub Wanted : W → NamespacedName → Type 0
  Wanted w k =
      (s : Service) × (stored w k ≡ some s)
      × (s.deletion ≡ none)
      × (is_managed s cfg.load_balancer_class ≡ true)

  -- The Service publishes one address, of the pool.
  abbrev pub HasAddress : W → NamespacedName → Type 0
  HasAddress w k =
      (ip : Addr) × (contains cfg.ip_pool ip ≡ true)
      × Publishes cfg client provider stored ensured laws w k ip

  -- The second Service does too, and the first does not hold that address.
  abbrev pub Unshared : W → NamespacedName → NamespacedName → Type 0
  Unshared w k j =
      (t : Service) × (ip : Addr) × (stored w k ≡ some t)
      × (contains cfg.ip_pool ip ≡ true)
      × Publishes cfg client provider stored ensured laws w j ip
      × (holds t.ingress ip ≡ false)

  -- Each Service has an address, which none before it holds.
  abbrev pub Apart : List NamespacedName → W → Type 0
  Apart [] w = Unit
  Apart (k ∷ ks) w = HasAddress w k × All (Unshared w k) ks × Apart ks w

  once-other :
      (k j : NamespacedName) (w : W)
      → (k == j) ≡ false
      → stored (reconcile cfg client provider k w).1 j ≡ stored w j
  once-other k j w n = reconcile-other cfg client provider stored ensured laws isolated k j n w

  sweep-other :
      (ks : List NamespacedName) (j : NamespacedName) (w : W)
      → All (λ k. (j == k) ≡ false) ks
      → stored (sweep ks w) j ≡ stored w j
  sweep-other [] j w n = refl
  sweep-other (k ∷ ks) j w (n, ns) =
      sweep-other ks j (reconcile cfg client provider k w).1 ns ∙ once-other k j w (flipped j k n)

  still-Wanted :
      (k : NamespacedName) (ks : List NamespacedName) (w : W)
      → All (λ j. (k == j) ≡ false) ks
      → All (Wanted w) ks
      → All (Wanted (reconcile cfg client provider k w).1) ks
  still-Wanted k [] w n h = tt
  still-Wanted k (j ∷ js) w (n, ns) ((s, there, alive, managed), h) =
      ((s, once-other k j w n ∙ there, alive, managed), still-Wanted k js w ns h)

  later-Unshared :
      (k : NamespacedName) (t : Service) (ks : List NamespacedName) (w : W)
      → stored w k ≡ some t
      → t.deletion ≡ none
      → is_managed t cfg.load_balancer_class ≡ true
      → All (λ j. (k == j) ≡ false) ks
      → DistinctNames ks
      → All (Wanted w) ks
      → Current ks w
      → Finish ks w
      → All (Unshared (sweep ks w) k) ks
  later-Unshared k t [] w there alive managed n d h c f = tt
  later-Unshared k t (j ∷ js) w there alive managed (n, ns) (e, ds) ((s, at, young, mine), hs)
        (c, cs) (f, fs) =
      let w' = (reconcile cfg client provider j w).1 in
      let held : stored w' k ≡ some t = once-other j k w (flipped k j n) ∙ there in
      let (ip, pooled, (u, found, one), _, (apart, _)) =
        reconcile_assigns cfg client provider stored ensured laws bounds ((k, t) ∷ []) j s w c at
          young mine ((flipped k j n, laws.stored-key k w t there, managed, alive), tt) f
          (held, tt) in
      (
        (
          t,
          ip,
          sweep-other js k w' ns ∙ held,
          pooled,
          (u, sweep-other js j w' e ∙ found, one),
          apart,
        ),
        later-Unshared k t js w' held alive managed ns ds (still-Wanted j js w e hs) cs fs,
      )

  -- For a pool of 32-bit addresses, while nobody else writes and when the cache has caught up in
  -- the states in which each run reads: when Reconcile runs once for each of several names, there
  -- is a managed Service of each that is not being deleted, before and after, and each run returns
  -- without asking for another, then afterwards every Service publishes one address, of the pool,
  -- that none of the Services before it holds.
  pub sweep-Apart :
      (ks : List NamespacedName) (w : W)
      → DistinctNames ks
      → All (Wanted w) ks
      → Current ks w
      → Finish ks w
      → All (Wanted (sweep ks w)) ks
      → Apart ks (sweep ks w)
  sweep-Apart [] w d h c f end = tt
  sweep-Apart (k ∷ ks) w (n, d) ((s, at, young, mine), hs) (c, cs) (f, fs)
        ((t, there, alive, managed), end) =
      let w' = (reconcile cfg client provider k w).1 in
      let wanted = still-Wanted k ks w n hs in
      let (ip, pooled, (u, found, one), _, _) =
        reconcile_assigns cfg client provider stored ensured laws bounds [] k s w c at young mine tt
          f tt in
      (
        (ip, pooled, (u, sweep-other ks k w' n ∙ found, one)),
        later-Unshared k t ks w' (sym (sweep-other ks k w' n) ∙ there) alive managed n d wanted cs
            fs,
        sweep-Apart ks w' d wanted cs fs end,
      )
