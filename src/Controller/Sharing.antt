-- ===== src/Controller/Sharing.antt =====
-- Reconcile against the other Services of the cluster.
use k8s_lb_controller.Prelude.{
  ◌≡◌, refl, sym, ap, ◌∙◌, ◌<◌, ◌^◌, Bool, true, false, List, Option, none, some, Result, ok, err,
  ◌==◌, nat_eq, string_eq, contains, All, All-contains, arith,
}
use k8s_lb_controller.Netip.{Addr}
use k8s_lb_controller.Kube.{NamespacedName, Service, name_eq}
use k8s_lb_controller.Provider.{ServiceRef}
use k8s_lb_controller.Provider as Provider
use k8s_lb_controller.Ipam.Allocator.{
  Allocation, AllocateError, allocate, service_key, counts, no_free_ip, pool_empty,
}
use k8s_lb_controller.Ipam.Allocator.Taken.{holds}
use k8s_lb_controller.Ipam.Allocator.Choice.{allocate-IsFree}
use k8s_lb_controller.Controller.Filter.{is_managed}
use k8s_lb_controller.Controller.Reconcile.{
  Config, Client, ServiceProvider, Verdict, finished, ReconcileError, allocator, wrap, publish,
  ensure_service_finalizer, after_allocate, assign, refreshed, with_service, reconcile_managed,
  reconcile, found, list_slices_failed, list_services_failed, refresh_service, get_service,
}
use k8s_lb_controller.Controller.Laws.{Listed, ClusterLaws, IsCurrent}
use k8s_lb_controller.Controller.Reads.{
  flipped, All-both, read_states, later_reads, ensure_finalizer_same, to_managed,
}
use k8s_lb_controller.Controller.Inversion.{bind-ok, wrapped-ok}
use k8s_lb_controller.Controller.Assigning.{taken-holds, Publishes, Serves, publish-Done}
use mathlib.Core.Path.{subst}

module _ {W E P : Type 0} (cfg : Config) (client : Client W E) (provider : ServiceProvider W P)
    (stored : W → NamespacedName → Option Service)
    (ensured : W → ServiceRef → Option Provider.Service)
    (laws : ClusterLaws client provider stored ensured)
    (bounds : All (λ ip. ip < 2 ^ 32) cfg.ip_pool) (rivals : List (NamespacedName × Service)) where
  -- The Service has an address of the pool, published and asked of the provider, that none of the
  -- rivals holds.
  abbrev pub Assigned : W → NamespacedName → Type 0
  Assigned w key =
      (ip : Addr) × (contains cfg.ip_pool ip ≡ true)
      × Publishes cfg client provider stored ensured laws w key ip
      × Serves cfg client provider stored ensured laws w key ip
      × All (λ r. holds r.1.ingress ip ≡ false) rivals

  -- Another name with its Service, which is managed and not being deleted.
  abbrev IsRival : NamespacedName → NamespacedName × Service → Type 0
  IsRival key r =
      ((key == r.0) ≡ false)
      × (service_key r.1 ≡ r.0)
      × (is_managed r.1 cfg.load_balancer_class ≡ true)
      × (r.1.deletion ≡ none)

  abbrev pub AreRivals : NamespacedName → Type 0
  AreRivals key = All (IsRival key) rivals

  -- The rivals are what the server holds.
  abbrev IsStored : W → NamespacedName × Service → Type 0
  IsStored w r = stored w r.0 ≡ some r.1

  abbrev pub AreStored : W → Type 0
  AreStored w = All (IsStored w) rivals

  other_counts :
      (s t : Service)
      → (service_key s == service_key t) ≡ false
      → is_managed t cfg.load_balancer_class ≡ true
      → t.deletion ≡ none
      → counts (allocator cfg) (service_key s) t ≡ true
  other_counts s t n m alive = ground (arith, alive, m, flipped (service_key s) (service_key t) n)

  after_allocate-Assigned :
      (s : Service) (services : List Service) (r : Result AllocateError Allocation) (w : W)
      → r ≡ allocate (allocator cfg) s services
      → stored w (service_key s) ≡ some s
      → AreRivals (service_key s)
      → ((k : NamespacedName) (t : Service) → stored w k ≡ some t → Listed t services)
      → (after_allocate cfg client provider s r w).0 ≡ ok finished
      → AreStored (after_allocate cfg client provider s r w).1
      → Assigned (after_allocate cfg client provider s r w).1 (service_key s)
  unfolding after_allocate
  after_allocate-Assigned s services (err no_free_ip) w same there rival listed h end = cc
  after_allocate-Assigned s services (err pool_empty) w same there rival listed h end = cc
  after_allocate-Assigned s services (ok a) w same there rival listed h end =
      let slices =
        wrap {F = ReconcileError E P} list_slices_failed
          (client.list_endpoint_slices s.namespace s.name) in
      let (l, e, rest, moved) = bind-ok slices (publish cfg client provider s a.ip) finished w h in
      let free = allocate-IsFree (allocator cfg) s services a (sym same) in
      let w' = (slices w).1 in
      let bound = All-contains (λ ip. ip < 2 ^ 32) cfg.ip_pool a.ip bounds free.0 in
      let d =
        publish-Done cfg client provider stored ensured laws s a.ip l w' finished bound
          (laws.slices-keeps s.namespace s.name _ w ∙ there) rest in
      let apart : (r : NamespacedName × Service)
          → IsRival (service_key s) r
          → IsStored (publish cfg client provider s a.ip l w').1 r
          → holds r.1.ingress a.ip ≡ false =
        λ r is at.
          taken-holds (allocator cfg) (service_key s) services r.1 a.ip free.1
            (listed r.0 r.1 (sym (d.2 r.0 is.0 ∙ laws.slices-keeps s.namespace s.name r.0 w) ∙ at))
            (other_counts s r.1 (ap (λ j. service_key s == j) is.1 ∙ is.0) is.2 is.3) in
      subst (λ v. Assigned v (service_key s)) (sym moved)
        (a.ip, free.0, d.0, d.1, All-both rivals apart rival (subst AreStored moved end))

  assign-Assigned :
      (s : Service) (w : W)
      → IsCurrent client stored w
      → stored w (service_key s) ≡ some s
      → AreRivals (service_key s)
      → (assign cfg client provider s w).0 ≡ ok finished
      → AreStored (assign cfg client provider s w).1
      → Assigned (assign cfg client provider s w).1 (service_key s)
  unfolding assign
  assign-Assigned s w now there rival h end =
      let m = wrap {F = ReconcileError E P} list_services_failed client.list_services in
      let next =
        λ (l : List Service). after_allocate cfg client provider s (allocate (allocator cfg) s l) in
      let (l, e, rest, moved) = bind-ok m next finished w h in
      let w' = (client.list_services w).1 in
      subst (λ v. Assigned v (service_key s)) (sym moved)
        (after_allocate-Assigned s l (allocate (allocator cfg) s l) w' refl
          (laws.list-keeps _ w ∙ there) rival
          (λ k t at.
            now.list-lists l k t (wrapped-ok list_services_failed _ l e)
              (sym (laws.list-keeps k w) ∙ at))
          rest (subst AreStored moved end))

  kept-Assigned :
      (s : Service) (key : NamespacedName) (w : W)
      → IsCurrent client stored w
      → stored w key ≡ some s
      → AreRivals key
      → (assign cfg client provider s w).0 ≡ ok finished
      → AreStored (assign cfg client provider s w).1
      → Assigned (assign cfg client provider s w).1 key
  kept-Assigned s key w now there rival h end =
      let same = laws.stored-key key w s there in
      subst (Assigned _) same (
        assign-Assigned s w now (ap (stored w) same ∙ there) (subst AreRivals (sym same) rival) h
          end)

  with_service-Assigned :
      (o : Option Service) (key : NamespacedName) (w : W)
      → IsCurrent client stored w
      → stored w key ≡ o
      → AreRivals key
      → (with_service cfg client provider (assign cfg client provider) o w).0 ≡ ok finished
      → AreStored (with_service cfg client provider (assign cfg client provider) o w).1
      → Assigned (with_service cfg client provider (assign cfg client provider) o w).1 key
  with_service-Assigned none key w now there rival h end = cc
  with_service-Assigned (some s) key w now there rival h end =
      kept-Assigned s key w now there rival h end

  refreshed-Assigned :
      (added : Bool) (s : Service) (key : NamespacedName) (w : W)
      → IsCurrent client stored w
      → IsCurrent client stored (client.get key w).1
      → (added ≡ false → stored w key ≡ some s)
      → AreRivals key
      → (refreshed cfg client provider added s key (assign cfg client provider) w).0 ≡ ok finished
      → AreStored (refreshed cfg client provider added s key (assign cfg client provider) w).1
      → Assigned (refreshed cfg client provider added s key (assign cfg client provider) w).1 key
  unfolding refreshed
  refreshed-Assigned false s key w now then there rival h end =
      kept-Assigned s key w now (there refl) rival h end
  refreshed-Assigned true s key w now then there rival h end =
      let m = wrap {F = ReconcileError E P} refresh_service (client.get key) in
      let next = with_service cfg client provider (assign cfg client provider) in
      let (o, e, rest, moved) = bind-ok m next finished w h in
      subst (λ v. Assigned v key) (sym moved)
        (with_service-Assigned o key (client.get key w).1 then
          (laws.get-keeps key key w ∙ now.get-stored key o (wrapped-ok refresh_service _ o e)) rival
          rest (subst AreStored moved end))

  managed-Assigned :
      (s : Service) (key : NamespacedName) (w : W)
      → All (IsCurrent client stored) (later_reads cfg client provider key (ok (some s)) w)
      → stored w key ≡ some s
      → AreRivals key
      → (reconcile_managed cfg client provider key s w).0 ≡ ok finished
      → AreStored (reconcile_managed cfg client provider key s w).1
      → Assigned (reconcile_managed cfg client provider key s w).1 key
  unfolding reconcile_managed
  managed-Assigned s key w (now, (then, _)) there rival h end =
      let m = ensure_service_finalizer cfg client provider s in
      let next = λ (p : Bool × Service).
        refreshed cfg client provider p.0 p.1 key (assign cfg client provider) in
      let (p, e, rest, moved) = bind-ok m next finished w h in
      subst (λ v. Assigned v key) (sym moved)
        (refreshed-Assigned p.0 p.1 key (m w).1 now then
          (λ fresh.
            let same = ensure_finalizer_same cfg client provider s w p e fresh in
            ap (λ v. stored v key) same.1 ∙ there ∙ ap some (sym same.0))
          rival rest (subst AreStored moved end))

  -- For a pool of 32-bit addresses, while nobody else writes and when the cache has caught up in
  -- the states in which the run reads: when the reconciliation of a managed Service that is not
  -- being deleted returns without asking for another run, the Service has an address of the pool;
  -- its status is that one address, the provider was last asked to serve it there, and none of any
  -- number of other Services that are managed and not being deleted holds that address in its
  -- status.
  pub reconcile_assigns :
      (key : NamespacedName) (s : Service) (w : W)
      → All (IsCurrent client stored) (read_states cfg client provider key w)
      → stored w key ≡ some s
      → s.deletion ≡ none
      → is_managed s cfg.load_balancer_class ≡ true
      → AreRivals key
      → (reconcile cfg client provider key w).0 ≡ ok finished
      → AreStored (reconcile cfg client provider key w).1
      → Assigned (reconcile cfg client provider key w).1 key
  unfolding reconcile
  reconcile_assigns key s w (now, then) there alive managed rival h end =
      let m = wrap {F = ReconcileError E P} get_service (client.get key) in
      let (o, e, rest, moved) = bind-ok m (found cfg client provider key) finished w h in
      let w' = (client.get key w).1 in
      let got = wrapped-ok get_service (client.get key w).0 o e in
      let is : o ≡ some s = sym (now.get-stored key o got) ∙ there in
      let path : found cfg client provider key o w'
          ≡ reconcile_managed cfg client provider key s w' =
        ap (λ z. found cfg client provider key z w') is
        ∙ to_managed cfg client provider key s w' alive managed in
      let state = moved ∙ ap (λ (z : Result (ReconcileError E P) Verdict × W). z.1) path in
      subst (λ v. Assigned v key) (sym state)
        (managed-Assigned s key w'
          (subst (λ z. All (IsCurrent client stored) (later_reads cfg client provider key z w'))
            (got ∙ ap ok is) then)
          (laws.get-keeps key key w ∙ there) rival
          (sym (ap (λ (z : Result (ReconcileError E P) Verdict × W). z.0) path) ∙ rest)
          (subst AreStored state end))
