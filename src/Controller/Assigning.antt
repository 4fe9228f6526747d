-- ===== src/Controller/Assigning.antt =====
-- What a reconciliation of a managed Service has established when it returns.
use k8s_lb_controller.Prelude.{
  ◌≡◌, refl, sym, ap, ◌∙◌, ◌<◌, ◌^◌, Bool, true, false, List, [], ◌∷◌, Option, some, ok, ◌==◌,
  nat_eq, string_eq, arith, inl, inr, ◌>>=◌,
}
use k8s_lb_controller.Prelude.Texts.{trim_space}
use k8s_lb_controller.Netip.{Addr, show_ipv4}
use k8s_lb_controller.Kube.{NamespacedName, Service, EndpointSlice, name_eq}
use k8s_lb_controller.Provider.{ServiceRef}
use k8s_lb_controller.Provider as Provider
use k8s_lb_controller.Ipam.Allocator.{Allocator, service_key, counts}
use k8s_lb_controller.Ipam.Allocator.Taken.{holds, taken}
use k8s_lb_controller.Backends.{discover}
use k8s_lb_controller.Status.{desired_ingress, update_status}
use k8s_lb_controller.Status.Updates.{texts, ingress_equal_iff, update_status-Updated}
use k8s_lb_controller.Status.Published.{trim_space-show_ipv4}
use k8s_lb_controller.Controller.Reconcile.{
  Config, Client, ServiceProvider, Verdict, finished, ReconcileError, build_provider_service, wrap,
  publish, ensure_provider, update_status_failed,
}
use k8s_lb_controller.Controller.Laws.{Listed, ClusterLaws}
use k8s_lb_controller.Controller.Inversion.{bind-ok, wrapped-ok}
use mathlib.Core.Path.{subst}

pub taken-holds :
    (a : Allocator) (current : NamespacedName) (l : List Service) (t : Service) (ip : Addr)
    → taken a current l ip ≡ false
    → Listed t l
    → counts a current t ≡ true
    → holds t.ingress ip ≡ false
unfolding taken
taken-holds a current [] t ip h m c = absurd m
taken-holds a current (s ∷ rest) t ip h (inl same) c = ground arith
taken-holds a current (s ∷ rest) t ip h (inr m) c =
    taken-holds a current rest t ip (ground arith) m c

module _ {W E P : Type 0} (cfg : Config) (client : Client W E) (provider : ServiceProvider W P)
    (stored : W → NamespacedName → Option Service)
    (ensured : W → ServiceRef → Option Provider.Service)
    (laws : ClusterLaws client provider stored ensured) where
  -- The status of the Service under a name is one entry with the address.
  abbrev pub Publishes : W → NamespacedName → Addr → Type 0
  Publishes w key ip =
      (t : Service) × (stored w key ≡ some t) × (texts t.ingress ≡ trim_space (show_ipv4 ip) ∷ [])

  -- The provider was last asked to serve the Service under the address.
  abbrev pub Serves : W → NamespacedName → Addr → Type 0
  Serves w key ip =
      (p : Provider.Service) × (ensured w (record { namespace = key.namespace; name = key.name })
        ≡ some p)
      × (p.external_ip ≡ show_ipv4 ip)

  -- The state after the address is published, where only the Service itself may have changed.
  abbrev Done : NamespacedName → Addr → W → W → Type 0
  Done key ip start w =
      Publishes w key ip
      × Serves w key ip
      × ((j : NamespacedName) → (key == j) ≡ false → stored w j ≡ stored start j)

  status-Done :
      (s : Service) (ip : Addr) (w : W) (p : Bool × Service)
      → ip < 2 ^ 32
      → stored w (service_key s) ≡ some s
      → Serves w (service_key s) ip
      → (update_status client.update_service_status s (desired_ingress (show_ipv4 ip)) w).0 ≡ ok p
      → Done
          (service_key s)
          ip
          w
          (update_status client.update_service_status s (desired_ingress (show_ipv4 ip)) w).1
  status-Done s ip w p bound there serves h =
      elim (update_status-Updated client.update_service_status (show_ipv4 ip) s w p h) [
        | inl (same, stays) ↦ rw stays (
          (
            s,
            there,
            (ingress_equal_iff s.ingress (show_ipv4 ip) (trim_space-show_ipv4 ip bound)).0 same,
          ),
          serves,
          λ j n. refl,
        )
        | inr (written, moved) ↦
            let next = record s { ingress = desired_ingress (show_ipv4 ip) } in
            let (t, e, i) = laws.status-stored next w tt written in
            rw moved (
              (t, e, ap texts i),
              (serves.0, laws.status-ensured next w _ ∙ serves.1, serves.2),
              λ j n. laws.status-other next w j n,
            )
      ]

  pub publish-Done :
      (s : Service) (ip : Addr) (slices : List EndpointSlice) (w : W) (v : Verdict)
      → ip < 2 ^ 32
      → stored w (service_key s) ≡ some s
      → (publish cfg client provider s ip slices w).0 ≡ ok v
      → Done (service_key s) ip w (publish cfg client provider s ip slices w).1
  unfolding publish build_provider_service
  publish-Done s ip slices w v bound there h =
      let p = build_provider_service client.helpers s (show_ipv4 ip) (discover s slices) in
      let m = wrap {F = ReconcileError E P} ensure_provider (provider.ensure p) in
      let n =
        wrap {F = ReconcileError E P} update_status_failed
          (update_status client.update_service_status s (desired_ingress (show_ipv4 ip))) in
      let (b, e, rest, moved) = bind-ok m (λ x. n >>= λ y v. (ok finished, v)) v w h in
      let (q, f, _, last) = bind-ok n (λ y v. (ok finished, v)) v (m w).1 rest in
      let w' = (provider.ensure p w).1 in
      let d =
        status-Done s ip w' q bound (laws.ensure-keeps p w _ ∙ there)
          (
            p,
            laws.ensure-ensured p w b (wrapped-ok ensure_provider (provider.ensure p w).0 b e),
            refl,
          )
          (wrapped-ok update_status_failed _ q f) in
      subst (Done (service_key s) ip w) (sym (moved ∙ last))
        (d.0, d.1, λ j n. d.2 j n ∙ laws.ensure-keeps p w j)
