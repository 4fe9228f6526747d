-- ===== src/Provider/Equality.antt =====
-- Service.Equal against equality of the whole model.
use k8s_lb_controller.Prelude.{
  ◌≡◌, refl, ◌↔◌, Bool, true, List, [], ◌∷◌, string_eq, equal_by, arith,
}
use k8s_lb_controller.Prelude.Int.{int_eq}
use k8s_lb_controller.Provider.{
  BackendEndpoint, ServicePort, Service, backend_equal, port_equal, service_equal,
}
use text.Mathlib.TextEquality.{eq_iff}

module _ {ℓ} {A : Type ℓ} (f : A → A → Bool) (f_iff : (a b : A) → (f a b ≡ true) ↔ (a ≡ b)) where
  pub equal_by-eq : (xs ys : List A) → equal_by f xs ys ≡ true → xs ≡ ys
  unfolding equal_by
  equal_by-eq [] [] h = refl
  equal_by-eq [] (y ∷ ys) h = ground arith
  equal_by-eq (x ∷ xs) [] h = ground arith
  equal_by-eq (x ∷ xs) (y ∷ ys) h = ground (arith, f_iff x y, equal_by-eq xs ys)

  pub equal_by_refl : (xs : List A) → equal_by f xs xs ≡ true
  unfolding equal_by
  equal_by_refl [] = refl
  equal_by_refl (x ∷ xs) = ground (arith, f_iff x x, equal_by_refl xs)

  pub equal_by_iff : (xs ys : List A) → (equal_by f xs ys ≡ true) ↔ (xs ≡ ys)
  equal_by_iff xs ys = (equal_by-eq xs ys, λ e. rw e (equal_by_refl ys))

pub backend_equal_iff : (a b : BackendEndpoint) → (backend_equal a b ≡ true) ↔ (a ≡ b)
unfolding backend_equal
backend_equal_iff a b = ground (arith, eq_iff a.address b.address, int_eq.equal_iff a.port b.port)

pub port_equal_iff : (a b : ServicePort) → (port_equal a b ≡ true) ↔ (a ≡ b)
unfolding port_equal
port_equal_iff a b = ground (
  arith,
  eq_iff a.name b.name,
  eq_iff a.protocol b.protocol,
  int_eq.equal_iff a.port b.port,
  eq_iff a.target_port b.target_port,
  equal_by_iff backend_equal backend_equal_iff a.backends b.backends,
)

-- Two Services are Equal exactly when they are the same in every field, port and backend.
pub service_equal_iff : (a b : Service) → (service_equal a b ≡ true) ↔ (a ≡ b)
unfolding service_equal
service_equal_iff a b = ground (
  arith,
  eq_iff a.namespace b.namespace,
  eq_iff a.name b.name,
  eq_iff a.load_balancer_class b.load_balancer_class,
  eq_iff a.external_ip b.external_ip,
  equal_by_iff port_equal port_equal_iff a.ports b.ports,
)
