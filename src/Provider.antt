-- ===== src/Provider.antt =====
-- internal/provider/provider.go: the provider-neutral model of one Service.
pub mod Equality
pub mod Mock
pub mod Haproxy
pub mod Api
use k8s_lb_controller.Prelude.{
  String, ◌≡◌, Bool, ◌&&◌, List, map, Eq, ◌==◌, string_eq, equal_by, arith,
}
use k8s_lb_controller.Prelude.Order.{Order, order_by, order_eq, lex_order, text_order}
use k8s_lb_controller.Prelude.Int.{ℤ, int_eq}
use Prim.Native.String.{◌++◌}

pub record ServiceRef : Type 0 where
  pub namespace : String
  pub name : String

abbrev pub pair_of : ServiceRef → String × String
pair_of r = (r.namespace, r.name)

pub pair_of_injective : (a b : ServiceRef) → pair_of a ≡ pair_of b → a ≡ b
pair_of_injective a b h = ground arith

instance abbrev pub ref_order : Order ServiceRef
ref_order = order_by pair_of pair_of_injective

instance abbrev pub ref_eq : Eq ServiceRef
ref_eq = order_eq

-- ServiceRef.String
unfoldable pub show_ref : ServiceRef → String
show_ref r = r.namespace ++ "/" ++ r.name

pub record BackendEndpoint : Type 0 where
  pub address : String
  pub port : ℤ

pub record ServicePort : Type 0 where
  pub name : String
  pub protocol : String
  pub port : ℤ
  pub target_port : String
  pub backends : List BackendEndpoint

pub record Service : Type 0 where
  pub namespace : String
  pub name : String
  pub load_balancer_class : String
  pub external_ip : String
  pub ports : List ServicePort

-- Service.Ref
abbrev pub ref : Service → ServiceRef
ref s = record { namespace = s.namespace; name = s.name }

-- BackendEndpoint values are compared by ==.
unfoldable pub backend_equal : BackendEndpoint → BackendEndpoint → Bool
backend_equal a b = a.address == b.address && a.port == b.port

-- ServicePort.Equal
unfoldable pub port_equal : ServicePort → ServicePort → Bool
unfolding backend_equal equal_by
port_equal a b =
    a.name == b.name
    && a.protocol == b.protocol
    && a.port == b.port
    && a.target_port == b.target_port
    && equal_by backend_equal a.backends b.backends

-- Service.Equal
unfoldable pub service_equal : Service → Service → Bool
unfolding port_equal equal_by
service_equal a b =
    a.namespace == b.namespace
    && a.name == b.name
    && a.load_balancer_class == b.load_balancer_class
    && a.external_ip == b.external_ip
    && equal_by port_equal a.ports b.ports
