-- ===== src/Kube.antt =====
-- The parts of the Kubernetes API objects that the controller reads and writes.
use k8s_lb_controller.Prelude.{Bool, ℕ, String, ◌≡◌, List, Option, Eq, arith}
use k8s_lb_controller.Prelude.Order.{Order, order_by, order_eq, lex_order, text_order}
use k8s_lb_controller.Prelude.Int.{ℤ}

-- types.NamespacedName
pub record NamespacedName : Type 0 where
  pub namespace : String
  pub name : String

abbrev pub pair_of : NamespacedName → String × String
pair_of n = (n.namespace, n.name)

pub pair_of_injective : (a b : NamespacedName) → pair_of a ≡ pair_of b → a ≡ b
pair_of_injective a b h = ground arith

instance abbrev pub name_order : Order NamespacedName
name_order = order_by pair_of pair_of_injective

instance abbrev pub name_eq : Eq NamespacedName
name_eq = order_eq

-- intstr.IntOrString
pub data IntOrString : Type 0 where
  str : String → IntOrString
  int : ℤ → IntOrString

-- corev1.LoadBalancerIngress
pub record Ingress : Type 0 where
  pub ip : String
  pub hostname : String

-- corev1.ServicePort
pub record ServicePort : Type 0 where
  pub name : String
  pub protocol : String
  pub port : ℤ
  pub target_port : IntOrString

-- corev1.Service; a deletion timestamp is an instant.
pub record Service : Type 0 where
  pub namespace : String
  pub name : String
  pub service_type : String
  pub load_balancer_class : Option String
  pub ports : List ServicePort
  pub finalizers : List String
  pub deletion : Option ℕ
  pub generation : ℕ
  pub ingress : List Ingress

-- discoveryv1.EndpointPort; a nil pointer is none.
pub record EndpointPort : Type 0 where
  pub name : Option String
  pub protocol : Option String
  pub port : Option ℤ

-- discoveryv1.Endpoint, with the Ready condition.
pub record Endpoint : Type 0 where
  pub addresses : List String
  pub ready : Option Bool

-- discoveryv1.EndpointSlice; a label that is missing reads as the empty text.
pub record EndpointSlice : Type 0 where
  pub namespace : String
  pub service_label : String
  pub resource_version : String
  pub ports : List EndpointPort
  pub endpoints : List Endpoint

-- What the controller calls of the Kubernetes libraries on an object: ContainsFinalizer,
-- AddFinalizer and RemoveFinalizer of controllerutil, and String of an IntOrString.
pub record Helpers : Type 0 where
  pub contains_finalizer : Service → String → Bool
  pub add_finalizer : Service → String → Service
  pub remove_finalizer : Service → String → Service
  pub show_int_or_string : IntOrString → String
