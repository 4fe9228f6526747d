-- ===== src/Dataplane/ExternalIps.antt =====
-- internal/dataplane/externalips.go: the addresses that the desired Services need.
pub mod Sets
use k8s_lb_controller.Prelude.{
  String, Bool, List, [], ◌∷◌, ◌++◌, Option, none, some, Result, ok, err, ◌==◌, nat_eq, string_eq,
  if◌then◌else◌, contains,
}
use k8s_lb_controller.Prelude.Order.{nat_order}
use k8s_lb_controller.Prelude.Sort.{sort, before}
use k8s_lb_controller.Netip.{Addr, parse_ipv4}
use k8s_lb_controller.Provider.{Service, ServiceRef, ref}

pub record DesiredIpError : Type 0 where
  pub text : String
  pub service : ServiceRef

abbrev pub id_addr : Addr → Addr
id_addr a = a

-- The set of the loop, as a list without repetition.
abbrev pub add_new : List Addr → Addr → List Addr
add_new unique addr = if contains unique addr then unique else unique ++ addr ∷ []

unfoldable pub unique_ips : List Service → List Addr → Result DesiredIpError (List Addr)
unfolding contains
unique_ips [] unique = ok unique
unique_ips (s ∷ rest) unique =
    let skip = unique_ips rest unique in
    if s.external_ip == "" then skip else elim (parse_ipv4 s.external_ip) [
      | none ↦ err (record { text = s.external_ip; service = ref s })
      | some addr ↦ unique_ips rest (add_new unique addr)
    ]

abbrev pub sort_result : Result DesiredIpError (List Addr) → Result DesiredIpError (List Addr)
sort_result (ok l) = ok (sort (before id_addr) l)
sort_result (err e) = err e

-- desiredExternalIPs
unfoldable pub desired_external_ips : List Service → Result DesiredIpError (List Addr)
unfolding unique_ips sort
desired_external_ips services = sort_result (unique_ips services [])

-- diffExternalIPs
unfoldable pub diff_external_ips : List Addr → List Addr → List Addr
unfolding contains
diff_external_ips [] right = []
diff_external_ips (addr ∷ left) right =
    let rest = diff_external_ips left right in if contains right addr then rest else addr ∷ rest
