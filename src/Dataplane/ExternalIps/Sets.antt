-- ===== src/Dataplane/ExternalIps/Sets.antt =====
-- The lists of addresses as sets.
use k8s_lb_controller.Prelude.{
  ◌≡◌, refl, ◌∙◌, Bool, false, not, ◌&&◌, ◌||◌, List, [], ◌∷◌, none, some, Result, ok, err, ◌==◌,
  nat_eq, string_eq, contains, contains-append, arith, Bool-cases, Option-cases, inl, inr,
}
use k8s_lb_controller.Prelude.Order.{nat_order}
use k8s_lb_controller.Prelude.Sort.{sort, insert, before}
use k8s_lb_controller.Netip.{Addr, parse_ipv4, parse_ipv4-empty}
use k8s_lb_controller.Provider.{Service}
use k8s_lb_controller.Dataplane.ExternalIps.{
  DesiredIpError, id_addr, add_new, sort_result, unique_ips, desired_external_ips,
  diff_external_ips,
}

pub contains-diff :
    (left right : List Addr) (a : Addr)
    → contains (diff_external_ips left right) a ≡ (contains left a && not (contains right a))
unfolding diff_external_ips contains
contains-diff [] right a = refl
contains-diff (x ∷ left) right a = ground (arith, contains-diff left right a)

contains-insert :
    (x : Addr) (l : List Addr) (a : Addr)
    → contains (insert (before id_addr) x l) a ≡ (x == a || contains l a)
unfolding insert contains
contains-insert x [] a = refl
contains-insert x (y ∷ l) a = ground (arith, contains-insert x l a)

pub contains-sort : (l : List Addr) (a : Addr) → contains (sort (before id_addr) l) a ≡ contains l a
unfolding sort contains
contains-sort [] a = refl
contains-sort (x ∷ l) a =
    ground (arith, contains-sort l a, contains-insert x (sort (before id_addr) l) a)

-- A Service asks for an address.
unfoldable pub wanted : List Service → Addr → Bool
wanted [] a = false
wanted (s ∷ rest) a =
    (elim (parse_ipv4 s.external_ip) [ none ↦ false | some addr ↦ addr == a ]) || wanted rest a

contains-add_new :
    (unique : List Addr) (x a : Addr)
    → contains (add_new unique x) a ≡ (x == a || contains unique a)
unfolding contains
contains-add_new unique x a = ground (arith, contains-append unique (x ∷ []) a)

contains-unique_ips :
    (services : List Service) (unique result : List Addr) (a : Addr)
    → unique_ips services unique ≡ ok result
    → contains result a ≡ (contains unique a || wanted services a)
unfolding unique_ips wanted
contains-unique_ips [] unique result a h = ground arith
contains-unique_ips (s ∷ rest) unique result a h = elim (Bool-cases (s.external_ip == "")) [
  | inl e ↦
      ground (arith, contains-unique_ips rest unique result a, parse_ipv4-empty s.external_ip e)
  | inr e ↦ elim (Option-cases (parse_ipv4 s.external_ip)) [
    | inl p ↦ absurd (ground arith)
    | inr (addr, p) ↦ ground (
      arith,
      contains-unique_ips rest (add_new unique addr) result a,
      contains-add_new unique addr a,
    )
  ]
]

sort_result-eq :
    (r : Result DesiredIpError (List Addr)) (ips : List Addr)
    → sort_result r ≡ ok ips
    → (l : List Addr) × (r ≡ ok l) × (ips ≡ sort (before id_addr) l)
sort_result-eq (ok l) ips h = (l, refl, ground arith)
sort_result-eq (err e) ips h = cc

-- The desired addresses, when they are found without an error, are those that some Service asks
-- for.
pub contains-desired_external_ips :
    (services : List Service) (ips : List Addr) (a : Addr)
    → desired_external_ips services ≡ ok ips
    → contains ips a ≡ wanted services a
unfolding desired_external_ips
contains-desired_external_ips services ips a h =
    let (l, e, sorted) = sort_result-eq (unique_ips services []) ips h in
    rw sorted (contains-sort l a ∙ contains-unique_ips services [] l a e)
