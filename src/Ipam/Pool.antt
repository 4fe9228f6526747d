-- ===== src/Ipam/Pool.antt =====
-- internal/ipam/pool.go: the comma-separated list of IPv4 addresses.
pub mod Parsing
pub mod Bounds
pub mod Accepting
pub mod RoundTrip
use k8s_lb_controller.Prelude.{
  String, Bool, List, [], ◌∷◌, ◌++◌, Option, none, some, Result, ok, err, ◌==◌, nat_eq, string_eq,
  if◌then◌else◌, contains, ◌≡◌, refl,
}
use k8s_lb_controller.Prelude.Texts.{trim_space, split}
use k8s_lb_controller.Netip.{Addr, parse_ipv4}

pub data PoolError : Type 0 where
  not_ipv4 : String → PoolError
  duplicate : String → PoolError
  no_address : PoolError

-- One round of the loop: the address is valid and new, or the loop returns. `seen` is the set.
abbrev pub PoolResult : Type 0
PoolResult = Result PoolError (List Addr)

unfoldable pub parse_parts : List String → List Addr → List Addr → PoolResult
unfolding trim_space parse_ipv4
parse_parts [] seen pool = ok pool
parse_parts (part ∷ parts) seen pool =
    let candidate = trim_space part in
    let skip = parse_parts parts seen pool in
    if candidate == "" then skip else elim (parse_ipv4 candidate) [
      | none ↦ err (not_ipv4 candidate)
      | some addr ↦
          let rest = parse_parts parts (addr ∷ seen) (pool ++ addr ∷ []) in
          if contains seen addr then err (duplicate candidate) else rest
    ]

abbrev pub or_empty : PoolResult → PoolResult
or_empty (ok []) = err no_address
or_empty (ok (a ∷ pool)) = ok (a ∷ pool)
or_empty (err e) = err e

-- ParsePool
unfoldable pub parse_pool : String → PoolResult
unfolding parse_parts split
parse_pool raw = or_empty (parse_parts (split b',' raw) [] [])

parse_pool_example : parse_pool " 10.0.0.2, ,10.0.0.1" ≡ ok (167772162 ∷ 167772161 ∷ [])
unfolding parse_pool contains
parse_pool_example = refl

parse_pool_duplicate : parse_pool "10.0.0.2,10.0.0.2 " ≡ err (duplicate "10.0.0.2")
unfolding parse_pool contains
parse_pool_duplicate = refl
