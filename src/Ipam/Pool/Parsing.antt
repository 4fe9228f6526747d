-- ===== src/Ipam/Pool/Parsing.antt =====
-- What ParsePool accepts.
use k8s_lb_controller.Prelude.{
  ◌≡◌, refl, ◌∙◌, String, true, false, List, [], ◌∷◌, ◌++◌, map, some, ok, err, ◌==◌, nat_eq,
  string_eq, if◌then◌else◌, contains, arith, Bool-cases, Option-cases, inl, inr, ◌≢◌,
}
use k8s_lb_controller.Prelude.Texts.{trim_space, split}
use k8s_lb_controller.Netip.{Addr, parse_ipv4}
use k8s_lb_controller.Ipam.Pool.{PoolResult, parse_parts, or_empty, parse_pool}
use mathlib.Core.Path.{ap₂}
use mathlib.Core.List.{append_assoc, append-nil}

-- The items of the list that are not blank.
unfoldable pub items : List String → List String
items [] = []
items (part ∷ parts) =
    let rest = items parts in if trim_space part == "" then rest else trim_space part ∷ rest

-- No address occurs twice.
abbrev pub NoRepeats : List Addr → Type 0
NoRepeats [] = Unit
NoRepeats (a ∷ l) = (contains l a ≡ false) × NoRepeats l

-- What has been appended, given what was seen.
pub record Parsed (parts : List String) (seen added : List Addr) : Type 0 where
  pub values : map parse_ipv4 (items parts) ≡ map some added
  pub fresh : (a : Addr) → contains added a ≡ true → contains seen a ≡ false
  pub distinct : NoRepeats added

abbrev Goal : List String → List Addr → List Addr → List Addr → Type 0
Goal parts seen pool result =
    (added : List Addr) × (result ≡ pool ++ added) × Parsed parts seen added

Goal-blank :
    (part : String) (parts : List String) (seen pool result : List Addr)
    → (trim_space part == "") ≡ true
    → Goal parts seen pool result
    → Goal (part ∷ parts) seen pool result
unfolding items
Goal-blank part parts seen pool result blank (added, e, p) =
    (added, e, record { values = rw blank p.values; fresh = p.fresh; distinct = p.distinct })

Goal-added :
    (part : String) (parts : List String) (seen pool result : List Addr) (addr : Addr)
    → (trim_space part == "") ≡ false
    → parse_ipv4 (trim_space part) ≡ some addr
    → contains seen addr ≡ false
    → Goal parts (addr ∷ seen) (pool ++ addr ∷ []) result
    → Goal (part ∷ parts) seen pool result
unfolding items contains
Goal-added part parts seen pool result addr full parsed new (added, e, p) = (
  addr ∷ added,
  e ∙ append_assoc pool (addr ∷ []) added,
  record {
    values = rw full (ap₂ ◌∷◌ parsed p.values);
    fresh = λ a h. ground (arith, p.fresh a);
    distinct = (ground (arith, p.fresh addr), p.distinct);
  },
)

parse_parts-Parsed :
    (parts : List String) (seen pool result : List Addr)
    → parse_parts parts seen pool ≡ ok result
    → Goal parts seen pool result
unfolding parse_parts items contains
parse_parts-Parsed [] seen pool result h = (
  [],
  ground (arith, append-nil pool),
  record { values = refl; fresh = λ a e. ground arith; distinct = tt },
)
parse_parts-Parsed (part ∷ parts) seen pool result h = elim (Bool-cases (trim_space part == "")) [
  | inl blank ↦
      Goal-blank part parts seen pool result blank
        (parse_parts-Parsed parts seen pool result (ground arith))
  | inr full ↦ elim (Option-cases (parse_ipv4 (trim_space part))) [
    | inl bad ↦ absurd (ground arith)
    | inr (addr, parsed) ↦ elim (Bool-cases (contains seen addr)) [
      | inl old ↦ absurd (ground arith)
      | inr new ↦
          Goal-added part parts seen pool result addr full parsed new
            (parse_parts-Parsed parts (addr ∷ seen) (pool ++ addr ∷ []) result (ground arith))
    ]
  ]
]

or_empty-eq-ok :
    (r : PoolResult) (pool : List Addr) → or_empty r ≡ ok pool → (r ≡ ok pool) × (pool ≢ [])
or_empty-eq-ok (ok []) pool h = cc
or_empty-eq-ok (ok (a ∷ l)) pool h = (h, λ e. cc)
or_empty-eq-ok (err e) pool h = cc

-- ParsePool, when it returns a pool, returns the addresses of the items that are not blank, in
-- their order and each valid; the pool has at least one address and none twice.
pub parse_pool-eq-ok :
    (raw : String) (pool : List Addr)
    → parse_pool raw ≡ ok pool
    → (map parse_ipv4 (items (split b',' raw)) ≡ map some pool) × NoRepeats pool × (pool ≢ [])
unfolding parse_pool
parse_pool-eq-ok raw pool h =
    let (e, nonempty) = or_empty-eq-ok (parse_parts (split b',' raw) [] []) pool h in
    let (added, same, p) = parse_parts-Parsed (split b',' raw) [] [] pool e in
    (rw same p.values, rw same p.distinct, nonempty)
