-- ===== src/Ipam/Pool/Accepting.antt =====
-- The lists that ParsePool accepts, by their items.
use k8s_lb_controller.Prelude.{
  ◌≡◌, refl, sym, ap, ◌∙◌, String, true, false, List, [], ◌∷◌, ◌++◌, map, some, ok, ◌==◌, nat_eq,
  string_eq, contains, arith, Bool-cases, inl, inr, ◌≢◌, ◌↔◌, beq_refl,
}
use k8s_lb_controller.Prelude.Texts.{trim_space, split}
use k8s_lb_controller.Netip.{Addr, parse_ipv4}
use k8s_lb_controller.Ipam.Pool.{parse_parts, or_empty, parse_pool}
use k8s_lb_controller.Ipam.Pool.Parsing.{items, NoRepeats, parse_pool-eq-ok}
use mathlib.Core.Path.{subst}
use mathlib.Core.List.{append_assoc, append-nil}

-- None of the addresses has been seen.
abbrev Fresh : List Addr → List Addr → Type 0
Fresh seen added = (a : Addr) → contains added a ≡ true → contains seen a ≡ false

Fresh-tail :
    (seen added : List Addr) (addr : Addr)
    → Fresh seen (addr ∷ added)
    → contains added addr ≡ false
    → Fresh (addr ∷ seen) added
unfolding contains
Fresh-tail seen added addr f new a h = ground (arith, f a)

head_value :
    (s : String) (l : List String) (added : List Addr)
    → map parse_ipv4 (s ∷ l) ≡ map some added
    → (a : Addr) × (rest : List Addr) × (added ≡ a ∷ rest)
      × (parse_ipv4 s ≡ some a)
      × (map parse_ipv4 l ≡ map some rest)
head_value s l [] h = absurd (cc)
head_value s l (a ∷ rest) h = (a, rest, refl, cc, cc)

skip_blank :
    (part : String) (parts : List String) (seen pool : List Addr)
    → (trim_space part == "") ≡ true
    → parse_parts (part ∷ parts) seen pool ≡ parse_parts parts seen pool
unfolding parse_parts
skip_blank part parts seen pool blank = rw blank

take_address :
    (part : String) (parts : List String) (seen pool : List Addr) (addr : Addr)
    → (trim_space part == "") ≡ false
    → parse_ipv4 (trim_space part) ≡ some addr
    → contains seen addr ≡ false
    → parse_parts (part ∷ parts) seen pool ≡ parse_parts parts (addr ∷ seen) (pool ++ addr ∷ [])
unfolding parse_parts
take_address part parts seen pool addr full parsed new = ground arith

items-blank :
    (part : String) (parts : List String)
    → (trim_space part == "") ≡ true
    → items (part ∷ parts) ≡ items parts
unfolding items
items-blank part parts blank = rw blank

items-full :
    (part : String) (parts : List String)
    → (trim_space part == "") ≡ false
    → items (part ∷ parts) ≡ trim_space part ∷ items parts
unfolding items
items-full part parts full = rw full

contains-head : (a : Addr) (l : List Addr) → contains (a ∷ l) a ≡ true
unfolding contains
contains-head a l = rw (beq_refl a)

parse_parts-items :
    (parts : List String) (seen pool added : List Addr)
    → map parse_ipv4 (items parts) ≡ map some added
    → Fresh seen added
    → NoRepeats added
    → parse_parts parts seen pool ≡ ok (pool ++ added)
parse_parts-items [] seen pool [] h f d = unfold parse_parts in ap ok (sym (append-nil pool))
parse_parts-items [] seen pool (a ∷ added) h f d = absurd (unfold items in cc)
parse_parts-items (part ∷ parts) seen pool added h f d = elim (Bool-cases (trim_space part == "")) [
  | inl blank ↦
      skip_blank part parts seen pool blank
      ∙ parse_parts-items parts seen pool added
          (ap (map parse_ipv4) (sym (items-blank part parts blank)) ∙ h) f d
  | inr full ↦
      let (a, rest, same, parsed, more) =
        head_value (trim_space part) (items parts) added
          (ap (map parse_ipv4) (sym (items-full part parts full)) ∙ h) in
      let fresh = subst (Fresh seen) same f in
      let distinct = subst NoRepeats same d in
      take_address part parts seen pool a full parsed (fresh a (contains-head a rest))
      ∙ parse_parts-items parts (a ∷ seen) (pool ++ a ∷ []) rest more
          (Fresh-tail seen rest a fresh distinct.0) distinct.1
      ∙ ap ok (append_assoc pool (a ∷ []) rest ∙ ap (λ l. pool ++ l) (sym same))
]

-- ParsePool returns a pool exactly when the items of the list that are not blank are the texts of
-- its addresses, in their order, and it has an address and none twice.
pub parse_pool_iff :
    (raw : String) (pool : List Addr)
    → (parse_pool raw ≡ ok pool)
      ↔ ((map parse_ipv4 (items (split b',' raw)) ≡ map some pool) × NoRepeats pool × (pool ≢ []))
parse_pool_iff raw pool = (
  parse_pool-eq-ok raw pool,
  λ (values, distinct, nonempty). complete pool values distinct nonempty,
)
  where
    complete :
        (l : List Addr)
        → map parse_ipv4 (items (split b',' raw)) ≡ map some l
        → NoRepeats l
        → l ≢ []
        → parse_pool raw ≡ ok l
    complete [] h d n = absurd (n refl)
    complete (a ∷ l) h d n =
        unfold parse_pool in
        ap or_empty
          (parse_parts-items (split b',' raw) [] [] (a ∷ l) h (λ b e. unfold contains in refl) d)
