-- ===== src/Ipam/Pool/RoundTrip.antt =====
-- A pool that is printed as a list of its addresses.
use k8s_lb_controller.Prelude.{
  ◌≡◌, refl, ap, ◌∙◌, ◌<◌, ◌≤◌, ◌^◌, ℕ, ◌+◌, ◌-◌, ◌*◌, String, false, List, [], ◌∷◌, ◌++◌, map,
  some, ok, ◌==◌, nat_eq, string_eq, contains, arith, Bool-cases, inl, inr, ◌≢◌, All,
}
use mathlib.Core.Path.{ap₂}
use Prim.Native.Char.{code}
use Prim.Native.String as Text
use Prim.Native.String.{◌++◌ as ◌⊕◌}
use k8s_lb_controller.Prelude.Texts.{
  codes, is_space, is_empty, trim_left, trim_right, trim_space, split,
}
use k8s_lb_controller.Prelude.Texts.Trimming.{and_false}
use k8s_lb_controller.Prelude.Paths.Laws.{has, split_plain, split-append, one_char-append}
use k8s_lb_controller.Netip.{Addr, parse_fields, parse_ipv4, show_ipv4, parse_ipv4-empty}
use k8s_lb_controller.Netip.RoundTrip.{parse_ipv4-show_ipv4}
use k8s_lb_controller.Ipam.Pool.{parse_pool}
use k8s_lb_controller.Ipam.Pool.Parsing.{items, NoRepeats}
use k8s_lb_controller.Ipam.Pool.Accepting.{parse_pool_iff}

-- A digit or a dot, or the slash between them.
abbrev IsPlain : ℕ → Type 0
IsPlain c = (46 ≤ c) × (c ≤ 57)

parse_fields-IsPlain :
    (cs : List ℕ) (val digits pos acc : ℕ) (a : Addr)
    → parse_fields cs val digits pos acc ≡ some a
    → All IsPlain cs
unfolding parse_fields
parse_fields-IsPlain [] val digits pos acc a h = tt
parse_fields-IsPlain (c ∷ cs) val digits pos acc a h = ground (
  arith,
  parse_fields-IsPlain cs (val * 10 + (c - 48)) (digits + 1) pos acc a,
  parse_fields-IsPlain cs 0 0 (pos + 1) (acc * 256 + val) a,
)

plain-is_space : (c : ℕ) → IsPlain c → is_space c ≡ false
unfolding is_space
plain-is_space c h = ground arith

plain-has : (s : String) → All IsPlain (codes s) → has 44 s ≡ false
unfolding contains
plain-has Text.[] h = refl
plain-has (Text.◌∷◌ c s) (k, ks) = ground (arith, plain-has s ks)

plain-trim_right : (s : String) → All IsPlain (codes s) → trim_right s ≡ s
unfolding trim_right
plain-trim_right Text.[] h = refl
plain-trim_right (Text.◌∷◌ c s) (k, ks) =
    rw (plain-is_space (code c) k, and_false (is_empty (trim_right s)), plain-trim_right s ks) refl

plain-trim_left : (s : String) → All IsPlain (codes s) → trim_left s ≡ s
unfolding trim_left
plain-trim_left Text.[] h = refl
plain-trim_left (Text.◌∷◌ c s) (k, ks) = rw (plain-is_space (code c) k)

plain-trim_space : (s : String) → All IsPlain (codes s) → trim_space s ≡ s
unfolding trim_space
plain-trim_space s h = ap trim_right (plain-trim_left s h) ∙ plain-trim_right s h

-- The texts with a comma between each two.
abbrev pub join_commas : List String → String
join_commas [] = ""
join_commas (s ∷ []) = s
join_commas (s ∷ t ∷ l) = s ⊕ ("," ⊕ join_commas (t ∷ l))

split-join_commas :
    (s : String) (l : List String)
    → All (λ t. has 44 t ≡ false) (s ∷ l)
    → split 44 (join_commas (s ∷ l)) ≡ s ∷ l
split-join_commas s [] (h, hs) = split_plain 44 s h
split-join_commas s (t ∷ l) (h, hs) =
    ap (λ z. split 44 (s ⊕ z)) (one_char-append "," (join_commas (t ∷ l)))
    ∙ split-append 44 "," s (join_commas (t ∷ l)) refl
    ∙ ap (λ z. z ++ split 44 (join_commas (t ∷ l))) (split_plain 44 s h)
    ∙ ap (λ z. s ∷ z) (split-join_commas t l hs)

-- The text of an address, as an item of a list.
record IsItem (s : String) : Type 0 where
  named : (s == "") ≡ false
  trimmed : trim_space s ≡ s
  no_comma : has 44 s ≡ false

items-IsItem : (l : List String) → All IsItem l → items l ≡ l
unfolding items
items-IsItem [] h = refl
items-IsItem (s ∷ l) (h, hs) = rw (h.trimmed, h.named) (ap (λ z. s ∷ z) (items-IsItem l hs))

parsed-IsItem : (s : String) (a : Addr) → parse_ipv4 s ≡ some a → IsItem s
parsed-IsItem s a h =
    let plain : All IsPlain (codes s) =
      unfold parse_ipv4 in parse_fields-IsPlain (codes s) 0 0 0 0 a h in
    record {
      named = elim (Bool-cases (s == "")) [
        | inl e ↦ absurd (ground (arith, parse_ipv4-empty s e))
        | inr e ↦ e
      ];
      trimmed = plain-trim_space s plain;
      no_comma = plain-has s plain;
    }

shown-IsItem : (pool : List Addr) → All (λ a. a < 2 ^ 32) pool → All IsItem (map show_ipv4 pool)
shown-IsItem [] h = tt
shown-IsItem (a ∷ pool) (h, hs) =
    (parsed-IsItem (show_ipv4 a) a (parse_ipv4-show_ipv4 a h), shown-IsItem pool hs)

no_commas : (l : List String) → All IsItem l → All (λ t. has 44 t ≡ false) l
no_commas [] h = tt
no_commas (s ∷ l) (h, hs) = (h.no_comma, no_commas l hs)

parsed_back :
    (pool : List Addr)
    → All (λ a. a < 2 ^ 32) pool
    → map parse_ipv4 (map show_ipv4 pool) ≡ map some pool
parsed_back [] h = refl
parsed_back (a ∷ pool) (h, hs) = ap₂ ◌∷◌ (parse_ipv4-show_ipv4 a h) (parsed_back pool hs)

-- A pool of IPv4 addresses, at least one and none twice, that is printed with commas between its
-- addresses parses to itself.
pub parse_pool-join_commas :
    (pool : List Addr)
    → All (λ a. a < 2 ^ 32) pool
    → NoRepeats pool
    → pool ≢ []
    → parse_pool (join_commas (map show_ipv4 pool)) ≡ ok pool
parse_pool-join_commas [] h d n = absurd (n refl)
parse_pool-join_commas (a ∷ pool) h d n =
    let good = shown-IsItem (a ∷ pool) h in
    let whole =
      split-join_commas (show_ipv4 a) (map show_ipv4 pool)
        (no_commas (map show_ipv4 (a ∷ pool)) good) in
    (parse_pool_iff (join_commas (map show_ipv4 (a ∷ pool))) (a ∷ pool)).1 (
      ap (λ z. map parse_ipv4 (items z)) whole
          ∙ ap (map parse_ipv4) (items-IsItem (map show_ipv4 (a ∷ pool)) good)
          ∙ parsed_back (a ∷ pool) h,
      d,
      n,
    )
