-- ===== src/Netip.antt =====
-- What the code uses of Go's net/netip: an IPv4 address is its 32-bit value. Every address that the
-- code takes from a text has passed `ParseAddr` and `Is4`, so the two are one function here, which
-- is `parseIPv4`: a text with a `:` or `%` is an IPv6 address or an error, and refused either way.
pub mod RoundTrip
pub mod Bounds
mod Tests
use k8s_lb_controller.Prelude.{
  ℕ, zero, suc, ◌+◌, ◌-◌, ◌*◌, ◌/◌, ◌%◌, String, ◌≡◌, refl, Bool, true, false, ◌&&◌, ◌||◌, List, [],
  ◌∷◌, Option, none, some, ltb, leb, ◌==◌, nat_eq, string_eq, if◌then◌else◌, Eq,
}
use k8s_lb_controller.Prelude.Order.{Order, nat_order}
use k8s_lb_controller.Prelude.Texts.{codes}
use k8s_lb_controller.Prelude.Int.{digit}
use Prim.Native.String.{◌++◌}
use text.Mathlib.TextEquality.{eq_iff}

abbrev pub Addr : Type 0
Addr = ℕ

-- An address of any kind, as the managers of host addresses may be handed one: the zero value,
-- an IPv4 address, or an IPv6 address by its 128-bit value.
pub data AnyAddr : Type 0 where
  invalid : AnyAddr
  v4 : Addr → AnyAddr
  v6 : ℕ → AnyAddr

abbrev is_digit : ℕ → Bool
is_digit c = leb 48 c && leb c 57

abbrev is_nil : List ℕ → Bool
is_nil [] = true
is_nil (c ∷ cs) = false

-- The loop of `parseIPv4Fields`: the octet's value and its digits so far, the fields before it and
-- their value.
unfoldable pub parse_fields : List ℕ → ℕ → ℕ → ℕ → ℕ → Option Addr
parse_fields [] val digits pos acc = if ltb pos 3 then none else some (acc * 256 + val)
parse_fields (c ∷ cs) val digits pos acc =
    let next = parse_fields cs (val * 10 + (c - 48)) (digits + 1) pos acc in
    let field = parse_fields cs 0 0 (pos + 1) (acc * 256 + val) in
    if is_digit c
    then (if digits == 1 && val == 0
        then none
        else if ltb 255 (val * 10 + (c - 48))
        then none
        else next)
    else if c == 46
    then (if digits == 0 || is_nil cs then none else if pos == 3 then none else field)
    else none

-- netip.ParseAddr followed by Is4
unfoldable pub parse_ipv4 : String → Option Addr
unfolding parse_fields
parse_ipv4 s = parse_fields (codes s) 0 0 0 0

-- appendDecimal
unfoldable pub show_octet : ℕ → String
show_octet x =
    (if leb 100 x then digit (x / 100) else "")
    ++ (if leb 10 x then digit (x / 10 % 10) else "")
    ++ digit (x % 10)

-- Addr.String of an IPv4 address.
unfoldable pub show_ipv4 : Addr → String
unfolding show_octet
show_ipv4 a =
    show_octet (a / 16777216 % 256)
    ++ "."
    ++ show_octet (a / 65536 % 256)
    ++ "."
    ++ show_octet (a / 256 % 256)
    ++ "."
    ++ show_octet (a % 256)

parse_ipv4_example : parse_ipv4 "203.0.113.10" ≡ some 3405803786
unfolding parse_ipv4
parse_ipv4_example = refl

parse_ipv4_errors :
    (parse_ipv4 "203.0.113" ≡ none)
    × (parse_ipv4 "203.0.113.256" ≡ none)
    × (parse_ipv4 "203.0.113.010" ≡ none)
    × (parse_ipv4 "::1" ≡ none)
    × (parse_ipv4 "" ≡ none)
unfolding parse_ipv4
parse_ipv4_errors = (refl, refl, refl, refl, refl)

show_ipv4_example : show_ipv4 3405803786 ≡ "203.0.113.10"
unfolding show_ipv4
show_ipv4_example = refl

pub parse_ipv4-empty : (s : String) → (s == "") ≡ true → parse_ipv4 s ≡ none
unfolding parse_ipv4
parse_ipv4-empty s h = rw ((eq_iff s "").0 h)
