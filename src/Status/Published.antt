-- ===== src/Status/Published.antt =====
-- The text of an address in a status.
use k8s_lb_controller.Prelude.{
  ℕ, ◌≡◌, ◌≢◌, refl, sym, ap, ◌∙◌, ◌&&◌, if◌then◌else◌, List, ◌<◌, ◌^◌, String, true, false, ◌==◌,
  string_eq, nat_eq, none, arith, Bool-cases, inl, inr, ◌∷◌,
}
use k8s_lb_controller.Prelude.Texts.{trim_space, trim_left, trim_right, is_space, is_empty, codes}
use k8s_lb_controller.Netip.{Addr, parse_ipv4, parse_fields, show_ipv4}
use k8s_lb_controller.Netip.RoundTrip.{parse_ipv4-show_ipv4}
use Prim.Native.Char.{Char, code}
use mathlib.Core.Bool.{false≢true}
use text.Mathlib.TextEquality.{eq_iff}

trim_left-cons :
    (c : Char) (s : String)
    → trim_left (String.◌∷◌ c s) ≡ (if is_space (code c) then trim_left s else String.◌∷◌ c s)
unfolding trim_left
trim_left-cons c s = refl

trim_right-cons :
    (c : Char) (s : String)
    → trim_right (String.◌∷◌ c s) ≡ (
        if is_empty (trim_right s) && is_space (code c)
        then String.[]
        else String.◌∷◌ c (trim_right s))
unfolding trim_right
trim_right-cons c s = refl

cons-ne-nil : (c : Char) (s : String) → String.◌∷◌ c s ≢ ""
cons-ne-nil c s h = false≢true (ap is_empty h)

trim_space-cons :
    (c : Char) (s : String)
    → is_space (code c) ≡ false
    → trim_space (String.◌∷◌ c s) ≡ String.◌∷◌ c (trim_right s)
unfolding trim_space
trim_space-cons c s e =
    let left : trim_left (String.◌∷◌ c s) ≡ String.◌∷◌ c s = ground (arith, trim_left-cons c s) in
    ap trim_right left ∙ ground (arith, trim_right-cons c s)

first_of_blank :
    (c : Char) (s : String) → trim_space (String.◌∷◌ c s) ≡ "" → is_space (code c) ≡ true
first_of_blank c s h = elim (Bool-cases (is_space (code c))) [
  | inl e ↦ e
  | inr e ↦ absurd (cons-ne-nil c (trim_right s) (sym (trim_space-cons c s e) ∙ h))
]

blank-no-octet : (n : ℕ) (cs : List ℕ) → is_space n ≡ true → parse_fields (n ∷ cs) 0 0 0 0 ≡ none
unfolding is_space parse_fields
blank-no-octet n cs h = ground arith

parse_blank : (s : String) → trim_space s ≡ "" → parse_ipv4 s ≡ none
unfolding parse_ipv4
parse_blank String.[] h = refl
parse_blank (String.◌∷◌ c s) h = blank-no-octet (code c) (codes s) (first_of_blank c s h)

-- The text of an IPv4 address is not blank.
pub trim_space-show_ipv4 : (a : Addr) → a < 2 ^ 32 → (trim_space (show_ipv4 a) == "") ≡ false
trim_space-show_ipv4 a h = elim (Bool-cases (trim_space (show_ipv4 a) == "")) [
  | inr e ↦ e
  | inl e ↦ cc (
    parse_ipv4-show_ipv4 a h,
    parse_blank (show_ipv4 a) ((eq_iff (trim_space (show_ipv4 a)) "").0 e),
  )
]
