-- ===== src/Prelude/Int.antt =====
-- Go's int32 and int64 as integers: the code compares, prints and copies them, and computes with
-- none, so no operation wraps. `negsuc n` is -(n + 1).
use Prim.Native.Nat.{ℕ, zero, suc, ◌/◌, ◌%◌, compare, Ordering}
use Prim.Native.String.{String, ◌++◌}
use k8s_lb_controller.Prelude.Tests.{Eq, ltb, if◌then◌else◌}
use k8s_lb_controller.Prelude.Order.{Order, flip, order_eq, nat_order}
use mathlib.Core.Path.{◌≡◌, refl}
use mathlib.Core.Bool.{Bool, false}
use native.Mathlib.Omega.{arith}

pub data ℤ : Type 0 where
  pos : ℕ → ℤ
  negsuc : ℕ → ℤ

abbrev pub cmp_ℤ : ℤ → ℤ → Ordering
cmp_ℤ (pos a) (pos b) = compare a b
cmp_ℤ (pos a) (negsuc b) = Ordering.gt
cmp_ℤ (negsuc a) (pos b) = Ordering.lt
cmp_ℤ (negsuc a) (negsuc b) = compare b a

pub cmp_ℤ_refl : (a : ℤ) → cmp_ℤ a a ≡ Ordering.eq
cmp_ℤ_refl a = ground arith

pub cmp_ℤ-eq : (a b : ℤ) → cmp_ℤ a b ≡ Ordering.eq → a ≡ b
cmp_ℤ-eq a b h = ground arith

pub cmp_ℤ-flip : (a b : ℤ) → cmp_ℤ b a ≡ flip (cmp_ℤ a b)
cmp_ℤ-flip a b = ground arith

pub cmp_ℤ_trans :
    (a b c : ℤ) → cmp_ℤ a b ≡ Ordering.lt → cmp_ℤ b c ≡ Ordering.lt → cmp_ℤ a c ≡ Ordering.lt
cmp_ℤ_trans a b c h k = ground arith

instance abbrev pub int_order : Order ℤ
int_order = record {
  cmp = cmp_ℤ;
  cmp_refl = cmp_ℤ_refl;
  cmp-eq = cmp_ℤ-eq;
  cmp-flip = cmp_ℤ-flip;
  cmp_trans = cmp_ℤ_trans;
}

instance abbrev pub int_eq : Eq ℤ
int_eq = order_eq

-- n > 0
abbrev pub is_positive : ℤ → Bool
is_positive (pos n) = ltb 0 n
is_positive (negsuc n) = false

-- One decimal digit.
abbrev pub digit : ℕ → String
digit zero = "0"
digit (suc zero) = "1"
digit (suc (suc zero)) = "2"
digit (suc (suc (suc zero))) = "3"
digit (suc (suc (suc (suc zero)))) = "4"
digit (suc (suc (suc (suc (suc zero))))) = "5"
digit (suc (suc (suc (suc (suc (suc zero)))))) = "6"
digit (suc (suc (suc (suc (suc (suc (suc zero))))))) = "7"
digit (suc (suc (suc (suc (suc (suc (suc (suc zero)))))))) = "8"
digit _ = "9"

decimal : ℕ → ℕ → String
decimal zero n = ""
decimal (suc fuel) n =
    let front = decimal fuel (n / 10) in if ltb n 10 then digit n else front ++ digit (n % 10)

-- %d of a natural number. A number has at most as many digits as its successor counts.
unfoldable pub show_nat : ℕ → String
unfolding decimal
show_nat n = decimal (suc n) n

-- strconv.FormatInt and %d.
unfoldable pub show_int : ℤ → String
unfolding show_nat
show_int (pos n) = show_nat n
show_int (negsuc n) = "-" ++ show_nat (suc n)

show_int_example : show_int (pos 65535) ≡ "65535"
unfolding show_int
show_int_example = refl
