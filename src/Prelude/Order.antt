-- ===== src/Prelude/Order.antt =====
-- Total orders by three-way comparison, and their lexicographic combination.
use Prim.Native.Nat.{ℕ, compare, Ordering}
use Prim.Native.String.{String, compare as compare_text, then}
use Prim.Native.String.compare as Cmp
use mathlib.Core.Path.{◌≡◌, refl}
use mathlib.Core.Bool.{Bool, true, false}
use mathlib.Core.Logic.{◌↔◌}
use native.Mathlib.Omega.{arith}
use k8s_lb_controller.Prelude.Tests.{Eq}
use text.Mathlib.TextEquality.{path_by_compare}
use text.Mathlib.TextPositions.{compare_refl}

abbrev pub flip : Ordering → Ordering
flip Ordering.lt = Ordering.gt
flip Ordering.eq = Ordering.eq
flip Ordering.gt = Ordering.lt

abbrev pub is_lt : Ordering → Bool
is_lt Ordering.lt = true
is_lt _ = false

pub record Order {ℓ} (A : Type ℓ) : Type ℓ where
  pub cmp : A → A → Ordering
  pub cmp_refl : (a : A) → cmp a a ≡ Ordering.eq
  pub cmp-eq : (a b : A) → cmp a b ≡ Ordering.eq → a ≡ b
  pub cmp-flip : (a b : A) → cmp b a ≡ flip (cmp a b)
  pub cmp_trans :
      (a b c : A) → cmp a b ≡ Ordering.lt → cmp b c ≡ Ordering.lt → cmp a c ≡ Ordering.lt

abbrev pub is_eq : Ordering → Bool
is_eq Ordering.eq = true
is_eq _ = false

abbrev pub same {ℓ} : {A : Type ℓ} ⦃o : Order A⦄ → A → A → Bool
same ⦃o⦄ a b = is_eq (o.cmp a b)

abbrev pub less {ℓ} : {A : Type ℓ} ⦃o : Order A⦄ → A → A → Bool
less ⦃o⦄ a b = is_lt (o.cmp a b)

pub nat-flip : (a b : ℕ) → compare b a ≡ flip (compare a b)
nat-flip a b = ground arith

pub nat_trans :
    (a b c : ℕ) → compare a b ≡ Ordering.lt → compare b c ≡ Ordering.lt → compare a c ≡ Ordering.lt
nat_trans a b c h k = ground arith

pub nat_refl : (a : ℕ) → compare a a ≡ Ordering.eq
nat_refl a = ground arith

pub nat-eq : (a b : ℕ) → compare a b ≡ Ordering.eq → a ≡ b
nat-eq a b h = ground arith

instance abbrev pub nat_order : Order ℕ
nat_order = record {
  cmp = compare;
  cmp_refl = nat_refl;
  cmp-eq = nat-eq;
  cmp-flip = nat-flip;
  cmp_trans = nat_trans;
}

pub text-flip : (s t : String) → compare_text t s ≡ flip (compare_text s t)
text-flip String.[] String.[] = refl
text-flip String.[] (String.◌∷◌ d t) = rw (Cmp.nil-cons d t, Cmp.cons-nil d t)
text-flip (String.◌∷◌ c s) String.[] = rw (Cmp.nil-cons c s, Cmp.cons-nil c s)
text-flip (String.◌∷◌ c s) (String.◌∷◌ d t) =
    ground (arith, text-flip s t, Cmp.cons-cons c d s t, Cmp.cons-cons d c t s)

pub text_trans :
    (s t u : String)
    → compare_text s t ≡ Ordering.lt
    → compare_text t u ≡ Ordering.lt
    → compare_text s u ≡ Ordering.lt
text_trans String.[] String.[] u h k = k
text_trans String.[] (String.◌∷◌ d t) String.[] h k = ground (arith, Cmp.cons-nil d t)
text_trans String.[] (String.◌∷◌ d t) (String.◌∷◌ e u) h k = λ i. Cmp.nil-cons e u i
text_trans (String.◌∷◌ c s) String.[] u h k = ground (arith, Cmp.cons-nil c s)
text_trans (String.◌∷◌ c s) (String.◌∷◌ d t) String.[] h k = ground (arith, Cmp.cons-nil d t)
text_trans (String.◌∷◌ c s) (String.◌∷◌ d t) (String.◌∷◌ e u) h k = ground (
  arith,
  text_trans s t u,
  Cmp.cons-cons c d s t,
  Cmp.cons-cons d e t u,
  Cmp.cons-cons c e s u,
  path_by_compare s t,
  path_by_compare t u,
  compare_refl s,
  compare_refl t,
)

instance abbrev pub text_order : Order String
text_order = record {
  cmp = compare_text;
  cmp_refl = compare_refl;
  cmp-eq = path_by_compare;
  cmp-flip = text-flip;
  cmp_trans = text_trans;
}

module _ {ℓ} {A B : Type ℓ} ⦃o : Order A⦄ ⦃p : Order B⦄ where
  abbrev pub lex : A × B → A × B → Ordering
  lex x y = then (o.cmp x.0 y.0) (p.cmp x.1 y.1)

  pub lex_refl : (x : A × B) → lex x x ≡ Ordering.eq
  lex_refl x = rw (o.cmp_refl x.0, p.cmp_refl x.1)

  pub lex-eq : (x y : A × B) → lex x y ≡ Ordering.eq → x ≡ y
  lex-eq x y h = ground (arith, o.cmp-eq x.0 y.0, p.cmp-eq x.1 y.1)

  pub lex-flip : (x y : A × B) → lex y x ≡ flip (lex x y)
  lex-flip x y = ground (arith, o.cmp-flip x.0 y.0, p.cmp-flip x.1 y.1)

  pub lex_trans :
      (x y z : A × B) → lex x y ≡ Ordering.lt → lex y z ≡ Ordering.lt → lex x z ≡ Ordering.lt
  lex_trans x y z h k =
      ground (
        arith,
        o.cmp_trans x.0 y.0 z.0,
        p.cmp_trans x.1 y.1 z.1,
        o.cmp-eq x.0 y.0,
        o.cmp-eq y.0 z.0,
      )

instance abbrev pub lex_order {ℓ} : {A B : Type ℓ} ⦃o : Order A⦄ ⦃p : Order B⦄ → Order (A × B)
lex_order = record {
  cmp = lex;
  cmp_refl = lex_refl;
  cmp-eq = lex-eq;
  cmp-flip = lex-flip;
  cmp_trans = lex_trans;
}

-- An order of a type through an injective key.
module _ {ℓ} {A K : Type ℓ} ⦃o : Order K⦄ (key : A → K)
    (injective : (a b : A) → key a ≡ key b → a ≡ b) where
  pub by-eq : (a b : A) → o.cmp (key a) (key b) ≡ Ordering.eq → a ≡ b
  by-eq a b h = injective a b (o.cmp-eq (key a) (key b) h)

  abbrev pub order_by : Order A
  order_by = record {
    cmp = λ a b. o.cmp (key a) (key b);
    cmp_refl = λ a. o.cmp_refl (key a);
    cmp-eq = by-eq;
    cmp-flip = λ a b. o.cmp-flip (key a) (key b);
    cmp_trans = λ a b c. o.cmp_trans (key a) (key b) (key c);
  }

module _ {ℓ} {A : Type ℓ} ⦃o : Order A⦄ where
  pub same_iff : (a b : A) → (same a b ≡ true) ↔ (a ≡ b)
  same_iff a b = (λ h. o.cmp-eq a b (ground arith), λ e. rw e (rw (o.cmp_refl b)))

  -- Equality by the order.
  abbrev pub order_eq : Eq A
  order_eq = record { equal = same; equal_iff = same_iff }

  pub not-less_trans : (a b c : A) → less b a ≡ false → less c b ≡ false → less c a ≡ false
  not-less_trans a b c h k = ground (
    arith,
    o.cmp-flip a b,
    o.cmp-flip b c,
    o.cmp-flip a c,
    o.cmp-eq a b,
    o.cmp-eq b c,
    o.cmp_trans a b c,
    o.cmp_refl a,
  )

  pub less_asym : (a b : A) → less a b ≡ true → less b a ≡ false
  less_asym a b h = ground (arith, o.cmp-flip a b)
