-- ===== src/Netip/RoundTrip.antt =====
-- Parsing what an address prints as.
use k8s_lb_controller.Prelude.{
  ℕ, zero, suc, ◌+◌, ◌*◌, ◌/◌, ◌%◌, ◌≤◌, ◌<◌, ◌^◌, String, Bool, ◌≡◌, refl, ap, ◌∙◌, true, false,
  inl, inr, Bool-cases, List, [], ◌∷◌, ◌++◌, some, arith, leb, if◌then◌else◌,
}
use k8s_lb_controller.Prelude.Texts.{codes, codes-append}
use k8s_lb_controller.Prelude.Int.{digit}
use k8s_lb_controller.Netip.{Addr, parse_fields, parse_ipv4, show_octet, show_ipv4}
use Prim.Native.String.{◌++◌ as ◌⊕◌}
use mathlib.Core.List.{append-nil}

codes-digit : (d : ℕ) → d < 10 → codes (digit d) ≡ (48 + d) ∷ []
codes-digit zero h = refl
codes-digit (suc zero) h = refl
codes-digit (suc (suc zero)) h = refl
codes-digit (suc (suc (suc zero))) h = refl
codes-digit (suc (suc (suc (suc zero)))) h = refl
codes-digit (suc (suc (suc (suc (suc zero))))) h = refl
codes-digit (suc (suc (suc (suc (suc (suc zero)))))) h = refl
codes-digit (suc (suc (suc (suc (suc (suc (suc zero))))))) h = refl
codes-digit (suc (suc (suc (suc (suc (suc (suc (suc zero)))))))) h = refl
codes-digit (suc (suc (suc (suc (suc (suc (suc (suc (suc zero))))))))) h = refl
codes-digit (suc (suc (suc (suc (suc (suc (suc (suc (suc (suc n)))))))))) h = absurd (omega arith)

step_digit :
    (d val digits pos acc : ℕ) (rest : List ℕ)
    → d < 10
    → val * 10 + d ≤ 255
    → ((digits ≡ 1) × (val ≡ 0) → ⊥)
    → parse_fields ((48 + d) ∷ rest) val digits pos acc
      ≡ parse_fields rest (val * 10 + d) (digits + 1) pos acc
unfolding parse_fields
step_digit d val digits pos acc rest h k n = ground arith

-- How many digits an octet prints.
abbrev width : ℕ → ℕ
width x = if leb 100 x then 3 else if leb 10 x then 2 else 1

-- The code points of an octet.
octet : ℕ → List ℕ
octet x =
    if leb 100 x
    then (48 + x / 100) ∷ (48 + x / 10 % 10) ∷ (48 + x % 10) ∷ []
    else if leb 10 x
    then (48 + x / 10 % 10) ∷ (48 + x % 10) ∷ []
    else (48 + x % 10) ∷ []

codes_parts :
    (a b : Bool) (x : ℕ)
    → x < 256
    → (a ≡ true → b ≡ true)
    → codes (
        (if a then digit (x / 100) else "")
        ⊕ (if b then digit (x / 10 % 10) else "")
        ⊕ digit (x % 10))
      ≡ (if a
          then (48 + x / 100) ∷ (48 + x / 10 % 10) ∷ (48 + x % 10) ∷ []
          else if b
          then (48 + x / 10 % 10) ∷ (48 + x % 10) ∷ []
          else (48 + x % 10) ∷ [])
codes_parts true true x h k = cc (
  codes-append (digit (x / 100)) (digit (x / 10 % 10) ⊕ digit (x % 10)),
  codes-append (digit (x / 10 % 10)) (digit (x % 10)),
  codes-digit (x / 100) (omega arith),
  codes-digit (x / 10 % 10) (omega arith),
  codes-digit (x % 10) (omega arith),
)
codes_parts true false x h k = cc (k refl)
codes_parts false true x h k = cc (
  codes-append "" (digit (x / 10 % 10) ⊕ digit (x % 10)),
  codes-append (digit (x / 10 % 10)) (digit (x % 10)),
  codes-digit (x / 10 % 10) (omega arith),
  codes-digit (x % 10) (omega arith),
)
codes_parts false false x h k = cc (
  codes-append "" ("" ⊕ digit (x % 10)),
  codes-append "" (digit (x % 10)),
  codes-digit (x % 10) (omega arith),
)

codes-show_octet : (x : ℕ) → x < 256 → codes (show_octet x) ≡ octet x
unfolding show_octet octet
codes-show_octet x h = codes_parts (leb 100 x) (leb 10 x) x h (ground arith)

parse_octet :
    (x pos acc : ℕ) (rest : List ℕ)
    → x < 256
    → parse_fields (octet x ++ rest) 0 0 pos acc ≡ parse_fields rest x (width x) pos acc
unfolding octet
parse_octet x pos acc rest h = ground (
  arith,
  step_digit (x / 100) 0 0 pos acc ((48 + x / 10 % 10) ∷ (48 + x % 10) ∷ rest),
  step_digit (x / 10 % 10) (x / 100) 1 pos acc ((48 + x % 10) ∷ rest),
  step_digit (x % 10) (x / 10) 2 pos acc rest,
  step_digit (x / 10 % 10) 0 0 pos acc ((48 + x % 10) ∷ rest),
  step_digit (x % 10) (x / 10) 1 pos acc rest,
  step_digit (x % 10) 0 0 pos acc rest,
)

step_dot :
    (val w pos acc c : ℕ) (rest : List ℕ)
    → 0 < w
    → pos < 3
    → parse_fields (46 ∷ c ∷ rest) val w pos acc
      ≡ parse_fields (c ∷ rest) 0 0 (pos + 1) (acc * 256 + val)
unfolding parse_fields
step_dot val w pos acc c rest k h = ground arith

octet-cons : (y : ℕ) → (c : ℕ) × (cs : List ℕ) × (octet y ≡ c ∷ cs)
unfolding octet
octet-cons y = elim (Bool-cases (leb 100 y)) [
  | inl e ↦ (48 + y / 100, (48 + y / 10 % 10) ∷ (48 + y % 10) ∷ [], ground arith)
  | inr e ↦ elim (Bool-cases (leb 10 y)) [
    | inl f ↦ (48 + y / 10 % 10, (48 + y % 10) ∷ [], ground arith)
    | inr f ↦ (48 + y % 10, [], ground arith)
  ]
]

-- One octet, the dot behind it, and an octet that follows.
parse_field :
    (x y pos acc : ℕ) (rest : List ℕ)
    → x < 256
    → pos < 3
    → parse_fields (octet x ++ 46 ∷ (octet y ++ rest)) 0 0 pos acc
      ≡ parse_fields (octet y ++ rest) 0 0 (pos + 1) (acc * 256 + x)
parse_field x y pos acc rest h k =
    let (c, cs, e) = octet-cons y in
    parse_octet x pos acc (46 ∷ (octet y ++ rest)) h
    ∙ rw e (step_dot x (width x) pos acc c (cs ++ rest) (ground arith) k)

parse_last : (x acc : ℕ) → x < 256 → parse_fields (octet x ++ []) 0 0 3 acc ≡ some (acc * 256 + x)
parse_last x acc h = parse_octet x 3 acc [] h ∙ unfold parse_fields in refl

-- The code points of a dotted text.
dotted : (s t : String) (xs : List ℕ) → codes t ≡ xs → codes (s ⊕ "." ⊕ t) ≡ codes s ++ 46 ∷ xs
dotted s t xs e = cc (codes-append s ("." ⊕ t), codes-append "." t)

dotted_four :
    (s t u v : String) (a b c d : List ℕ)
    → codes s ≡ a
    → codes t ≡ b
    → codes u ≡ c
    → codes v ≡ d
    → codes (s ⊕ "." ⊕ t ⊕ "." ⊕ u ⊕ "." ⊕ v) ≡ a ++ 46 ∷ (b ++ 46 ∷ (c ++ 46 ∷ (d ++ [])))
dotted_four s t u v a b c d ea eb ec ed = cc (
  dotted s (t ⊕ "." ⊕ u ⊕ "." ⊕ v) _ refl,
  dotted t (u ⊕ "." ⊕ v) _ refl,
  dotted u v _ refl,
  append-nil d,
)

codes-show_ipv4 :
    (a : Addr)
    → codes (show_ipv4 a)
      ≡ octet (a / 16777216 % 256)
        ++ 46
          ∷ (octet (a / 65536 % 256)
              ++ 46 ∷ (octet (a / 256 % 256) ++ 46 ∷ (octet (a % 256) ++ [])))
unfolding show_ipv4
codes-show_ipv4 a =
    dotted_four (show_octet (a / 16777216 % 256)) (show_octet (a / 65536 % 256))
      (show_octet (a / 256 % 256)) (show_octet (a % 256)) _ _ _ _
      (codes-show_octet (a / 16777216 % 256) (omega arith))
      (codes-show_octet (a / 65536 % 256) (omega arith))
      (codes-show_octet (a / 256 % 256) (omega arith)) (codes-show_octet (a % 256) (omega arith))

-- Every IPv4 address prints as a text that parses to it.
pub parse_ipv4-show_ipv4 : (a : Addr) → a < 2 ^ 32 → parse_ipv4 (show_ipv4 a) ≡ some a
unfolding parse_ipv4
parse_ipv4-show_ipv4 a h =
    ap (λ cs. parse_fields cs 0 0 0 0) (codes-show_ipv4 a)
    ∙ parse_field (a / 16777216 % 256) (a / 65536 % 256) 0 0 _ (omega arith) (omega arith)
    ∙ parse_field (a / 65536 % 256) (a / 256 % 256) 1 _ _ (omega arith) (omega arith)
    ∙ parse_field (a / 256 % 256) (a % 256) 2 _ _ (omega arith) (omega arith)
    ∙ parse_last (a % 256) _ (omega arith)
    ∙ ap some (omega arith)
