-- ===== src/Prelude/Texts.antt =====
-- What the code uses of Go's strings package, on the code points of a text.
pub mod Trimming
use Prim.Native.Char.{Char, char, code, nul, IsScalar}
use Prim.Native.Nat.{◌+◌, ◌<◌, compare, Ordering}
use native.Mathlib.Decide.{dec_lt}
use native.Mathlib.Omega.{arith}
use mathlib.Core.Logic.{dite}
use Prim.Native.String.{String, ◌++◌}
use Prim.Native.String.append as Append
use Prim.Native.Nat.{ℕ}
use k8s_lb_controller.Prelude.Tests.{◌==◌, nat_eq, leb, if◌then◌else◌}
use mathlib.Core.Path.{◌≡◌, refl, ap, ◌∙◌}
use mathlib.Core.Bool.{Bool, true, false, ◌&&◌, ◌||◌}
use mathlib.Core.List.{List, [], ◌∷◌}
use mathlib.Core.List as List

abbrev pub codes : String → List ℕ
codes String.[] = []
codes (String.◌∷◌ c s) = code c ∷ codes s

pub codes-append : (s t : String) → codes (s ++ t) ≡ List.◌++◌ (codes s) (codes t)
codes-append String.[] t = ap codes (λ i. Append.nil t i)
codes-append (String.◌∷◌ c s) t =
    ap codes (λ i. Append.cons c s t i) ∙ ap (◌∷◌ (code c)) (codes-append s t)

-- unicode.IsSpace
unfoldable pub is_space : ℕ → Bool
is_space c =
    leb 9 c && leb c 13
    || c == 0x20
    || c == 0x85
    || c == 0xA0
    || c == 0x1680
    || leb 0x2000 c && leb c 0x200A
    || c == 0x2028
    || c == 0x2029
    || c == 0x202F
    || c == 0x205F
    || c == 0x3000

abbrev pub is_empty : String → Bool
is_empty String.[] = true
is_empty (String.◌∷◌ c s) = false

unfoldable pub trim_left : String → String
unfolding is_space
trim_left String.[] = String.[]
trim_left (String.◌∷◌ c s) = if is_space (code c) then trim_left s else String.◌∷◌ c s

unfoldable pub trim_right : String → String
unfolding is_space
trim_right String.[] = String.[]
trim_right (String.◌∷◌ c s) =
    let rest = trim_right s in
    if is_empty rest && is_space (code c) then String.[] else String.◌∷◌ c rest

-- strings.TrimSpace
unfoldable pub trim_space : String → String
unfolding trim_left trim_right
trim_space s = trim_right (trim_left s)

trim_space_example : trim_space "  a b \n" ≡ "a b"
unfolding trim_space
trim_space_example = refl

-- strings.Split by a one-character separator: one piece more than there are separators.
abbrev push_first : String → List String → List String
push_first c [] = c ∷ []
push_first c (p ∷ ps) = (c ++ p) ∷ ps

unfoldable pub split : ℕ → String → List String
split sep String.[] = "" ∷ []
split sep (String.◌∷◌ c s) =
    let rest = split sep s in
    if code c == sep then "" ∷ rest else push_first (String.◌∷◌ c String.[]) rest

split_example : split b',' "a,,b" ≡ "a" ∷ "" ∷ "b" ∷ []
unfolding split
split_example = refl

pub code_bounds : (n : ℕ) → n < 55296 → IsScalar n
code_bounds n h = let e : compare n 55296 ≡ Ordering.lt = ground arith in rw e tt

-- The character of a code point below the surrogates.
unfoldable pub to_char : ℕ → Char
unfolding dec_lt
to_char n = dite (dec_lt n 55296) (λ h. char n (code_bounds n h)) (λ h. nul)

-- unicode.ToLower as far as ASCII letters come out of it: besides the capital letters these are
-- U+0130 and U+212A. Other letters stay as they are.
unfoldable pub lower_code : ℕ → ℕ
lower_code c =
    if leb b'A' c && leb c b'Z'
    then c + 32
    else if c == 0x130
    then b'i'
    else if c == 0x212A
    then b'k'
    else c

abbrev lower_char : Char → Char
lower_char c = if lower_code (code c) == code c then c else to_char (lower_code (code c))

-- strings.ToLower
unfoldable pub to_lower : String → String
unfolding lower_code to_char
to_lower String.[] = String.[]
to_lower (String.◌∷◌ c s) = String.◌∷◌ (lower_char c) (to_lower s)

-- strings.Trim by one character.
unfoldable pub trim_left_of : ℕ → String → String
trim_left_of x String.[] = String.[]
trim_left_of x (String.◌∷◌ c s) = if code c == x then trim_left_of x s else String.◌∷◌ c s

unfoldable pub trim_right_of : ℕ → String → String
trim_right_of x String.[] = String.[]
trim_right_of x (String.◌∷◌ c s) =
    let rest = trim_right_of x s in
    if is_empty rest && code c == x then String.[] else String.◌∷◌ c rest

unfoldable pub trim_of : ℕ → String → String
unfolding trim_left_of trim_right_of
trim_of x s = trim_right_of x (trim_left_of x s)

to_lower_example : to_lower "Web-API_1" ≡ "web-api_1"
unfolding to_lower
to_lower_example = refl
