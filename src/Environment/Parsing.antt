-- ===== src/Environment/Parsing.antt =====
-- What the readers of variables use of Go's strconv: ParseBool and Atoi.
use k8s_lb_controller.Prelude.{
  ℕ, ◌+◌, ◌-◌, ◌*◌, String, Bool, true, false, ◌&&◌, ◌||◌, List, [], ◌∷◌, Option, none, some, ◌==◌,
  nat_eq, string_eq, ltb, leb, if◌then◌else◌, ◌≡◌, refl,
}
use k8s_lb_controller.Prelude.Int.{ℤ, pos, negsuc}
use k8s_lb_controller.Prelude.Texts.{codes}

-- strconv.ParseBool
unfoldable pub parse_bool : String → Option Bool
parse_bool s =
    if s == "1" || s == "t" || s == "T" || s == "true" || s == "TRUE" || s == "True"
    then some true
    else if s == "0" || s == "f" || s == "F" || s == "false" || s == "FALSE" || s == "False"
    then some false
    else none

-- The value of decimal digits after those read, which is none at another character.
unfoldable pub parse_digits : List ℕ → ℕ → Option ℕ
parse_digits [] value = some value
parse_digits (c ∷ cs) value =
    let rest = parse_digits cs (value * 10 + (c - 48)) in
    if leb 48 c && leb c 57 then rest else none

abbrev unsigned : List ℕ → Option ℕ
unsigned [] = none
unsigned (c ∷ cs) = parse_digits (c ∷ cs) 0

abbrev positive : Option ℕ → Option ℤ
positive none = none
positive (some n) = if ltb n 9223372036854775808 then some (pos n) else none

abbrev negated : ℕ → ℤ
negated n = if n == 0 then pos 0 else negsuc (n - 1)

abbrev negative : Option ℕ → Option ℤ
negative none = none
negative (some n) = if leb n 9223372036854775808 then some (negated n) else none

abbrev signed : List ℕ → Option ℤ
signed [] = none
signed (c ∷ cs) =
    if c == 45
    then negative (unsigned cs)
    else if c == 43
    then positive (unsigned cs)
    else positive (unsigned (c ∷ cs))

-- strconv.Atoi on a machine with 64-bit integers.
unfoldable pub parse_int : String → Option ℤ
unfolding parse_digits
parse_int s = signed (codes s)

parse_int_example : parse_int "+32" ≡ some (pos 32)
unfolding parse_int
parse_int_example = refl

parse_int_bound : parse_int "9223372036854775808" ≡ none
unfolding parse_int
parse_int_bound = refl
