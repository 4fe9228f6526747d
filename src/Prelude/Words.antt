-- ===== src/Prelude/Words.antt =====
-- More of Go's strings package: Fields, ReplaceAll and ContainsAny.
use Prim.Native.Char.{Char, code}
use Prim.Native.Nat.{ℕ, zero, suc}
use Prim.Native.String.{String, ◌++◌}
use k8s_lb_controller.Prelude.Tests.{◌==◌, nat_eq, if◌then◌else◌, length, contains}
use k8s_lb_controller.Prelude.Texts.{codes, is_space, is_empty}
use mathlib.Core.Path.{◌≡◌, refl}
use mathlib.Core.Bool.{Bool, true, false, ◌&&◌, ◌||◌}
use mathlib.Core.List.{List, [], ◌∷◌}

abbrev one_char : Char → String
one_char c = String.◌∷◌ c String.[]

abbrev add_word : String → List String → List String
add_word word rest = if is_empty word then rest else word ∷ rest

-- The words of a text, after the part of one that has been read.
unfoldable pub words_after : String → String → List String
unfolding is_space
words_after word String.[] = add_word word []
words_after word (String.◌∷◌ c s) =
    let done = add_word word (words_after "" s) in
    let more = words_after (word ++ one_char c) s in if is_space (code c) then done else more

-- strings.Fields
unfoldable pub fields : String → List String
unfolding words_after
fields s = words_after "" s

fields_example : fields "  haproxy -c\t-f x " ≡ "haproxy" ∷ "-c" ∷ "-f" ∷ "x" ∷ []
unfolding fields
fields_example = refl

abbrev starts_with : List ℕ → List ℕ → Bool
starts_with [] s = true
starts_with (p ∷ ps) [] = false
starts_with (p ∷ ps) (c ∷ cs) = p == c && starts_with ps cs

abbrev pred : ℕ → ℕ
pred zero = zero
pred (suc n) = n

-- The replacement of a text that is not empty, where `skip` more characters of a match follow.
unfoldable pub replace_from : ℕ → String → String → String → String
replace_from skip old new String.[] = String.[]
replace_from (suc skip) old new (String.◌∷◌ c s) = replace_from skip old new s
replace_from zero old new (String.◌∷◌ c s) =
    let matched = new ++ replace_from (pred (length (codes old))) old new s in
    let other = String.◌∷◌ c (replace_from zero old new s) in
    if starts_with (codes old) (code c ∷ codes s) then matched else other

-- strings.ReplaceAll
unfoldable pub replace_all : String → String → String → String
unfolding replace_from
replace_all s old new = replace_from zero old new s

replace_all_example : replace_all "check {{c}} {{c}}!" "{{c}}" "a" ≡ "check a a!"
unfolding replace_all
replace_all_example = refl

-- strings.ContainsAny
unfoldable pub contains_any : String → List ℕ → Bool
unfolding contains
contains_any String.[] chars = false
contains_any (String.◌∷◌ c s) chars = contains chars (code c) || contains_any s chars
