-- ===== src/Prelude/Paths.antt =====
-- path.Join of Go, for elements after a first "/".
pub mod Laws
pub mod Joining
use Prim.Native.String.{String, ◌++◌}
use Prim.Native.Nat.{ℕ}
use mathlib.Core.Path.{◌≡◌, refl}
use mathlib.Core.Bool.{Bool, true, false, ◌||◌}
use mathlib.Core.List.{List, [], ◌∷◌}
use mathlib.Core.List as List
use k8s_lb_controller.Prelude.Tests.{◌==◌, string_eq, if◌then◌else◌}
use k8s_lb_controller.Prelude.Texts.{split}

-- The elements, each behind a slash; an empty one is left out.
unfoldable pub slash_all : List String → String
slash_all [] = ""
slash_all (e ∷ rest) = if e == "" then slash_all rest else "/" ++ (e ++ slash_all rest)

abbrev drop_first : List String → List String
drop_first [] = []
drop_first (s ∷ l) = l

-- One segment of path.Clean; the last segment kept is at the head.
unfoldable pub push_segment : List String → String → List String
push_segment kept segment =
    if segment == "" || segment == "."
    then kept
    else if segment == ".."
    then drop_first kept
    else segment ∷ kept

unfoldable pub clean_segments : List String → List String → List String
unfolding push_segment
clean_segments kept [] = List.reverse kept
clean_segments kept (segment ∷ rest) = clean_segments (push_segment kept segment) rest

unfoldable pub behind_slashes : List String → String
behind_slashes [] = ""
behind_slashes (s ∷ l) = "/" ++ (s ++ behind_slashes l)

abbrev pub rooted : List String → String
rooted [] = "/"
rooted (s ∷ l) = behind_slashes (s ∷ l)

-- path.Clean of a path that starts with a slash.
unfoldable pub clean_rooted : String → String
unfolding clean_segments behind_slashes split
clean_rooted path = rooted (clean_segments [] (split 47 path))

unfoldable pub join_rooted : List String → String
unfolding clean_rooted slash_all
join_rooted elements = clean_rooted ("/" ++ slash_all elements)

join_rooted_example : join_rooted ("/api//" ∷ "services" ∷ "" ∷ "a" ∷ []) ≡ "/api/services/a"
unfolding join_rooted
join_rooted_example = refl

join_rooted_up : join_rooted ("" ∷ "services" ∷ ".." ∷ "web" ∷ []) ≡ "/web"
unfolding join_rooted
join_rooted_up = refl
