-- ===== src/Urls/Checks.antt =====
-- The checks on a base URL.
use k8s_lb_controller.Prelude.{
  ◌≡◌, refl, ap, ◌∙◌, String, Bool, true, false, not, ◌||◌, Option, none, some, Result, ok, err,
  ◌==◌, string_eq, if◌then◌else◌,
}
use mathlib.Core.Path.{ap₂}
use k8s_lb_controller.Prelude.Texts.{trim_space}
use k8s_lb_controller.Urls.{Url, UrlLibrary, UrlError, not_absolute, bad_scheme, base_url}

abbrev judged : Bool → Bool → Url → Result UrlError Url
judged a b u = if a then err not_absolute else if not b then err bad_scheme else ok u

judged-ok : (a b : Bool) (u v : Url) → judged a b u ≡ ok v → (a ≡ false) × (b ≡ true) × (u ≡ v)
judged-ok true b u v h = absurd (cc)
judged-ok false true u v h = (refl, refl, cc)
judged-ok false false u v h = absurd (cc)

-- An accepted URL is the one that was parsed.
pub base_url-eq-ok : (o : Option Url) (u : Url) → base_url o ≡ ok u → o ≡ some u
base_url-eq-ok none u h = absurd (cc)
base_url-eq-ok (some v) u h =
    ap some
      (judged-ok (v.scheme == "" || v.host == "") (v.scheme == "http" || v.scheme == "https") v u
        h).2

-- The checks go by the scheme and the host only.
pub base_url-same :
    (u v : Url)
    → v.scheme ≡ u.scheme
    → v.host ≡ u.host
    → base_url (some u) ≡ ok u
    → base_url (some v) ≡ ok v
base_url-same u v scheme host h =
    let (a, b, _) =
      judged-ok (u.scheme == "" || u.host == "") (u.scheme == "http" || u.scheme == "https") u u
        h in
    let a' : (v.scheme == "" || v.host == "") ≡ false =
      ap₂ (λ s t. s == "" || t == "") scheme host ∙ a in
    let b' : (v.scheme == "http" || v.scheme == "https") ≡ true =
      ap (λ s. s == "http" || s == "https") scheme ∙ b in
    ap₂ (λ x y. judged x y v) a' b'

-- What the printed form of a URL that was parsed and accepted is relied on for: without the spaces
-- around it, which a query may end in, it is not blank and reads back with the scheme and the host.
pub record ReadsBack (urls : UrlLibrary) : Type 0 where
  pub named :
      (s : String) (u : Url)
      → urls.parse s ≡ some u
      → base_url (some u) ≡ ok u
      → (trim_space (urls.show u) == "") ≡ false
  pub back :
      (s : String) (u : Url)
      → urls.parse s ≡ some u
      → base_url (some u) ≡ ok u
      → (v : Url) × (urls.parse (trim_space (urls.show u)) ≡ some v)
        × (v.scheme ≡ u.scheme)
        × (v.host ≡ u.host)
