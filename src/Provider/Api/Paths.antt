-- ===== src/Provider/Api/Paths.antt =====
-- The path of a request, as the server reads it.
use k8s_lb_controller.Prelude.{
  ◌≡◌, refl, ◌∙◌, ap, String, [], ◌∷◌, ◌++◌, Option, some, ok, string_eq, contains,
}
use k8s_lb_controller.Prelude.Texts.{split, trim_of}
use k8s_lb_controller.Prelude.Paths.{behind_slashes, rooted}
use k8s_lb_controller.Prelude.Paths.Laws.{IsSegment}
use k8s_lb_controller.Prelude.Paths.Joining.{
  base_segments, join_rooted-segments, split-trim_of-segments,
}
use k8s_lb_controller.Provider.{ServiceRef}
use k8s_lb_controller.Urls.{Url, UrlLibrary}
use k8s_lb_controller.Provider.Api.{Api, service_path, service_url}
use k8s_lb_controller.Dataplane.Http.{service_ref_from_path, segments_ref}

pub services-IsSegment : IsSegment "services"
unfolding contains
services-IsSegment = record { named = refl; no_dot = refl; no_dots = refl; no_slash = refl }

pub service_path-segments :
    (base : String) (r : ServiceRef)
    → base_segments base ≡ []
    → IsSegment r.namespace
    → IsSegment r.name
    → service_path base r ≡ behind_slashes ("services" ∷ r.namespace ∷ r.name ∷ [])
unfolding service_path
service_path-segments base r none_kept ns name =
    join_rooted-segments "services" (r.namespace ∷ r.name ∷ []) services-IsSegment (ns, (name, tt))
      base
    ∙ ap (λ z. rooted (z ++ "services" ∷ r.namespace ∷ r.name ∷ [])) none_kept

-- For a base URL whose path has no segments, and a namespace and a name that are no dots, have no
-- slash and stay as they are when unescaped: the server reads from the path that the client asks
-- for the reference that the client made it of.
pub service_ref_from_path-service_path :
    (unescape : String → Option String) (base : String) (r : ServiceRef)
    → base_segments base ≡ []
    → IsSegment r.namespace
    → IsSegment r.name
    → unescape r.namespace ≡ some r.namespace
    → unescape r.name ≡ some r.name
    → service_ref_from_path unescape (service_path base r) ≡ ok r
unfolding service_ref_from_path
service_ref_from_path-service_path unescape base r none_kept ns name plain_ns plain_name =
    ap (λ p. segments_ref unescape (split 47 (trim_of 47 p)))
      (service_path-segments base r none_kept ns name)
    ∙ ap (segments_ref unescape) (
        split-trim_of-segments "services" (r.namespace ∷ r.name ∷ []) services-IsSegment
          (ns, (name, tt)))
    ∙ rw (plain_ns, plain_name) (rw (ns.named, name.named))

-- What a request for a reference relies on: the base path has no segments, the namespace and the
-- name are such that a path holds them as they are, and the printed URL reads back with its path.
pub record Reaches (urls : UrlLibrary) (unescape : String → Option String) (p : Api)
    (r : ServiceRef) : Type 0 where
  pub root : base_segments p.base.path ≡ []
  pub namespace : IsSegment r.namespace
  pub name : IsSegment r.name
  pub plain_namespace : unescape r.namespace ≡ some r.namespace
  pub plain_name : unescape r.name ≡ some r.name
  pub url :
      (v : Url) × (urls.parse (urls.show (service_url p r)) ≡ some v)
      × (v.path ≡ service_path p.base.path r)
