-- ===== src/Dataplane/Render/Outcome.antt =====
-- When the rendering succeeds.
use k8s_lb_controller.Prelude.{◌≡◌, refl, ◌↔◌, String, List, [], ◌∷◌, map, Result, ok, err, All}
use k8s_lb_controller.Provider.{Service}
use k8s_lb_controller.Dataplane.Store.{normalize_service}
use k8s_lb_controller.Dataplane.Render.{
  RenderError, render, render_services, render_ports, sorted_from_slice, checked, prepend,
  config_header,
}
use k8s_lb_controller.Dataplane.Render.Validate.{InvalidService, validate_service}
use k8s_lb_controller.Dataplane.Render.Validate.Accepts.{IsValidService, validate_service_iff}
use Prim.Native.String.{◌++◌}

abbrev Rendered : Result RenderError String → Type 0
Rendered r = (text : String) × (r ≡ ok text)

Rendered-prepend :
    (t : String) (r : Result RenderError String) → Rendered (prepend t r) ↔ Rendered r
Rendered-prepend t (ok rest) = (λ h. (rest, refl), λ h. (t ++ rest, refl))
Rendered-prepend t (err e) = (λ h. cc (h.1), λ h. cc (h.1))

Rendered-checked :
    (s : Service) (v : Result InvalidService (Unit {0})) (r : Result RenderError String)
    → Rendered (checked s v r) ↔ ((v ≡ ok tt) × Rendered r)
Rendered-checked s (ok u) r = (λ h. (refl, h), λ h. h.1)
Rendered-checked s (err e) r = (λ h. cc (h.1), λ h. cc (h.0))

render_services_iff : (l : List Service) → Rendered (render_services l) ↔ All IsValidService l
unfolding render_services
render_services_iff [] = (λ h. tt, λ h. ("", refl))
render_services_iff (s ∷ l) =
    let head =
      Rendered-checked s (validate_service s)
        (prepend (render_ports s s.ports) (render_services l)) in
    let tail = Rendered-prepend (render_ports s s.ports) (render_services l) in
    (
      λ h.
          let (v, r) = head.0 h in
          ((validate_service_iff s).0 v, (render_services_iff l).0 (tail.0 r)),
      λ h. head.1 ((validate_service_iff s).1 h.0, tail.1 ((render_services_iff l).1 h.1)),
    )

-- What Render goes through: for each reference the last Service of the list, in canonical form,
-- sorted by namespace and name.
abbrev pub effective : List Service → List Service
effective services = sorted_from_slice (map normalize_service services)

-- The rendering of a list with a Service succeeds exactly when every Service that it goes through
-- is valid.
pub render_iff :
    (s : Service) (l : List Service)
    → ((text : String) × (render (s ∷ l) ≡ ok text)) ↔ All IsValidService (effective (s ∷ l))
unfolding render
render_iff s l =
    let all = render_services_iff (effective (s ∷ l)) in
    let header = Rendered-prepend config_header (render_services (effective (s ∷ l))) in
    (λ h. all.0 (header.0 h), λ h. header.1 (all.1 h))
