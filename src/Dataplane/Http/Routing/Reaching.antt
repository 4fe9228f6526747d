-- ===== src/Dataplane/Http/Routing/Reaching.antt =====
-- Which requests the mux lets through to the handlers of Services.
use k8s_lb_controller.Prelude.{
  ℕ, ◌≡◌, ◌≢◌, refl, ap, ◌∙◌, String, Bool, true, false, List, [], ◌∷◌, Option, Result, ◌==◌,
  string_eq, if◌then◌else◌, All, beq_refl,
}
use k8s_lb_controller.Prelude.Texts.{split}
use k8s_lb_controller.Prelude.Paths.{behind_slashes, clean_segments, clean_rooted, rooted}
use k8s_lb_controller.Prelude.Paths.Laws.{
  IsSegment, split_front, split-segments, clean_segments-segments,
}
use k8s_lb_controller.Prelude.Paths.Joining.{clean_segments-blank}
use k8s_lb_controller.Provider.{Service}
use k8s_lb_controller.Dataplane.Host.{IpManager, ConfigApplier}
use k8s_lb_controller.Dataplane.Engine.{Engine}
use k8s_lb_controller.Dataplane.Http.{Method, DecodeError, answer, moved, handle_services}
use k8s_lb_controller.Dataplane.Http.Answers.{handle_services_refused}
use k8s_lb_controller.Dataplane.Http.Routing.{
  Handler, Route, healthz, readyz, services, nowhere, route, ends_open, mux_clean, routed, serve,
}

split-behind_slashes :
    (s : String) (l : List String)
    → IsSegment s
    → All IsSegment l
    → split 47 (behind_slashes (s ∷ l)) ≡ "" ∷ s ∷ l
unfolding behind_slashes
split-behind_slashes s l h hs = split_front _ ∙ ap (λ z. "" ∷ z) (split-segments s l h hs)

ends_open-segments :
    (s : String) (l : List String) → IsSegment s → All IsSegment l → ends_open (s ∷ l) ≡ false
ends_open-segments s [] h hs = h.named
ends_open-segments s (t ∷ l) h (k, ks) = ends_open-segments t l k ks

mux_clean-segments :
    (s : String) (l : List String)
    → IsSegment s
    → All IsSegment l
    → mux_clean (behind_slashes (s ∷ l)) ≡ behind_slashes (s ∷ l)
mux_clean-segments s l h hs =
    let pieces = split-behind_slashes s l h hs in
    let cleaned : clean_rooted (behind_slashes (s ∷ l)) ≡ behind_slashes (s ∷ l) =
      unfold clean_rooted in
      ap (λ z. rooted (clean_segments [] z)) pieces
      ∙ ap rooted (clean_segments-blank [] (s ∷ l) ∙ clean_segments-segments [] (s ∷ l) (h, hs)) in
    rw (pieces, ends_open-segments s l h hs) cleaned

route-services : (l : List String) → route ("" ∷ "services" ∷ l) ≡ services
route-services [] = refl
route-services (s ∷ l) = refl

module _ {W E F : Type 0} (ipm : IpManager W E) (applier : ConfigApplier W F)
    (unescape : String → Option String) (decode : Handler → String → Result DecodeError Service)
    (redirect : ℕ) where
  -- A path of segments below /services is handled by handleServices, as it is.
  pub serve-services :
      (handler : Handler) (l : List String) (m : Method) (body : String) (e : Engine W)
      → IsSegment "services"
      → All IsSegment l
      → serve ipm applier unescape decode redirect handler m
          (behind_slashes ("services" ∷ l))
          body
          e
        ≡ handle_services ipm applier unescape
            (decode handler)
            m
            (behind_slashes ("services" ∷ l))
            body
            e
  unfolding serve
  serve-services handler l m body e h hs =
      rw
        (
          mux_clean-segments "services" l h hs,
          beq_refl (behind_slashes ("services" ∷ l)),
          split-behind_slashes "services" l h hs,
          route-services l,
        )
        refl

  -- Whatever the route: a request that is answered neither 200 nor 500 leaves the engine as it was.
  pub serve_refused :
      (handler : Handler) (m : Method) (path body : String) (e : Engine W)
      → (serve ipm applier unescape decode redirect handler m path body e).0.status ≢ 200
      → (serve ipm applier unescape decode redirect handler m path body e).0.status ≢ 500
      → (serve ipm applier unescape decode redirect handler m path body e).1 ≡ e
  unfolding serve
  serve_refused handler m path body e = by (mux_clean path == path)
    where
      by :
          (b : Bool)
          → let x =
              if b
              then routed ipm applier unescape decode redirect handler
                  (route (split 47 path))
                  m
                  path
                  body
                  e
              else (answer redirect (moved (mux_clean path)), e) in
            x.0.status ≢ 200 → x.0.status ≢ 500 → x.1 ≡ e
      by false = λ n k. refl
      by true = at (route (split 47 path))
        where
          at :
              (r : Route)
              → let x = routed ipm applier unescape decode redirect handler r m path body e in
                x.0.status ≢ 200 → x.0.status ≢ 500 → x.1 ≡ e
          at healthz n k = refl
          at readyz n k = refl
          at services n k =
              handle_services_refused ipm applier unescape (decode handler) m path body e n k
          at nowhere n k = refl
