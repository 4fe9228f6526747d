-- ===== src/Provider/Api/Remote.antt =====
-- The provider over the dataplane's own HTTP interface, and what comes of its calls.
use k8s_lb_controller.Prelude.{
  ℕ, ◌≡◌, refl, sym, ◌∙◌, ap, ◌↔◌, String, Bool, false, not, ◌&&◌, [], ◌∷◌, Option, some, Result,
  ok, err, M, ◌==◌, string_eq, beq_refl, arith,
}
use mathlib.Core.Path.{subst}
use k8s_lb_controller.Urls.{UrlLibrary}
use k8s_lb_controller.Provider.{ServiceRef, Service, ref}
use k8s_lb_controller.Provider.Api
use k8s_lb_controller.Provider.Api.{
  Api, ServicePayload, ServicePortPayload, BackendEndpointPayload, Request, Answer, ApiError,
  service_payload_from_service, service_path, service_url, sent, received, do_request,
  backend_payload, port_payload, with_url, with_payload,
}
use k8s_lb_controller.Provider.Api.Payloads.{service_of, service_of-payload}
use k8s_lb_controller.Provider.Api.Paths.{
  services-IsSegment, service_path-segments, Reaches, service_ref_from_path-service_path,
}
use k8s_lb_controller.Dataplane.Store.{normalize_service}
use k8s_lb_controller.Dataplane.Render.Validate.{InvalidService, validate_service}
use k8s_lb_controller.Dataplane.Host.{IpManager, ConfigApplier}
use k8s_lb_controller.Dataplane.Engine.{Engine, Step, invalid}
use k8s_lb_controller.Dataplane.Engine as Engine
use k8s_lb_controller.Dataplane.Http.Routing.{Handler, serve}
use k8s_lb_controller.Dataplane.Http.Routing.Reaching.{serve-services}
use k8s_lb_controller.Dataplane.Http.{
  DecodeError, Method, put, delete_method, Payload, changed, Response, finish, validated, decoded,
  handle_ensure_service, handle_delete_service, with_ref, handle_services, service_ref_from_path,
}

own_name : (a : String) → (not (a == "") && not (a == a)) ≡ false
own_name a = ground (arith, beq_refl a)

engine_refuses :
    {W E F : Type 0} (ipm : IpManager W E) (applier : ConfigApplier W F) (s : Service)
    (x : InvalidService) (e : Engine W)
    → validate_service (normalize_service s) ≡ err x
    → Engine.ensure ipm applier s e ≡ (err (invalid x), e)
unfolding Engine.ensure
engine_refuses ipm applier s x e h = rw (h, Engine.ensure)

decoded_same :
    {W E F : Type 0} (ipm : IpManager W E) (applier : ConfigApplier W F)
    (unescape : String → Option String) (decode_service : String → Result DecodeError Service)
    (s : Service) (e : Engine W)
    → decoded ipm applier unescape decode_service (ref s) (ok s) e
      ≡ validated ipm applier unescape decode_service
          (ref s)
          s
          (validate_service (normalize_service s))
          e
decoded_same ipm applier unescape decode_service s e =
    rw (own_name s.namespace, own_name s.name) refl

through_mux :
    {W E F : Type 0} (ipm : IpManager W E) (applier : ConfigApplier W F)
    (unescape : String → Option String) (decode_service : String → Result DecodeError Service)
    (redirect : ℕ) (handler : Handler) (urls : UrlLibrary) (p : Api) (r : ServiceRef) (m : Method)
    (body path : String) (e : Engine W)
    → Reaches urls unescape p r
    → path ≡ service_path p.base.path r
    → serve ipm applier unescape (λ h. decode_service) redirect handler m path body e
      ≡ with_ref ipm applier unescape decode_service (ok r) m body e
unfolding handle_services
through_mux ipm applier unescape decode_service redirect handler urls p r m body path e h same =
    let segments = service_path-segments p.base.path r h.root h.namespace h.name in
    ap (λ z. serve ipm applier unescape (λ h. decode_service) redirect handler m z body e)
      (same ∙ segments)
    ∙ serve-services ipm applier unescape (λ h. decode_service) redirect handler
        (r.namespace ∷ r.name ∷ []) m body e services-IsSegment (h.namespace, (h.name, tt))
    ∙ ap (λ q. with_ref ipm applier unescape decode_service q m body e)
        (ap (service_ref_from_path unescape) (sym segments)
          ∙ service_ref_from_path-service_path unescape p.base.path r h.root h.namespace h.name
              h.plain_namespace h.plain_name)

module _ {W E F T R : Type 0} (ipm : IpManager W E) (applier : ConfigApplier W F)
    (unescape : String → Option String) (decode_service : String → Result DecodeError Service)
    (show_payload : Payload → String) (status_text : ℕ → String) (redirect : ℕ)
    (handler : Handler) where
  abbrev pub answered : Response × Engine W → Result T (Answer R) × Engine W
  answered (r, e) = (
    ok (record {
      status_code = r.status;
      status = status_text r.status;
      body = ok (show_payload r.payload);
    }),
    e,
  )

  -- A transport on which no message is lost: the dataplane's mux answers each request. What the
  -- handler's limit does to a body is in what `decode_service` answers.
  abbrev pub served : Request → M (Engine W) T (Answer R)
  served q e = answered (
      serve ipm applier unescape (λ h. decode_service) redirect handler q.method q.url.path q.body
        e)

  -- A call of the provider and one of the engine leave the same engine behind, and the one
  -- returns an answer exactly when the other does, the same one.
  abbrev pub Agrees : Result (ApiError T R) Bool × Engine W → Step W E F → Type 0
  Agrees call step = (call.1 ≡ step.1) × ((c : Bool) → (call.0 ≡ ok c) ↔ (step.0 ≡ ok c))

  module _ (urls : UrlLibrary) (encode : ServicePayload → Option String)
      (decode : String → Option (Option Bool))
      (read_changed : (b : Bool) → decode (show_payload (changed b)) ≡ some (some b)) where
    abbrev outcome : Response × Engine W → Result (ApiError T R) Bool × Engine W
    outcome x = sent urls encode decode served (answered x)

    finish-Agrees :
        (step : Step W E F)
        → Agrees (outcome (finish ipm applier unescape decode_service step)) step
    unfolding received
    finish-Agrees (ok c, e) =
        (refl, λ d. (λ h. ground (arith, read_changed c), λ h. ground (arith, read_changed c)))
    finish-Agrees (err x, e) = (refl, λ d. (λ h. absurd (cc), λ h. absurd (cc)))

    -- The handler's checks before the engine, on the Service of the payload.
    checked-Agrees :
        (s : Service) (v : Result InvalidService (Unit {0})) (e : Engine W)
        → validate_service (normalize_service s) ≡ v
        → Agrees
            (outcome (validated ipm applier unescape decode_service (ref s) s v e))
            (Engine.ensure ipm applier s e)
    unfolding received
    checked-Agrees s (ok u) e h = finish-Agrees (Engine.ensure ipm applier s e)
    checked-Agrees s (err x) e h =
        refused (Engine.ensure ipm applier s e) (engine_refuses ipm applier s x e h)
      where
        refused :
            (step : Step W E F)
            → step ≡ (err (invalid x), e)
            → Agrees
                (outcome (validated ipm applier unescape decode_service (ref s) s (err x) e))
                step
        refused step same =
            subst
              (Agrees (outcome (validated ipm applier unescape decode_service (ref s) s (err x) e)))
              (sym same) (refl, λ d. (λ k. absurd (cc), λ k. absurd (cc)))

    body-Agrees :
        (s : Service) (e : Engine W)
        → Agrees
            (outcome (decoded ipm applier unescape decode_service (ref s) (ok s) e))
            (Engine.ensure ipm applier s e)
    body-Agrees s e =
        subst (λ x. Agrees (outcome x) (Engine.ensure ipm applier s e))
          (sym (decoded_same ipm applier unescape decode_service s e))
          (checked-Agrees s (validate_service (normalize_service s)) e refl)

    reached :
        (p : Api) (r : ServiceRef) (m : Method) (body content_type : String) (e : Engine W)
        → Reaches urls unescape p r
        → do_request urls encode decode served p m r body content_type e
          ≡ outcome (with_ref ipm applier unescape decode_service (ok r) m body e)
    unfolding do_request
    reached p r m body content_type e h =
        let (v, parsed, path) = h.url in
        rw parsed (
          ap outcome (
            through_mux ipm applier unescape decode_service redirect handler urls p r m body v.path
              e h path))

    -- Over the dataplane's own mux and handlers, when no message is lost, the payload of the Service is
    -- read as what it says and its namespace and name pass through a path: an Ensure of the
    -- provider leaves the engine as the engine's Ensure of the Service does, and returns an answer
    -- exactly when that does, the same one.
    pub remote_ensure :
        (p : Api) (s : Service) (e : Engine W) (text : String)
        → Reaches urls unescape p (ref s)
        → encode (service_payload_from_service s) ≡ some text
        → decode_service text ≡ ok (service_of (service_payload_from_service s))
        → Agrees (Api.ensure urls encode decode served p s e) (Engine.ensure ipm applier s e)
    unfolding Api.ensure handle_ensure_service
    remote_ensure p s e text h encoded read =
        subst (λ z. Agrees z (Engine.ensure ipm applier s e)) (sym same) (body-Agrees s e)
      where
        same :
            Api.ensure urls encode decode served p s e
            ≡ outcome (decoded ipm applier unescape decode_service (ref s) (ok s) e)
        same =
            ap (λ z. with_payload urls encode decode served p (ref s) z e) encoded
            ∙ reached p (ref s) put text "application/json" e h
            ∙ ap (λ z. outcome (decoded ipm applier unescape decode_service (ref s) z e))
                (read ∙ ap ok (service_of-payload s))

    -- Over the dataplane's own mux and handlers, when no message is lost and the namespace and the
    -- name pass through a path: a Delete of the provider leaves the engine as the engine's Delete
    -- does, and returns an answer exactly when that does, the same one.
    pub remote_delete :
        (p : Api) (r : ServiceRef) (e : Engine W)
        → Reaches urls unescape p r
        → Agrees (Api.delete urls encode decode served p r e) (Engine.delete ipm applier r e)
    unfolding Api.delete handle_delete_service
    remote_delete p r e h =
        subst (λ z. Agrees z (Engine.delete ipm applier r e))
          (sym (reached p r delete_method "" "" e h))
          (finish-Agrees (Engine.delete ipm applier r e))
