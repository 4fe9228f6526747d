-- ===== src/Dataplane/Http.antt =====
-- internal/dataplane/http.go: the HTTP interface of the engine.
pub mod Answers
pub mod Routing
use k8s_lb_controller.Prelude.{
  ℕ, String, Bool, true, false, not, ◌&&◌, ◌||◌, List, [], ◌∷◌, Option, none, some, Result, ok, err,
  ◌==◌, nat_eq, string_eq, if◌then◌else◌,
}
use k8s_lb_controller.Prelude.Texts.{split, trim_of}
use k8s_lb_controller.Provider.{ServiceRef, Service}
use k8s_lb_controller.Dataplane.Store.{normalize_service}
use k8s_lb_controller.Dataplane.Render.Validate.{InvalidService, validate_service}
use k8s_lb_controller.Dataplane.Host.{IpManager, ConfigApplier}
use k8s_lb_controller.Dataplane.Engine.{Engine, Step, EngineError, ensure, delete}

pub data Method : Type 0 where
  get : Method
  put : Method
  delete_method : Method
  other : String → Method

-- What keeps a path from naming a Service.
pub data PathError : Type 0 where
  no_match : PathError
  bad_namespace : PathError
  bad_name : PathError
  empty_part : PathError

-- What keeps a body from being one Service.
pub data DecodeError : Type 0 where
  too_large : DecodeError
  malformed : DecodeError
  not_single : DecodeError

pub data Payload : Type 0 where
  text_ok : Payload
  changed : Bool → Payload
  path_error : PathError → Payload
  decode_error : DecodeError → Payload
  namespace_mismatch : Payload
  name_mismatch : Payload
  invalid_service : InvalidService → Payload
  apply_failed : Payload
  not_ready : Payload
  not_allowed : List String → Payload
  moved : String → Payload
  not_found : Payload

pub record Response : Type 0 where
  pub status : ℕ
  pub payload : Payload

abbrev pub answer : ℕ → Payload → Response
answer status payload = record { status = status; payload = payload }

abbrev pub default_max_request_body_bytes : ℕ
default_max_request_body_bytes = 1048576

-- writeMethodNotAllowed
abbrev pub method_not_allowed : List String → Response
method_not_allowed methods = answer 405 (not_allowed methods)

-- Handler.handleHealthz
unfoldable pub handle_healthz : Method → Response
handle_healthz get = answer 200 text_ok
handle_healthz m = method_not_allowed ("GET" ∷ [])

-- Handler.handleReadyz
unfoldable pub handle_readyz : Bool → Method → Response
handle_readyz ready get = if ready then answer 200 text_ok else answer 503 not_ready
handle_readyz ready m = method_not_allowed ("GET" ∷ [])

abbrev pub named_ref : String → String → Result PathError ServiceRef
named_ref namespace name =
    if namespace == "" || name == ""
    then err empty_part
    else ok (record { namespace = namespace; name = name })

abbrev pub unescaped_ref : Option String → Option String → Result PathError ServiceRef
unescaped_ref none name = err bad_namespace
unescaped_ref (some namespace) none = err bad_name
unescaped_ref (some namespace) (some name) = named_ref namespace name

abbrev pub segments_ref : (String → Option String) → List String → Result PathError ServiceRef
segments_ref unescape (first ∷ namespace ∷ name ∷ []) =
    if first == "services" then unescaped_ref (unescape namespace) (unescape name) else err no_match
segments_ref unescape l = err no_match

-- serviceRefFromPath, where `unescape` is url.PathUnescape.
unfoldable pub service_ref_from_path :
    (String → Option String) → String → Result PathError ServiceRef
unfolding split trim_of
service_ref_from_path unescape path = segments_ref unescape (split b'/' (trim_of b'/' path))

module _ {W E F : Type 0} (ipm : IpManager W E) (applier : ConfigApplier W F)
    (unescape : String → Option String) (decode : String → Result DecodeError Service) where
  abbrev pub finish : Step W E F → Response × Engine W
  finish (ok c, e) = (answer 200 (changed c), e)
  finish (err x, e) = (answer 500 apply_failed, e)

  -- The Service of the request under the reference of the path, once the two agree.
  abbrev pub placed : ServiceRef → Service → Service
  placed r s = record s { namespace = r.namespace; name = r.name }

  abbrev pub validated :
      ServiceRef → Service → Result InvalidService (Unit {0}) → Engine W → Response × Engine W
  validated r s (err x) e = (answer 400 (invalid_service x), e)
  validated r s (ok _) e = finish (ensure ipm applier (placed r s) e)

  abbrev pub decoded : ServiceRef → Result DecodeError Service → Engine W → Response × Engine W
  decoded r (err x) e = (answer 400 (decode_error x), e)
  decoded r (ok s) e =
      if not (s.namespace == "") && not (s.namespace == r.namespace)
      then (answer 400 namespace_mismatch, e)
      else if not (s.name == "") && not (s.name == r.name)
      then (answer 400 name_mismatch, e)
      else validated r s (validate_service (normalize_service (placed r s))) e

  -- Handler.handleEnsureService, where `decode` is decodeServiceRequest.
  unfoldable pub handle_ensure_service : ServiceRef → String → Engine W → Response × Engine W
  handle_ensure_service r body e = decoded r (decode body) e

  -- Handler.handleDeleteService
  unfoldable pub handle_delete_service : ServiceRef → Engine W → Response × Engine W
  handle_delete_service r e = finish (delete ipm applier r e)

  abbrev pub with_ref :
      Result PathError ServiceRef → Method → String → Engine W → Response × Engine W
  with_ref (err x) m body e = (answer 400 (path_error x), e)
  with_ref (ok r) put body e = handle_ensure_service r body e
  with_ref (ok r) delete_method body e = handle_delete_service r e
  with_ref (ok r) m body e = (method_not_allowed ("PUT" ∷ "DELETE" ∷ []), e)

  -- Handler.handleServices
  unfoldable pub handle_services : Method → String → String → Engine W → Response × Engine W
  handle_services m path body e = with_ref (service_ref_from_path unescape path) m body e
