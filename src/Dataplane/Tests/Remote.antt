-- ===== src/Dataplane/Tests/Remote.antt =====
-- The provider that calls the dataplane, over its own handler.
use k8s_lb_controller.Prelude.{
  ℕ, ◌≡◌, refl, String, Bool, true, false, [], Option, none, some, Result, ok, err, ◌==◌, string_eq,
  if◌then◌else◌, contains, arith,
}
use k8s_lb_controller.Prelude.Texts.{split}
use k8s_lb_controller.Prelude.Paths.{clean_segments}
use k8s_lb_controller.Prelude.Paths.Laws.{IsSegment}
use k8s_lb_controller.Urls.{UrlLibrary}
use k8s_lb_controller.Provider.{Service, ref}
use k8s_lb_controller.Provider.Api
use k8s_lb_controller.Provider.Api.{Api, ServicePayload, service_path, service_payload_from_service}
use k8s_lb_controller.Provider.Api.Paths.{Reaches, service_ref_from_path-service_path}
use k8s_lb_controller.Provider.Api.Remote.{Agrees, served, remote_ensure, remote_delete}
use k8s_lb_controller.Dataplane.Engine.{Engine, fresh_engine}
use k8s_lb_controller.Dataplane.Engine as Engine
use k8s_lb_controller.Prelude.Int.{pos}
use k8s_lb_controller.Dataplane.Http.Routing.{Handler, serve}
use k8s_lb_controller.Dataplane.Http.Routing.Reaching.{serve_refused}
use k8s_lb_controller.Dataplane.Http.{
  DecodeError, malformed, Payload, changed, service_ref_from_path, handle_services,
  handle_ensure_service, put,
}
use k8s_lb_controller.Dataplane.Tests.{Desk, desk_manager, desk_applier, web, idle}

-- A URL library for one host: a URL prints as its path.
abbrev by_path : UrlLibrary
by_path = record {
  parse = λ s. some (record {
    scheme = "http";
    user = none;
    host = "dataplane";
    path = s;
    raw_query = "";
    fragment = "";
    rest = [];
  });
  show = λ u. u.path;
}

abbrev remote : Api
remote = record {
  base = record {
    scheme = "http";
    user = none;
    host = "dataplane";
    path = "/";
    raw_query = "";
    fragment = "";
    rest = [];
  };
}

abbrev plain : String → Option String
plain s = some s

-- One payload that is written and read.
abbrev write_web : ServicePayload → Option String
write_web p = some "web"

abbrev read_web : String → Result DecodeError Service
read_web body = if body == "web" then ok web else err malformed

abbrev show_payload : Payload → String
show_payload (changed true) = "true"
show_payload (changed false) = "false"
show_payload p = "error"

abbrev read_changed : String → Option (Option Bool)
read_changed s =
    if s == "true" then some (some true) else if s == "false" then some (some false) else none

changed_read : (b : Bool) → read_changed (show_payload (changed b)) ≡ some (some b)
changed_read true = refl
changed_read false = refl

abbrev status_text : ℕ → String
status_text n = ""

abbrev small : Handler
small = record { max_request_body_bytes = pos 64; ready = true }

default-IsSegment : IsSegment "default"
unfolding contains
default-IsSegment = record { named = refl; no_dot = refl; no_dots = refl; no_slash = refl }

web-IsSegment : IsSegment "web"
unfolding contains
web-IsSegment = record { named = refl; no_dot = refl; no_dots = refl; no_slash = refl }

web-Reaches : Reaches by_path plain remote (ref web)
unfolding clean_segments split
web-Reaches = record {
  root = refl;
  namespace = default-IsSegment;
  name = web-IsSegment;
  plain_namespace = refl;
  plain_name = refl;
  url = (record (remote.base) { path = service_path "/" (ref web) }, refl, refl);
}

service_ref_from_path-service_path_example :
    service_ref_from_path plain (service_path "/" (ref web)) ≡ ok (ref web)
unfolding clean_segments split
service_ref_from_path-service_path_example =
    service_ref_from_path-service_path plain "/" (ref web) refl default-IsSegment web-IsSegment refl
      refl

abbrev start : Engine Desk
start = fresh_engine idle

remote_ensure_example :
    Agrees {T = String} {R = String} desk_manager desk_applier plain read_web show_payload
      status_text 307 small
      (Api.ensure by_path write_web read_changed
        (served desk_manager desk_applier plain read_web show_payload status_text 307 small)
        remote
        web
        start)
      (Engine.ensure desk_manager desk_applier web start)
remote_ensure_example =
    remote_ensure desk_manager desk_applier plain read_web show_payload status_text 307 small
      by_path write_web read_changed changed_read remote web start "web" web-Reaches refl
      (unfold service_payload_from_service in refl)

remote_delete_example :
    Agrees {T = String} {R = String} desk_manager desk_applier plain read_web show_payload
      status_text 307 small
      (Api.delete by_path write_web read_changed
        (served desk_manager desk_applier plain read_web show_payload status_text 307 small)
        remote
        (ref web)
        start)
      (Engine.delete desk_manager desk_applier (ref web) start)
remote_delete_example =
    remote_delete desk_manager desk_applier plain read_web show_payload status_text 307 small
      by_path write_web read_changed changed_read remote (ref web) start web-Reaches

-- A body that is read as a Service of another name.
serve_refused_example :
    (serve desk_manager desk_applier plain
      (λ h. read_web)
      307
      small
      put
      "/services/default/other"
      "web"
      start).1
    ≡ start
unfolding serve clean_segments split handle_services handle_ensure_service service_ref_from_path
serve_refused_example =
    serve_refused desk_manager desk_applier plain (λ h. read_web) 307 small put
      "/services/default/other" "web" start (λ h. ground arith) (λ h. ground arith)
