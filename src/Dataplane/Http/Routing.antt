-- ===== src/Dataplane/Http/Routing.antt =====
-- NewHandler: the handler, and the routes of its http.ServeMux.
pub mod Reaching
use k8s_lb_controller.Prelude.{
  ℕ, String, Bool, true, false, not, ◌&&◌, List, [], ◌∷◌, Option, Result, ◌==◌, string_eq,
  if◌then◌else◌,
}
use k8s_lb_controller.Prelude.Int.{ℤ, pos, is_positive}
use k8s_lb_controller.Prelude.Texts.{split}
use k8s_lb_controller.Prelude.Paths.{clean_rooted}
use Prim.Native.String.{◌++◌}
use k8s_lb_controller.Provider.{Service}
use k8s_lb_controller.Dataplane.Host.{IpManager, ConfigApplier}
use k8s_lb_controller.Dataplane.Engine.{Engine}
use k8s_lb_controller.Dataplane.Http.{
  Method, DecodeError, Response, answer, moved, not_found, handle_healthz, handle_readyz,
  handle_services, default_max_request_body_bytes,
}

-- What the handler holds besides the engine and the logger.
pub record Handler : Type 0 where
  pub max_request_body_bytes : ℤ
  pub ready : Bool

-- NewHandler, by HandlerConfig.MaxRequestBodyBytes.
unfoldable pub new_handler : ℤ → Handler
new_handler max_request_body_bytes = record {
  max_request_body_bytes =
      if is_positive max_request_body_bytes
      then max_request_body_bytes
      else pos default_max_request_body_bytes;
  ready = true;
}

pub data Route : Type 0 where
  healthz readyz services nowhere : Route

-- The patterns of NewHandler, by the pieces of a path between its slashes.
abbrev pub route_rest : String → List String → Route
route_rest first [] =
    if first == "healthz"
    then healthz
    else if first == "readyz"
    then readyz
    else if first == "services"
    then services
    else nowhere
route_rest first (s ∷ rest) = if first == "services" then services else nowhere

abbrev pub route : List String → Route
route (root ∷ first ∷ rest) = if root == "" then route_rest first rest else nowhere
route _ = nowhere

-- Whether the path is how path.Clean writes it, or that with a slash behind it.
abbrev pub ends_open : List String → Bool
ends_open [] = false
ends_open (s ∷ []) = s == ""
ends_open (s ∷ t ∷ rest) = ends_open (t ∷ rest)

abbrev pub mux_clean : String → String
mux_clean path =
    if ends_open (split 47 path) && not (clean_rooted path == "/")
    then clean_rooted path ++ "/"
    else clean_rooted path

module _ {W E F : Type 0} (ipm : IpManager W E) (applier : ConfigApplier W F)
    (unescape : String → Option String) (decode : Handler → String → Result DecodeError Service)
    (redirect : ℕ) where
  abbrev pub routed : Handler → Route → Method → String → String → Engine W → Response × Engine W
  routed h healthz m path body e = (handle_healthz m, e)
  routed h readyz m path body e = (handle_readyz h.ready m, e)
  routed h services m path body e = handle_services ipm applier unescape (decode h) m path body e
  routed h nowhere m path body e = (answer 404 not_found, e)

  -- The mux on a path that begins with a slash and needs no escapes: one that is not clean is sent
  -- elsewhere, with the status the library has for that.
  unfoldable pub serve : Handler → Method → String → String → Engine W → Response × Engine W
  unfolding clean_rooted split
  serve h m path body e =
      if mux_clean path == path
      then routed h (route (split 47 path)) m path body e
      else (answer redirect (moved (mux_clean path)), e)
