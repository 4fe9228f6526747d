-- ===== src/Provider/Api.antt =====
-- internal/provider/dataplaneapi: the provider that calls the HTTP interface of the dataplane.
pub mod Paths
pub mod Remote
pub mod Payloads
use k8s_lb_controller.Prelude.{
  ℕ, String, Bool, true, false, not, ◌||◌, List, [], ◌∷◌, map, Option, none, some, Result, ok, err,
  M, ◌==◌, string_eq, if◌then◌else◌, ltb, leb,
}
use k8s_lb_controller.Prelude.Int.{ℤ, is_positive}
use k8s_lb_controller.Prelude.Texts.{trim_space}
use k8s_lb_controller.Prelude.Paths.{join_rooted}
use k8s_lb_controller.Urls.{Url, UrlLibrary, UrlError, base_url}
use k8s_lb_controller.Provider.{ServiceRef, Service, ServicePort, BackendEndpoint, ref}
use k8s_lb_controller.Dataplane.Http.{Method, put, delete_method}

pub record ApiConfig : Type 0 where
  pub base_url : String
  pub timeout : ℤ

pub data NewError : Type 0 where
  empty_url : NewError
  bad_url : UrlError → NewError
  timeout_not_positive : NewError

-- The provider: its base URL. The timeout is the HTTP client's.
pub record Api : Type 0 where
  pub base : Url

abbrev pub with_timeout : ApiConfig → Result UrlError Url → Result NewError Api
with_timeout cfg (err x) = err (bad_url x)
with_timeout cfg (ok u) =
    if is_positive cfg.timeout then ok (record { base = u }) else err timeout_not_positive

-- NewProvider
unfoldable pub new_provider : UrlLibrary → ApiConfig → Result NewError Api
new_provider urls cfg =
    if trim_space cfg.base_url == ""
    then err empty_url
    else with_timeout cfg (base_url (urls.parse (trim_space cfg.base_url)))

pub record BackendEndpointPayload : Type 0 where
  pub address : String
  pub port : ℤ

pub record ServicePortPayload : Type 0 where
  pub name : String
  pub protocol : String
  pub port : ℤ
  pub target_port : String
  pub backends : List BackendEndpointPayload

pub record ServicePayload : Type 0 where
  pub namespace : String
  pub name : String
  pub load_balancer_class : String
  pub external_ip : String
  pub ports : List ServicePortPayload

abbrev pub backend_payload : BackendEndpoint → BackendEndpointPayload
backend_payload b = record { address = b.address; port = b.port }

abbrev pub port_payload : ServicePort → ServicePortPayload
port_payload p = record {
  name = p.name;
  protocol = p.protocol;
  port = p.port;
  target_port = p.target_port;
  backends = map backend_payload p.backends;
}

-- servicePayloadFromService
unfoldable pub service_payload_from_service : Service → ServicePayload
service_payload_from_service s = record {
  namespace = s.namespace;
  name = s.name;
  load_balancer_class = s.load_balancer_class;
  external_ip = s.external_ip;
  ports = map port_payload s.ports;
}

-- The path of Provider.serviceURL.
unfoldable pub service_path : String → ServiceRef → String
service_path base r = join_rooted (base ∷ "services" ∷ r.namespace ∷ r.name ∷ [])

-- Provider.serviceURL, before it is printed.
abbrev pub service_url : Api → ServiceRef → Url
service_url p r = record (p.base) { path = service_path p.base.path r }

-- The request that goes out, with the URL that http.NewRequest reads from the printed one.
pub record Request : Type 0 where
  pub method : Method
  pub url : Url
  pub body : String
  pub content_type : String

-- What comes back: the status, its text, and what reading the body answers.
pub record Answer (R : Type 0) : Type 0 where
  pub status_code : ℕ
  pub status : String
  pub body : Result R String

pub data ApiError (T R : Type 0) : Type 0 where
  marshal_failed : ApiError T R
  create_request : ApiError T R
  request_failed : T → ApiError T R
  read_failed : R → ApiError T R
  unexpected_status : String → ApiError T R
  unexpected_status_with : String → String → ApiError T R
  decode_failed : ApiError T R
  missing_changed : ApiError T R

-- `encode` is json.Marshal of a payload, and `decode` json.Unmarshal into a changedResponse: the
-- field `changed`, if it is there. `transport` is http.Client.Do.
module _ {W T R : Type 0} (urls : UrlLibrary) (encode : ServicePayload → Option String)
    (decode : String → Option (Option Bool)) (transport : Request → M W T (Answer R)) where
  abbrev pub changed_of : Option (Option Bool) → Result (ApiError T R) Bool
  changed_of none = err decode_failed
  changed_of (some none) = err missing_changed
  changed_of (some (some b)) = ok b

  abbrev pub with_body : ℕ → String → Result R String → Result (ApiError T R) Bool
  with_body code status (err x) = err (read_failed x)
  with_body code status (ok text) =
      if ltb code 200 || leb 300 code
      then err (
          if trim_space text == ""
          then unexpected_status status
          else unexpected_status_with status (trim_space text))
      else changed_of (decode text)

  -- What doRequest makes of an answer.
  unfoldable pub received : Answer R → Result (ApiError T R) Bool
  received a = with_body a.status_code a.status a.body

  abbrev pub sent : Result T (Answer R) × W → Result (ApiError T R) Bool × W
  sent (err x, w) = (err (request_failed x), w)
  sent (ok a, w) = (received a, w)

  abbrev pub with_url : Method → String → String → Option Url → M W (ApiError T R) Bool
  with_url m body content_type none w = (err create_request, w)
  with_url m body content_type (some u) w =
      sent (transport (record { method = m; url = u; body = body; content_type = content_type }) w)

  -- Provider.doRequest
  unfoldable pub do_request : Api → Method → ServiceRef → String → String → M W (ApiError T R) Bool
  do_request p m r body content_type =
      with_url m body content_type (urls.parse (urls.show (service_url p r)))

  abbrev pub with_payload : Api → ServiceRef → Option String → M W (ApiError T R) Bool
  with_payload p r none w = (err marshal_failed, w)
  with_payload p r (some text) w = do_request p put r text "application/json" w

  -- Provider.Ensure
  unfoldable pub ensure : Api → Service → M W (ApiError T R) Bool
  ensure p s = with_payload p (ref s) (encode (service_payload_from_service s))

  -- Provider.Delete: no body, and no content type.
  unfoldable pub delete : Api → ServiceRef → M W (ApiError T R) Bool
  delete p r = do_request p delete_method r "" ""
