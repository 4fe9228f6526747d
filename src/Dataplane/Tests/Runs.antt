-- ===== src/Dataplane/Tests/Runs.antt =====
-- Runs of the engine and its parts on small inputs.
use k8s_lb_controller.Prelude.{
  String, string_eq, ◌==◌, Bool, Option, Result, err, ◌≡◌, ◌↔◌, refl, arith, none, true, false, [],
  ◌∷◌, some, ok, if◌then◌else◌, contains, nat_eq,
}
use k8s_lb_controller.Prelude.Sort.{sort}
use k8s_lb_controller.Prelude.Assoc.{get as map_get, put as map_put}
use k8s_lb_controller.Netip.{parse_ipv4}
use k8s_lb_controller.Provider.{Service, ServiceRef, ref, ref_order}
use k8s_lb_controller.Prelude.Order.{same}
use k8s_lb_controller.Dataplane.Store.Normal.{normalize_service_idem}
use k8s_lb_controller.Dataplane.Store.{Store, new_store, upsert, get, list, normalize_service}
use k8s_lb_controller.Dataplane.Store.Laws.{
  IsCanonical, new_store-IsCanonical, upsert-IsCanonical, list_deterministic,
}
use k8s_lb_controller.Dataplane.ExternalIps.Sets.{wanted}
use k8s_lb_controller.Dataplane.Engine.{Engine, fresh_engine, ensure, delete, reconcile_locked}
use k8s_lb_controller.Dataplane.Engine.Methods.{delete_after_detach_failure}
use k8s_lb_controller.Dataplane.Engine.Safety.{
  reconcile_never_drops, reconcile_apply_failure, reconcile_attach_failure,
}
use k8s_lb_controller.Dataplane.Render.Validate.{validate_service}
use k8s_lb_controller.Dataplane.Render.Validate.Accepts.{IsValidService, validate_service_iff}
use k8s_lb_controller.Dataplane.Render.Identifier.{frontend_identifier}
use k8s_lb_controller.Dataplane.Http.{
  put, DecodeError, malformed, handle_services, handle_ensure_service, service_ref_from_path,
}
use k8s_lb_controller.Dataplane.Http.Answers.{handle_services-put}
use k8s_lb_controller.Dataplane.Tests.{
  Desk, desk_manager, desk_applier, has, config_of, as_given, desk_host, web, web_port, idle,
  present, absent,
}

abbrev one : Store
one = upsert new_store web

one-IsCanonical : IsCanonical one
one-IsCanonical = upsert-IsCanonical new_store web new_store-IsCanonical

-- Two stores with the same Services, whose maps hold them in different orders.
abbrev api : Service
api = normalize_service (record web { name = "api" })

abbrev own : Service
own = normalize_service web

abbrev web_first : Store
web_first = record { services = (ref own, own) ∷ (ref api, api) ∷ [] }

abbrev api_first : Store
api_first = record { services = (ref api, api) ∷ (ref own, own) ∷ [] }

web_first-IsCanonical : IsCanonical web_first
unfolding normalize_service
web_first-IsCanonical = record {
  is_map = ((refl, tt), (tt, tt));
  entries = (
    (refl, normalize_service_idem web),
    ((refl, normalize_service_idem (record web { name = "api" })), tt),
  );
}

api_first-IsCanonical : IsCanonical api_first
unfolding normalize_service
api_first-IsCanonical = record {
  is_map = ((refl, tt), (tt, tt));
  entries = (
    (refl, normalize_service_idem (record web { name = "api" })),
    ((refl, normalize_service_idem web), tt),
  );
}

two_orders :
    (k l r : ServiceRef) (a b : Service)
    → same k l ≡ false
    → (if same k r then some a else if same l r then some b else none)
      ≡ (if same l r then some b else if same k r then some a else none)
two_orders k l r a b n =
    ground (arith, ref_order.cmp-eq k r, ref_order.cmp-eq l r, ref_order.cmp_refl r)

same_content : (r : ServiceRef) → get web_first r ≡ get api_first r
unfolding get map_get
same_content r = two_orders (ref own) (ref api) r own api (unfold normalize_service in refl)

list_deterministic_example : list web_first ≡ list api_first
list_deterministic_example =
    list_deterministic web_first api_first web_first-IsCanonical api_first-IsCanonical same_content

abbrev start : Engine Desk
start = fresh_engine idle

abbrev running : Engine Desk
running = record {
  store = one;
  host = record { addrs = 5 ∷ []; stuck = []; refuses = false; config = [] };
}

-- The host cannot remove the Service's address.
abbrev jammed : Engine Desk
jammed = record {
  store = one;
  host = record { addrs = 5 ∷ []; stuck = 5 ∷ []; refuses = false; config = [] };
}

delete_after_detach_failure_example :
    delete desk_manager desk_applier (ref web) (delete desk_manager desk_applier (ref web) jammed).1
    ≡ (ok false, (delete desk_manager desk_applier (ref web) jammed).1)
unfolding delete parse_ipv4 present absent contains sort get map_get map_put upsert list
delete_after_detach_failure_example =
    delete_after_detach_failure desk_manager desk_applier has config_of as_given desk_host (ref web)
      jammed 5 "cannot remove" one-IsCanonical refl

-- The address that no Service holds any more is still on the host.
leaked :
    contains
      (delete desk_manager desk_applier
        (ref web)
        (delete desk_manager desk_applier (ref web) jammed).1).1.host.addrs
      5
    ≡ true
unfolding delete parse_ipv4 present absent contains sort get map_get map_put upsert list
leaked = refl

reconcile_never_drops_example :
    has (reconcile_locked desk_manager desk_applier one jammed).1.host 5 ≡ true
unfolding contains upsert list wanted sort map_put parse_ipv4
reconcile_never_drops_example =
    reconcile_never_drops desk_manager desk_applier has config_of as_given desk_host one jammed 5
      refl refl

-- The host takes no configuration.
abbrev refusing : Engine Desk
refusing = fresh_engine (record { addrs = 9 ∷ []; stuck = []; refuses = true; config = [] })

reconcile_apply_failure_example :
    ((reconcile_locked desk_manager desk_applier one refusing).1.store ≡ new_store)
    × (has (reconcile_locked desk_manager desk_applier one refusing).1.host 5 ≡ false)
unfolding reconcile_locked parse_ipv4 present absent contains sort upsert list map_put
reconcile_apply_failure_example =
    reconcile_apply_failure desk_manager desk_applier has config_of as_given desk_host one refusing
      "refused" 5 refl

-- The host cannot add the Service's address.
abbrev full : Engine Desk
full = fresh_engine (record { addrs = 9 ∷ []; stuck = 5 ∷ []; refuses = false; config = [] })

reconcile_attach_failure_example :
    ((reconcile_locked desk_manager desk_applier one full).1.store ≡ new_store)
    × (has (reconcile_locked desk_manager desk_applier one full).1.host 9 ≡ true)
unfolding reconcile_locked parse_ipv4 present absent contains sort upsert list map_put
reconcile_attach_failure_example =
    reconcile_attach_failure desk_manager desk_applier has config_of as_given desk_host one full 5
      "cannot add" 9 refl refl

validate_service_iff_example : (validate_service web ≡ ok tt) ↔ IsValidService web
validate_service_iff_example = validate_service_iff web

-- Paths without escapes, and one body that is understood.
abbrev plain : String → Option String
plain s = some s

abbrev read_web : String → Result DecodeError Service
read_web body =
    if body == "web" then ok (record web { namespace = ""; name = "" }) else err malformed

handle_services-put_example :
    (r : ServiceRef) × (service_ref_from_path plain "/services/default/web" ≡ ok r)
    × (s : Service) × (read_web "web" ≡ ok s)
    × (c : Bool) × (ensure desk_manager desk_applier
          (record s { namespace = r.namespace; name = r.name })
          start
        ≡ (
          ok c,
          (handle_services desk_manager desk_applier plain read_web put "/services/default/web"
              "web" start).1,
        ))
unfolding handle_services handle_ensure_service service_ref_from_path ensure parse_ipv4 present
    absent contains sort get map_get map_put list validate_service
handle_services-put_example =
    handle_services-put desk_manager desk_applier plain read_web "/services/default/web" "web" start
      refl

-- Two Services of different namespaces have one frontend name.
same_frontend :
    frontend_identifier (record web { namespace = "team-a"; name = "web" }) web_port
    ≡ frontend_identifier (record web { namespace = "team"; name = "a-web" }) web_port
unfolding frontend_identifier
same_frontend = refl
