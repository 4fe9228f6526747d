-- ===== src/Command/Tests.antt =====
-- The start of both commands with small environments.
use k8s_lb_controller.Prelude.{
  ◌≡◌, refl, err, ap, String, Bool, true, false, [], ◌∷◌, Option, none, some, ok, ◌==◌, string_eq,
  if◌then◌else◌, contains, arith,
}
use k8s_lb_controller.Prelude.Int.{ℤ, pos}
use k8s_lb_controller.Prelude.Texts.{trim_space, to_lower, split}
use k8s_lb_controller.Netip.{parse_ipv4}
use k8s_lb_controller.Ipam.Pool.{parse_pool}
use k8s_lb_controller.Urls.{Url, UrlLibrary}
use k8s_lb_controller.Urls.Checks.{ReadsBack}
use k8s_lb_controller.Environment.{
  Env, string_env, bool_env, int_env, duration_env, normalize_log_level,
}
use k8s_lb_controller.Environment.DotEnv.{
  DotEnvFile, entries, load_dot_env, load_dot_env_lem, or_else, entry, map_entries,
}
use k8s_lb_controller.Configuration.{
  Config, load, load_timings, load_checked, positive_env, dataplane_api_url_from_env, initial,
  env_provider_mode, env_dataplane_api_url, normalize_provider_mode,
}
use k8s_lb_controller.Configuration.Loaded.{IsLoaded, load-IsLoaded}
use k8s_lb_controller.Environment.Parsing.{parse_bool, parse_int}
use k8s_lb_controller.Dataplane.IpAttach.{
  is_valid_mode, normalize_mode, linux, other, netlink_unsupported,
}
use k8s_lb_controller.Dataplane.Settings
use k8s_lb_controller.Dataplane.Settings.{
  load_config, load_values, check_values, env_ip_attach_enabled, env_interface, env_ip_cidr_suffix,
}
use k8s_lb_controller.Dataplane.Settings.Loaded.{wanted_backend, normalized_config}
use k8s_lb_controller.Command.Dataplane
use k8s_lb_controller.Command.Dataplane.Starting.{applier_of, with_manager, prepare_in-load_config}
use k8s_lb_controller.Command.Levels.{Level, parse_log_level}
use k8s_lb_controller.Command.Kubeconfig.{
  RawConfig, inspect, Stat, LoadingRules, passes, preflight, existing_kubeconfig_paths,
}
use k8s_lb_controller.Command.Kubeconfig.Contexts.{inspect_deterministic}
use k8s_lb_controller.Command.Controller.{Provider}
use k8s_lb_controller.Command.Controller as Start
use k8s_lb_controller.Command.Controller.Providers.{Wanted, prepare_in-load}

-- No duration is given, so none is parsed.
abbrev no_duration : String → Option ℤ
no_duration s = none

abbrev dataplane_url : Url
dataplane_url = record {
  scheme = "http";
  user = none;
  host = "dataplane:8090";
  path = "";
  raw_query = "";
  fragment = "";
  rest = [];
}

abbrev one_url : UrlLibrary
one_url = record {
  parse = λ s. if s == "http://dataplane:8090" then some dataplane_url else none;
  show = λ u. "http://dataplane:8090";
}

only_url :
    (b : Bool) (u : Url) → (if b then some dataplane_url else none) ≡ some u → dataplane_url ≡ u
only_url true u h = cc
only_url false u h = absurd (cc)

one_url-ReadsBack : ReadsBack one_url
unfolding trim_space
one_url-ReadsBack = record {
  named = λ s u h good. refl;
  back = λ s u h good.
      let same = only_url (s == "http://dataplane:8090") u h in
      (dataplane_url, refl, ap (λ (v : Url). v.scheme) same, ap (λ (v : Url). v.host) same);
}

-- The mode with the remote dataplane, its name in capitals.
abbrev remote_env : Env
remote_env name =
    if name == env_provider_mode
    then some " Dataplane-API "
    else if name == env_dataplane_api_url
    then some "http://dataplane:8090"
    else none

abbrev remote_config : Config
remote_config = record (initial one_url no_duration remote_env) {
  ip_pool = 3405803786 ∷ 3405803787 ∷ 3405803788 ∷ [];
  requeue_after = pos 30000000000;
  graceful_shutdown_timeout = pos 15000000000;
  dataplane_api_timeout = pos 10000000000;
  dataplane_api_url = "http://dataplane:8090";
}

remote_loads : load one_url no_duration remote_env ≡ ok remote_config
unfolding load load_timings load_checked positive_env dataplane_api_url_from_env string_env bool_env
    duration_env normalize_log_level normalize_provider_mode trim_space to_lower parse_pool
    parse_ipv4 split contains
remote_loads = refl

load-IsLoaded_example : IsLoaded one_url no_duration remote_env remote_config
load-IsLoaded_example = load-IsLoaded one_url no_duration remote_env remote_config remote_loads

abbrev same_path : String → String
same_path s = s

-- A kubeconfig with a current context, and a manager that is made.
abbrev lab_rules : LoadingRules String
lab_rules = record {
  precedence = λ explicit. "/home/op/.kube/config" ∷ [];
  load = λ explicit. ok (record { current_context = "lab"; contexts = "lab" ∷ [] });
}

abbrev one_file : Stat
one_file path = if path == "/home/op/.kube/config" then some false else none

abbrev connects : Env → Config → Bool
connects env cfg = passes one_file lab_rules (preflight one_file lab_rules env [])

connected : connects remote_env remote_config ≡ true
unfolding preflight existing_kubeconfig_paths inspect
connected = refl

prepare_in-load_example :
    (level : Level) × (provider : Provider) × (Start.prepare_in one_url same_path no_duration
        connects remote_env
      ≡ ok (record { config = remote_config; level = level; provider = provider }))
    × (parse_log_level remote_config.log_level ≡ some level)
    × Wanted one_url same_path no_duration remote_config provider
prepare_in-load_example =
    prepare_in-load one_url same_path no_duration one_url-ReadsBack connects remote_env
      remote_config remote_loads connected

-- The dataplane with an interface to attach addresses to.
abbrev attach_env : Env
attach_env name =
    if name == env_ip_attach_enabled
    then some "true"
    else if name == env_interface
    then some " eth0 "
    else if name == env_ip_cidr_suffix
    then some "24"
    else none

abbrev attach_config : Settings.Config
attach_config = record (Settings.initial attach_env) {
  graceful_shutdown_timeout = pos 15000000000;
  ip_attach_enabled = true;
  ip_cidr_suffix = pos 24;
}

attach_loads : load_config no_duration attach_env ≡ ok attach_config
unfolding load_config load_values check_values string_env bool_env int_env duration_env
    normalize_log_level trim_space to_lower is_valid_mode normalize_mode parse_bool parse_int
attach_loads = refl

abbrev kernel : String
kernel = "client"

prepare_in-load_config_example :
    (level : Level) × (Dataplane.prepare_in linux kernel same_path no_duration attach_env
      ≡ with_manager
          (λ manager. record {
            config = attach_config;
            level = level;
            manager = manager;
            applier = applier_of same_path attach_config;
          })
          (wanted_backend linux kernel attach_config (normalized_config attach_config)))
    × (parse_log_level attach_config.log_level ≡ some level)
prepare_in-load_config_example =
    prepare_in-load_config linux kernel same_path no_duration attach_env attach_config attach_loads

-- The same settings on another system.
other_system :
    wanted_backend other kernel attach_config (normalized_config attach_config)
    ≡ err netlink_unsupported
unfolding normalize_mode string_env
other_system = refl

-- A file with a variable that is set and one that is not.
abbrev file : DotEnvFile
file = entries (("A", "1") ∷ ("B", "2") ∷ [])

abbrev set_a : Env
set_a name = if name == "A" then some "0" else none

load_dot_env_lem_example :
    ((value : String) → set_a "B" ≡ some value → (load_dot_env file set_a).1 "B" ≡ some value)
    × ((b : Bool)
        → (load_dot_env file set_a).0 ≡ ok b
        → (load_dot_env file set_a).1 "B" ≡ or_else (set_a "B") (entry (map_entries file) "B"))
load_dot_env_lem_example = load_dot_env_lem file set_a "B"

abbrev lab_first : RawConfig
lab_first = record { current_context = ""; contexts = "lab" ∷ "edge" ∷ [] }

abbrev edge_first : RawConfig
edge_first = record { current_context = ""; contexts = "edge" ∷ "lab" ∷ [] }

same_contexts :
    (name : String) → contains lab_first.contexts name ≡ contains edge_first.contexts name
unfolding contains
same_contexts name = ground arith

inspect_deterministic_example :
    inspect "/home/op/.kube/config" ("/home/op/.kube/config" ∷ []) lab_first
    ≡ inspect "/home/op/.kube/config" ("/home/op/.kube/config" ∷ []) edge_first
inspect_deterministic_example =
    inspect_deterministic "/home/op/.kube/config" ("/home/op/.kube/config" ∷ []) lab_first
      edge_first refl ((refl, tt), (tt, tt)) ((refl, tt), (tt, tt)) same_contexts
