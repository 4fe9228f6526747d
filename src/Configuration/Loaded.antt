-- ===== src/Configuration/Loaded.antt =====
-- The settings that Load accepts.
use k8s_lb_controller.Ipam.Pool.Bounds.{parse_pool-lt}
use k8s_lb_controller.Prelude.{
  ◌<◌, ◌^◌, All, String, true, not, ◌&&◌, Option, ok, ◌==◌, string_eq, ◌≡◌, refl, sym, ap, ◌∙◌,
  arith,
}
use mathlib.Core.Path.{subst}
use k8s_lb_controller.Prelude.Int.{ℤ, is_positive}
use k8s_lb_controller.Prelude.Texts.{trim_space}
use k8s_lb_controller.Prelude.Fallible.{>>=-eq-ok}
use k8s_lb_controller.Ipam.Pool.{parse_pool}
use k8s_lb_controller.Urls.{UrlLibrary}
use k8s_lb_controller.Environment.{Env, string_env, is_supported_log_level}
use k8s_lb_controller.Environment.Reading.{string_env-trimmed}
use k8s_lb_controller.Configuration.{
  Config, provider_mode_local_haproxy, provider_mode_dataplane_api, positive_env, load,
  load_timings, load_checked, initial, env_requeue_after, default_requeue_after,
  env_graceful_shutdown_timeout, default_graceful_shutdown_timeout, env_dataplane_api_timeout,
  default_dataplane_api_timeout, env_ip_pool, default_ip_pool, env_haproxy_config_path,
  default_haproxy_config_path, is_supported_mode, dataplane_api_url_from_env,
}

module _ (urls : UrlLibrary) (parse_duration : String → Option ℤ) where
  positive_env-eq-ok :
      (env : Env) (key : String) (default d : ℤ)
      → positive_env urls parse_duration env key default ≡ ok d
      → is_positive d ≡ true
  unfolding positive_env
  positive_env-eq-ok env key default d h = ground arith

  timed :
      (env : Env) (cfg out : Config)
      → load_timings urls parse_duration env cfg ≡ ok out
      → (is_positive out.requeue_after ≡ true)
        × (is_positive out.graceful_shutdown_timeout ≡ true)
        × (is_positive out.dataplane_api_timeout ≡ true)
  unfolding load_timings
  timed env cfg out h = ground (
    arith,
    positive_env-eq-ok env env_requeue_after default_requeue_after out.requeue_after,
    positive_env-eq-ok env env_graceful_shutdown_timeout default_graceful_shutdown_timeout
        out.graceful_shutdown_timeout,
    positive_env-eq-ok env env_dataplane_api_timeout default_dataplane_api_timeout
        out.dataplane_api_timeout,
  )

  timed_texts :
      (env : Env) (cfg out : Config)
      → load_timings urls parse_duration env cfg ≡ ok out
      → out ≡ record cfg {
        leader_elect = out.leader_elect;
        requeue_after = out.requeue_after;
        graceful_shutdown_timeout = out.graceful_shutdown_timeout;
        dataplane_api_timeout = out.dataplane_api_timeout;
      }
  unfolding load_timings
  timed_texts env cfg out h = ground arith

  checked_texts :
      (env : Env) (cfg out : Config)
      → load_checked urls parse_duration env cfg ≡ ok out
      → (not (cfg.load_balancer_class == "") ≡ true)
        × (is_supported_mode cfg.provider_mode ≡ true)
        × (not (cfg.provider_mode == provider_mode_local_haproxy && cfg.haproxy_config_path == "")
            ≡ true)
        × (is_supported_log_level cfg.log_level ≡ true)
  unfolding load_checked
  checked_texts env cfg out h = ground arith

  checked_rest :
      (env : Env) (cfg out : Config)
      → load_checked urls parse_duration env cfg ≡ ok out
      → (parse_pool (string_env env env_ip_pool default_ip_pool) ≡ ok out.ip_pool)
        × (out ≡ record cfg { ip_pool = out.ip_pool; dataplane_api_url = out.dataplane_api_url })
        × ((cfg.provider_mode == provider_mode_dataplane_api) ≡ true
            → dataplane_api_url_from_env urls parse_duration env ≡ ok out.dataplane_api_url)
  unfolding load_checked
  checked_rest env cfg out h = ground arith

  -- What holds of settings that Load has returned for an environment.
  pub record IsLoaded (env : Env) (cfg : Config) : Type 0 where
    pub requeue_positive : is_positive cfg.requeue_after ≡ true
    pub shutdown_positive : is_positive cfg.graceful_shutdown_timeout ≡ true
    pub timeout_positive : is_positive cfg.dataplane_api_timeout ≡ true
    pub class_named : not (cfg.load_balancer_class == "") ≡ true
    pub mode_supported : is_supported_mode cfg.provider_mode ≡ true
    pub path_named :
        not (cfg.provider_mode == provider_mode_local_haproxy && cfg.haproxy_config_path == "")
        ≡ true
    pub path_trimmed : trim_space cfg.haproxy_config_path ≡ cfg.haproxy_config_path
    pub level_supported : is_supported_log_level cfg.log_level ≡ true
    pub pool_parsed : parse_pool (string_env env env_ip_pool default_ip_pool) ≡ ok cfg.ip_pool
    pub pool_bounded : All (λ ip. ip < 2 ^ 32) cfg.ip_pool
    pub url_accepted :
        (cfg.provider_mode == provider_mode_dataplane_api) ≡ true
        → dataplane_api_url_from_env urls parse_duration env ≡ ok cfg.dataplane_api_url

  -- The settings that Load returns: the three durations are positive, the class is named, the mode
  -- and the log level are supported, the local mode has a path, which has no spaces around it, the
  -- pool is what the variable or its default parses to and has addresses below 2 ^ 32 only, and in
  -- the other mode the URL is the one that was accepted from its variable.
  pub load-IsLoaded :
      (env : Env) (cfg : Config) → load urls parse_duration env ≡ ok cfg → IsLoaded env cfg
  unfolding load
  load-IsLoaded env cfg h =
      let (mid, first, second) =
        >>=-eq-ok (load_timings urls parse_duration env (initial urls parse_duration env))
          (load_checked urls parse_duration env) h in
      let (requeue, shutdown, timeout) = timed env _ mid first in
      let (class, mode, path, level) = checked_texts env mid cfg second in
      let (pool, same, url) = checked_rest env mid cfg second in
      subst (IsLoaded env) (sym same) (record {
        requeue_positive = requeue;
        shutdown_positive = shutdown;
        timeout_positive = timeout;
        class_named = class;
        mode_supported = mode;
        path_named = path;
        path_trimmed =
            ap (λ c. trim_space c.haproxy_config_path) (timed_texts env _ mid first)
            ∙ string_env-trimmed env env_haproxy_config_path default_haproxy_config_path
                (unfold trim_space in refl)
            ∙ sym (ap (λ (c : Config). c.haproxy_config_path) (timed_texts env _ mid first));
        level_supported = level;
        pool_parsed = pool;
        pool_bounded = parse_pool-lt (string_env env env_ip_pool default_ip_pool) cfg.ip_pool pool;
        url_accepted = url;
      })
