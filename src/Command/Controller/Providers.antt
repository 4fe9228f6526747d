-- ===== src/Command/Controller/Providers.antt =====
-- The provider that is built from loaded settings.
use k8s_lb_controller.Prelude.{
  ◌≡◌, refl, sym, ap, ◌∙◌, String, Bool, true, false, not, ◌&&◌, ◌||◌, Option, none, some, Result,
  ok, err, ◌==◌, string_eq, if◌then◌else◌, arith, Bool-cases, inl, inr,
}
use mathlib.Core.Path.{subst}
use k8s_lb_controller.Prelude.Int.{ℤ, is_positive}
use k8s_lb_controller.Prelude.Texts.{trim_space}
use k8s_lb_controller.Urls.{Url, UrlLibrary, UrlError, base_url}
use k8s_lb_controller.Urls.Checks.{ReadsBack, base_url-eq-ok, base_url-same}
use k8s_lb_controller.Environment.{Env}
use k8s_lb_controller.Configuration.{
  Config, load, shown, api_url, dataplane_api_url_from_env, provider_mode_local_haproxy,
  provider_mode_dataplane_api, env_dataplane_api_url, empty_variable,
}
use k8s_lb_controller.Configuration.Loaded.{IsLoaded, load-IsLoaded}
use k8s_lb_controller.Dataplane.Apply.{ApplyConfig, new_applier}
use k8s_lb_controller.Provider.Api.{Api, ApiConfig, new_provider, with_timeout}
use k8s_lb_controller.Command.Levels.{Level, parse_log_level, parse_log_level-supported}
use k8s_lb_controller.Command.Controller.{
  Provider, haproxy, api, applier_config, api_config, from_applier, from_api, build_provider,
  prepare_in,
}

module _ (urls : UrlLibrary) (clean : String → String) (parse_duration : String → Option ℤ) where
  -- The applier's settings, once they have been trimmed and cleaned.
  abbrev pub applier_of : Config → ApplyConfig
  applier_of cfg = record {
    config_path = clean cfg.haproxy_config_path;
    validate_command = trim_space cfg.haproxy_validate_command;
    reload_command = trim_space cfg.haproxy_reload_command;
    pid_file = trim_space "";
  }

  -- The provider that the mode asks for: the one that writes the file, or one for an accepted URL.
  abbrev pub Wanted : Config → Provider → Type 0
  Wanted cfg (haproxy a) =
      ((cfg.provider_mode == provider_mode_local_haproxy) ≡ true) × (a ≡ applier_of cfg)
  Wanted cfg (api p) =
      ((cfg.provider_mode == provider_mode_dataplane_api) ≡ true)
      × (base_url (some p.base) ≡ ok p.base)
      × (urls.parse (trim_space cfg.dataplane_api_url) ≡ some p.base)

  not-and : (a b : Bool) → not (a && b) ≡ true → a ≡ true → b ≡ false
  not-and a b h k = ground arith

  local_built :
      (env : Env) (cfg : Config)
      → IsLoaded urls parse_duration env cfg
      → (cfg.provider_mode == provider_mode_local_haproxy) ≡ true
      → new_applier clean (applier_config cfg) ≡ some (applier_of cfg)
  unfolding new_applier
  local_built env cfg h m =
      rw
        (
          h.path_trimmed,
          not-and (cfg.provider_mode == provider_mode_local_haproxy) (cfg.haproxy_config_path == "")
              h.path_named m,
        )
        refl

  shown-eq-ok :
      (o : Result UrlError Url) (url : String)
      → shown urls parse_duration o ≡ ok url
      → (u : Url) × (o ≡ ok u) × (url ≡ urls.show u)
  shown-eq-ok (ok u) url h = (u, refl, cc)
  shown-eq-ok (err x) url h = absurd (cc)

  api_url-eq-ok :
      (o : Option String) (url : String)
      → api_url urls parse_duration o ≡ ok url
      → (s : String) × (u : Url) × (urls.parse s ≡ some u)
        × (base_url (some u) ≡ ok u)
        × (url ≡ urls.show u)
  api_url-eq-ok none url h = absurd (cc)
  api_url-eq-ok (some v) url h = at (trim_space v == "") h
    where
      at :
          (b : Bool)
          → (if b
              then err (empty_variable env_dataplane_api_url)
              else shown urls parse_duration (base_url (urls.parse (trim_space v))))
            ≡ ok url
          → (s : String) × (u : Url) × (urls.parse s ≡ some u)
            × (base_url (some u) ≡ ok u)
            × (url ≡ urls.show u)
      at true k = absurd (cc)
      at false k =
          let (u, e, same) = shown-eq-ok (base_url (urls.parse (trim_space v))) url k in
          let p = base_url-eq-ok (urls.parse (trim_space v)) u e in
          (trim_space v, u, p, sym (ap base_url p) ∙ e, same)

  new_provider-good :
      (cfg : ApiConfig) (v : Url)
      → (trim_space cfg.base_url == "") ≡ false
      → urls.parse (trim_space cfg.base_url) ≡ some v
      → base_url (some v) ≡ ok v
      → is_positive cfg.timeout ≡ true
      → new_provider urls cfg ≡ ok (record { base = v })
  unfolding new_provider
  new_provider-good cfg v named parsed good positive =
      rw (named, parsed) (ap (with_timeout cfg) good ∙ rw positive)

  module _ (laws : ReadsBack urls) where
    api_built :
        (env : Env) (cfg : Config)
        → IsLoaded urls parse_duration env cfg
        → (cfg.provider_mode == provider_mode_dataplane_api) ≡ true
        → (p : Api) × (new_provider urls (api_config cfg) ≡ ok p)
          × (base_url (some p.base) ≡ ok p.base)
          × (urls.parse (trim_space cfg.dataplane_api_url) ≡ some p.base)
    api_built env cfg h m =
        let accepted : api_url urls parse_duration (env env_dataplane_api_url)
            ≡ ok cfg.dataplane_api_url =
          unfold dataplane_api_url_from_env in h.url_accepted m in
        let (s, u, parsed, good, same) =
          api_url-eq-ok (env env_dataplane_api_url) cfg.dataplane_api_url accepted in
        let (v, again, scheme, host) = laws.back s u parsed good in
        let reads : urls.parse (trim_space cfg.dataplane_api_url) ≡ some v =
          ap (λ z. urls.parse (trim_space z)) same ∙ again in
        let fine = base_url-same u v scheme host good in
        (
          record { base = v },
          new_provider-good (api_config cfg) v
              (subst (λ z. (trim_space z == "") ≡ false) (sym same) (laws.named s u parsed good))
              reads fine h.timeout_positive,
          fine,
          reads,
        )

    built :
        (env : Env) (cfg : Config)
        → IsLoaded urls parse_duration env cfg
        → (provider : Provider) × (build_provider urls clean parse_duration cfg ≡ ok provider)
          × Wanted cfg provider
    unfolding build_provider
    built env cfg h = elim (Bool-cases (cfg.provider_mode == provider_mode_local_haproxy)) [
      | inl m ↦
          (haproxy (applier_of cfg), rw m (ap from_applier (local_built env cfg h m)), (m, refl))
      | inr n ↦
          let m =
            other_mode (cfg.provider_mode == provider_mode_local_haproxy)
              (cfg.provider_mode == provider_mode_dataplane_api) h.mode_supported n in
          let (p, made, good, reads) = api_built env cfg h m in
          (api p, rw (n, m) (ap from_api made), (m, good, reads))
    ]
      where
        other_mode : (a b : Bool) → (a || b) ≡ true → a ≡ false → b ≡ true
        other_mode a b k l = ground arith

    -- When the printed form of a URL that was parsed and accepted, without the spaces around it, is
    -- not blank and reads back with its scheme and its host: once the settings are loaded and the
    -- manager is there, the controller's start-up does not fail before the controllers are
    -- registered. There is a log level, and the provider is the one that the mode asks for, with the
    -- file's path cleaned or with a base URL that was parsed from the settings' and is absolute with
    -- scheme http or https.
    pub prepare_in-load :
        (connects : Env → Config → Bool) (env : Env) (cfg : Config)
        → load urls parse_duration env ≡ ok cfg
        → connects env cfg ≡ true
        → (level : Level) × (provider : Provider) × (prepare_in urls clean parse_duration connects
              env
            ≡ ok (record { config = cfg; level = level; provider = provider }))
          × (parse_log_level cfg.log_level ≡ some level)
          × Wanted cfg provider
    unfolding prepare_in
    prepare_in-load connects env cfg loaded passed =
        let h = load-IsLoaded urls parse_duration env cfg loaded in
        let (level, named) = parse_log_level-supported cfg.log_level h.level_supported in
        let (provider, made, wanted) = built env cfg h in
        (level, provider, rw (loaded, named, passed, made), named, wanted)
