-- ===== src/Dataplane/Engine.antt =====
-- internal/dataplane/engine.go: one method at a time, since each holds the engine's lock.
pub mod Attaching
pub mod Configuration
pub mod Reconcile
pub mod Stores
pub mod Methods
pub mod Safety
pub mod Histories
pub mod Progress
pub mod Total
use k8s_lb_controller.Prelude.{
  ℕ, String, Bool, true, false, not, ◌||◌, List, [], ◌∷◌, ◌++◌, Option, none, some, Result, ok, err,
  M, if◌then◌else◌, length,
}
use k8s_lb_controller.Prelude.Assoc.{Map}
use k8s_lb_controller.Netip.{Addr}
use k8s_lb_controller.Provider.{Service, ServiceRef}
use k8s_lb_controller.Dataplane.Store.{Store, new_store, normalize_service, clone, upsert, is_some}
use k8s_lb_controller.Dataplane.Store as Store
use k8s_lb_controller.Dataplane.ExternalIps.{
  DesiredIpError, desired_external_ips, diff_external_ips,
}
use k8s_lb_controller.Dataplane.Render.Validate.{InvalidService, validate_service}
use k8s_lb_controller.Dataplane.Host.{IpManager, ConfigApplier}
use k8s_lb_controller.Dataplane.Apply.{ApplyConfig, new_applier}
use mathlib.Core.List.{reverse}
use mathlib.Core.Option.{map as option_map}

-- An attach error and an apply error carry the errors of the rollback.
pub data EngineError (E F : Type 0) : Type 0 where
  invalid : InvalidService → EngineError E F
  list_ips : E → EngineError E F
  desired_ips : DesiredIpError → EngineError E F
  attach_ip : Addr → E → List E → EngineError E F
  apply_config : F → List E → EngineError E F
  detach_ip : Addr → E → EngineError E F

-- The engine's store, and the host that its two collaborators change.
pub record Engine (W : Type 0) : Type 0 where
  pub store : Store
  pub host : W

abbrev pub Step : Type 0 → Type 0 → Type 0 → Type 0
Step W E F = Result (EngineError E F) Bool × Engine W

abbrev pub is_empty : List Addr → Bool
is_empty [] = true
is_empty (a ∷ l) = false

abbrev pub join_error : {E : Type 0} → Result E Bool → List E → List E
join_error (err e) errors = e ∷ errors
join_error (ok _) errors = errors

module _ {W E F : Type 0} (ipm : IpManager W E) (applier : ConfigApplier W F) where
  -- The loop over the new addresses. An error comes with its address and what was attached before.
  unfoldable pub attach_all : List Addr → List Addr → M W (Addr × E × List Addr) (List Addr)
  attach_all [] attached w = (ok attached, w)
  attach_all (addr ∷ rest) attached w =
      let (r, w') = ipm.ensure_present addr w in
      elim r [
        | err e ↦ (err (addr, e, attached), w')
        | ok changed ↦ attach_all rest (if changed then attached ++ addr ∷ [] else attached) w'
      ]

  -- The loop of rollbackAttachedExternalIPs, which goes on after an error.
  unfoldable pub detach_each : List Addr → W → List E × W
  detach_each [] w = ([], w)
  detach_each (addr ∷ rest) w =
      let (r, w') = ipm.ensure_absent addr w in
      let (errors, w'') = detach_each rest w' in (join_error r errors, w'')

  -- rollbackAttachedExternalIPs: the last attached address first.
  unfoldable pub rollback : List Addr → W → List E × W
  unfolding detach_each
  rollback attached w = detach_each (reverse attached) w

  -- The loop over the stale addresses, which ends at the first error.
  unfoldable pub detach_all : List Addr → Bool → M W (Addr × E) Bool
  detach_all [] changed w = (ok changed, w)
  detach_all (addr ∷ rest) changed w =
      let (r, w') = ipm.ensure_absent addr w in
      elim r [
        | err e ↦ (err (addr, e), w')
        | ok detached ↦ detach_all rest (changed || detached) w'
      ]

  -- The answer and the state after the stale addresses have gone: the store is `next` by then.
  abbrev pub committed : Store → Result (Addr × E) Bool → W → Step W E F
  committed next (err (addr, e)) w = (err (detach_ip addr e), record { store = next; host = w })
  committed next (ok changed) w = (ok changed, record { store = next; host = w })

  unfoldable pub commit : Store → List Addr → Bool → W → Step W E F
  unfolding detach_all
  commit next stale changed w = let (r, w') = detach_all stale changed w in committed next r w'

  unfoldable pub give_up : Store → List Addr → (List E → EngineError E F) → W → Step W E F
  unfolding rollback
  give_up old attached error w =
      let (errors, w') = rollback attached w in
      (err (error errors), record { store = old; host = w' })

  -- What follows the application of the configuration.
  unfoldable pub after_apply :
      Store → Store → List Addr → List Addr → Result F Bool → W → Step W E F
  unfolding commit give_up
  after_apply old next stale attached (err f) w = give_up old attached (apply_config f) w
  after_apply old next stale attached (ok config_changed) w =
      commit next stale (config_changed || not (is_empty attached)) w

  -- What follows the attachment of the new addresses.
  unfoldable pub after_attach :
      Store → Store → List Addr → Result (Addr × E × List Addr) (List Addr) → W → Step W E F
  unfolding after_apply give_up
  after_attach old next stale (err (addr, e, attached)) w =
      give_up old attached (attach_ip addr e) w
  after_attach old next stale (ok attached) w =
      let (s, w') = applier.apply (Store.list next) w in after_apply old next stale attached s w'

  -- What follows the computation of the desired addresses.
  unfoldable pub after_desired :
      Store → Store → List Addr → Result DesiredIpError (List Addr) → W → Step W E F
  unfolding after_attach attach_all diff_external_ips
  after_desired old next current (err x) w = (err (desired_ips x), record { store = old; host = w })
  after_desired old next current (ok desired) w =
      let (r, w') = attach_all (diff_external_ips desired current) [] w in
      after_attach old next (diff_external_ips current desired) r w'

  -- What follows the listing of the attached addresses.
  unfoldable pub after_list : Store → Store → Result E (List Addr) → W → Step W E F
  unfolding after_desired desired_external_ips
  after_list old next (err x) w = (err (list_ips x), record { store = old; host = w })
  after_list old next (ok current) w =
      after_desired old next current (desired_external_ips (Store.list next)) w

  -- reconcileLocked
  unfoldable pub reconcile_locked : Store → Engine W → Step W E F
  unfolding after_list
  reconcile_locked next e = let (r, w) = ipm.list e.host in after_list e.store next r w

  -- Engine.Ensure
  unfoldable pub ensure : Service → Engine W → Step W E F
  unfolding reconcile_locked normalize_service validate_service clone upsert
  ensure service e =
      let normalized = normalize_service service in
      elim (validate_service normalized) [
        | err x ↦ (err (invalid x), e)
        | ok _ ↦ reconcile_locked (upsert (clone e.store) normalized) e
      ]

  -- Engine.Delete
  unfoldable pub delete : ServiceRef → Engine W → Step W E F
  unfolding reconcile_locked Store.get Store.delete clone
  delete r e =
      if is_some (Store.get e.store r)
      then reconcile_locked (Store.delete (clone e.store) r).0 e
      else (ok false, e)

  -- Engine.Bootstrap
  unfoldable pub bootstrap : Engine W → Result F (Unit {0}) × Engine W
  bootstrap e = let (r, w) = applier.bootstrap e.host in (r, record e { host = w })

-- The engine that NewEngine makes: nothing is desired at first.
abbrev pub fresh_engine : {W : Type 0} → W → Engine W
fresh_engine w = record { store = new_store; host = w }

-- EngineConfig: the settings of the applier that the engine makes when it is given none.
pub record EngineConfig (W E F : Type 0) : Type 0 where
  pub settings : ApplyConfig
  pub applier : Option (ConfigApplier W F)
  pub ip_manager : Option (IpManager W E)

-- noopExternalIPManager, of which no law of the addresses holds: it attaches nothing.
abbrev pub noop_external_ip_manager : {W E : Type 0} → IpManager W E
noop_external_ip_manager = record {
  list = λ w. (ok [], w);
  ensure_present = λ a w. (ok false, w);
  ensure_absent = λ a w. (ok false, w);
}

-- The engine together with the collaborators that its methods call.
pub record Assembled (W E F : Type 0) : Type 0 where
  pub applier : ConfigApplier W F
  pub ip_manager : IpManager W E
  pub engine : Engine W

-- The applier that NewEngine is given, or else the one that it makes.
abbrev pub given_or_made :
    {W F : Type 0}
    → (String → String)
    → (ApplyConfig → ConfigApplier W F)
    → ApplyConfig
    → Option (ConfigApplier W F)
    → Option (ConfigApplier W F)
given_or_made clean make settings (some given) = some given
given_or_made clean make settings none = option_map make (new_applier clean settings)

abbrev pub ip_manager_or_noop : {W E : Type 0} → Option (IpManager W E) → IpManager W E
ip_manager_or_noop (some given) = given
ip_manager_or_noop none = noop_external_ip_manager

-- NewEngine, where `clean` is filepath.Clean and `make` the applier of checked settings; no answer
-- stands for the error of NewApplier.
unfoldable pub new_engine :
    {W E F : Type 0}
    → (String → String)
    → (ApplyConfig → ConfigApplier W F)
    → EngineConfig W E F
    → W
    → Option (Assembled W E F)
unfolding new_applier
new_engine clean make cfg w =
    option_map
      (λ (applier : ConfigApplier _ _). record {
        applier = applier;
        ip_manager = ip_manager_or_noop cfg.ip_manager;
        engine = fresh_engine w;
      })
      (given_or_made clean make cfg.settings cfg.applier)

-- Engine.Snapshot and Engine.ServiceCount.
abbrev pub snapshot : {W : Type 0} → Engine W → Map ServiceRef Service
snapshot e = Store.snapshot e.store

abbrev pub service_count : {W : Type 0} → Engine W → ℕ
service_count e = Store.len e.store
