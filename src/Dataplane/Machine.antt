-- ===== src/Dataplane/Machine.antt =====
-- The engine's two collaborators on one host: a manager of addresses and the applier of
-- internal/dataplane/apply.go, put together as cmd/dataplane does.
pub mod Repairing
use k8s_lb_controller.Prelude.{
  ℕ, suc, ◌≡◌, refl, ◌∙◌, ap, sym, String, Bool, List, Option, none, some, Result, ok, err, M,
}
use k8s_lb_controller.Netip.{Addr}
use k8s_lb_controller.Provider.{Service}
use k8s_lb_controller.Dataplane.Host.{IpManager, ConfigApplier, IpLaws, HostLaws}
use k8s_lb_controller.Dataplane.Render.{RenderError, render}
use k8s_lb_controller.Dataplane.Apply.{ApplyConfig, Faults, Disk, ApplyError, apply, bootstrap}
use k8s_lb_controller.Dataplane.Apply.Atomic.{apply-ok}

-- The interface, the directory of the configuration, and the number of the applier's runs so far.
pub record Machine (X : Type 0) : Type 0 where
  pub network : X
  pub disk : Disk
  pub runs : ℕ

abbrev text_of : Result RenderError String → Option String
text_of (ok text) = some text
text_of (err e) = none

-- The configuration of the Services, if they have one.
abbrev pub rendered : List Service → Option String
rendered l = text_of (render l)

abbrev pub active : {X : Type 0} → Machine X → Option String
active w = w.disk.active

module _ {X E : Type 0} (ipm : IpManager X E) (cfg : ApplyConfig) (answers : ℕ → Faults) where
  abbrev on_network : {A : Type 0} → M X E A → M (Machine X) E A
  on_network m w = ((m w.network).0, record w { network = (m w.network).1 })

  abbrev pub machine_manager : IpManager (Machine X) E
  machine_manager = record {
    list = on_network ipm.list;
    ensure_present = λ a. on_network (ipm.ensure_present a);
    ensure_absent = λ a. on_network (ipm.ensure_absent a);
  }

  -- Each run of the applier has the system's answers to that run.
  abbrev on_disk : {A : Type 0} → (Faults → M Disk ApplyError A) → M (Machine X) ApplyError A
  on_disk m w = (
    (m (answers w.runs) w.disk).0,
    record w { disk = (m (answers w.runs) w.disk).1; runs = suc w.runs },
  )

  abbrev pub machine_applier : ConfigApplier (Machine X) ApplyError
  machine_applier = record {
    apply = λ l. on_disk (λ f. apply cfg f l);
    bootstrap = on_disk (λ f. bootstrap cfg f);
  }

module _ {X E : Type 0} (ipm : IpManager X E) (attached : X → Addr → Bool)
    (laws : IpLaws ipm attached) (cfg : ApplyConfig) (answers : ℕ → Faults) where
  abbrev pub attached_to : Machine X → Addr → Bool
  attached_to w a = attached w.network a

  apply-active :
      (l : List Service) (w : Machine X) (b : Bool)
      → (apply cfg (answers w.runs) l w.disk).0 ≡ ok b
      → (apply cfg (answers w.runs) l w.disk).1.active ≡ rendered l
  apply-active l w b h =
      let (text, e, now) = apply-ok cfg (answers w.runs) l w.disk b h in now ∙ sym (ap text_of e)

  -- Whatever the system answers to each run, the applier together with a manager that keeps the
  -- laws of the addresses is a host as the engine relies on it: what is active after an Apply that
  -- returned is the configuration of its Services, and neither touches what the other keeps.
  pub machine-HostLaws :
      HostLaws
        (machine_manager ipm cfg answers)
        (machine_applier ipm cfg answers)
        attached_to
        active
        rendered
  machine-HostLaws = record {
    ips = record {
      list-keeps = λ w a. laws.list-keeps w.network a;
      list-lists = λ w l a h. laws.list-lists w.network l a h;
      present-done = λ x w b h. laws.present-done x w.network b h;
      present-changed = λ x w b h. laws.present-changed x w.network b h;
      present-other = λ x w a n. laws.present-other x w.network a n;
      absent-done = λ x w b h. laws.absent-done x w.network b h;
      absent-other = λ x w a n. laws.absent-other x w.network a n;
    };
    apply-keeps = λ l w a. refl;
    apply-active = apply-active;
    list-active = λ w. refl;
    present-active = λ x w. refl;
    absent-active = λ x w. refl;
  }
