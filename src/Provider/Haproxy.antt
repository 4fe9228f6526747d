-- ===== src/Provider/Haproxy.antt =====
-- internal/provider/haproxy: the provider that writes the configuration file itself.
use k8s_lb_controller.Prelude.{
  ◌≡◌, refl, ◌∙◌, ap, String, Bool, List, [], map, Option, none, some, Result, ok, err,
  if◌then◌else◌, arith,
}
use k8s_lb_controller.Prelude.Order.{same}
use k8s_lb_controller.Prelude.Sort.{sort, before}
use k8s_lb_controller.Prelude.Assoc.{Map, IsMap, get, put, remove, get-put, get-remove}
use k8s_lb_controller.Provider.{ServiceRef, Service, ref, ref_order}
use mathlib.Core.Option.{map as option_map}
use k8s_lb_controller.Dataplane.Render.{render}
use k8s_lb_controller.Dataplane.Apply.{ApplyConfig, Faults, Disk, ApplyError, new_applier, apply}
use k8s_lb_controller.Dataplane.Apply.Atomic.{apply-ok}

-- Its Services and the directory of the configuration.
pub record Haproxy : Type 0 where
  pub services : Map ServiceRef Service
  pub disk : Disk

abbrev pub without_services : Disk → Haproxy
without_services d = record { services = []; disk = d }

-- NewProvider, which has no file of the process id: the settings of its applier, and its state. No
-- answer stands for the error of NewApplier.
unfoldable pub new_haproxy : (String → String) → ApplyConfig → Disk → Option (ApplyConfig × Haproxy)
unfolding new_applier
new_haproxy clean cfg d =
    option_map (λ applier. (applier, without_services d))
      (new_applier clean (record cfg { pid_file = "" }))

abbrev entry_service : ServiceRef × Service → Service
entry_service e = e.1

-- servicesToList, in the order of the references; a copy of a map is the map.
unfoldable pub services_to_list : Map ServiceRef Service → List Service
unfolding sort
services_to_list services = sort (before ref) (map entry_service services)

abbrev pub Answer : Type 0
Answer = Result ApplyError Bool × Haproxy

-- The state is taken over when the configuration has been applied, and only then.
abbrev pub taken_over :
    Map ServiceRef Service → Map ServiceRef Service → Result ApplyError Bool × Disk → Answer
taken_over old next (ok changed, d) = (ok changed, record { services = next; disk = d })
taken_over old next (err e, d) = (err e, record { services = old; disk = d })

-- Provider.Ensure
unfoldable pub ensure : ApplyConfig → Faults → Service → Haproxy → Answer
unfolding put services_to_list
ensure cfg f s p =
    let next = put p.services (ref s) s in
    taken_over p.services next (apply cfg f (services_to_list next) p.disk)

-- Provider.Delete, which applies the configuration also when there is no such Service.
unfoldable pub delete : ApplyConfig → Faults → ServiceRef → Haproxy → Answer
unfolding remove services_to_list
delete cfg f r p =
    let next = remove p.services r in
    taken_over p.services next (apply cfg f (services_to_list next) p.disk)

-- The active file has the configuration of the Services.
abbrev pub IsActive : Haproxy → Type 0
IsActive p =
    (text : String) × (render (services_to_list p.services) ≡ ok text) × (p.disk.active ≡ some text)

taken_over-ok :
    (old next : Map ServiceRef Service) (a : Result ApplyError Bool × Disk) (b : Bool)
    → (taken_over old next a).0 ≡ ok b
    → (a.0 ≡ ok b) × ((taken_over old next a).1 ≡ record { services = next; disk = a.1 })
taken_over-ok old next (ok c, d) b h = (h, refl)
taken_over-ok old next (err e, d) b h = cc

-- An Ensure that returns has the Service under its reference, every other reference as it was, and
-- the configuration of all of them in the active file.
pub haproxy_ensure-ok :
    (cfg : ApplyConfig) (f : Faults) (s : Service) (p : Haproxy) (b : Bool) (r : ServiceRef)
    → (ensure cfg f s p).0 ≡ ok b
    → (get (ensure cfg f s p).1.services r ≡ (if same (ref s) r then some s else get p.services r))
      × IsActive (ensure cfg f s p).1
unfolding ensure
haproxy_ensure-ok cfg f s p b r h =
    let next = put p.services (ref s) s in
    let (done, moved) =
      taken_over-ok p.services next (apply cfg f (services_to_list next) p.disk) b h in
    let (text, e, active) = apply-ok cfg f (services_to_list next) p.disk b done in
    (
      ap (λ (q : Haproxy). get q.services r) moved ∙ get-put p.services (ref s) r s,
      (
        text,
        ap (λ (q : Haproxy). render (services_to_list q.services)) moved ∙ e,
        ap (λ (q : Haproxy). q.disk.active) moved ∙ active,
      ),
    )

-- A Delete that returns has nothing under the reference, every other reference as it was, and the
-- configuration of what is left in the active file.
pub haproxy_delete-ok :
    (cfg : ApplyConfig) (f : Faults) (q : ServiceRef) (p : Haproxy) (b : Bool) (r : ServiceRef)
    → IsMap p.services
    → (delete cfg f q p).0 ≡ ok b
    → (get (delete cfg f q p).1.services r ≡ (if same q r then none else get p.services r))
      × IsActive (delete cfg f q p).1
unfolding delete
haproxy_delete-ok cfg f q p b r m h =
    let next = remove p.services q in
    let (done, moved) =
      taken_over-ok p.services next (apply cfg f (services_to_list next) p.disk) b h in
    let (text, e, active) = apply-ok cfg f (services_to_list next) p.disk b done in
    (
      ap (λ (z : Haproxy). get z.services r) moved
          ∙ ground (arith, get-remove p.services q r m, ref_order.cmp-eq q r),
      (
        text,
        ap (λ (z : Haproxy). render (services_to_list z.services)) moved ∙ e,
        ap (λ (z : Haproxy). z.disk.active) moved ∙ active,
      ),
    )

taken_over_failed :
    (old next : Map ServiceRef Service) (a : Result ApplyError Bool × Disk) (x : ApplyError)
    → (taken_over old next a).0 ≡ err x
    → (taken_over old next a).1.services ≡ old
taken_over_failed old next (ok c, d) x h = cc
taken_over_failed old next (err e, d) x h = refl

-- An Ensure that fails keeps the Services as they were.
pub haproxy_ensure_failure :
    (cfg : ApplyConfig) (f : Faults) (s : Service) (p : Haproxy) (x : ApplyError)
    → (ensure cfg f s p).0 ≡ err x
    → (ensure cfg f s p).1.services ≡ p.services
unfolding ensure
haproxy_ensure_failure cfg f s p x h =
    taken_over_failed p.services (put p.services (ref s) s)
      (apply cfg f (services_to_list (put p.services (ref s) s)) p.disk) x h
