-- ===== src/Dataplane/Tests/Files.antt =====
-- Runs of the applier and of the managers of addresses on small inputs.
use k8s_lb_controller.Prelude.{
  ℕ, ◌≡◌, ◌⊎◌, refl, String, Bool, true, false, List, [], ◌∷◌, none, some, Result, ok, err, ◌==◌,
  nat_eq, string_eq, arith, if◌then◌else◌,
}
use k8s_lb_controller.Prelude.Int.{pos}
use k8s_lb_controller.Prelude.Order.{same}
use k8s_lb_controller.Prelude.Texts.{trim_space}
use k8s_lb_controller.Netip.{Addr, v4}
use k8s_lb_controller.Provider.{ref, ref_order}
use k8s_lb_controller.Dataplane.Host.{IpLaws}
use k8s_lb_controller.Dataplane.Render.{render}
use k8s_lb_controller.Dataplane.Apply.{ApplyConfig, Faults, Disk, apply, stat_error}
use k8s_lb_controller.Dataplane.Apply.Commands.{run_command, failed}
use k8s_lb_controller.Dataplane.Apply.Replacing.{IsAccepted}
use k8s_lb_controller.Dataplane.Apply.Atomic.{apply_atomic, apply_leaves_no_candidate, apply-ok}
use k8s_lb_controller.Dataplane.Apply.Reloading.{apply_after_failed_reload}
use k8s_lb_controller.Dataplane.IpAttach.{Config}
use k8s_lb_controller.Dataplane.IpAttach.Netlink.{
  Prefix, NetlinkClient, NetlinkLaws, netlink_manager, managed, netlink_manager-IpLaws, has_managed,
  is_managed,
}
use k8s_lb_controller.Provider.Haproxy.{
  Haproxy, without_services, IsActive, ensure as ensure_haproxy,
}
use k8s_lb_controller.Provider.Haproxy as Haproxy
use k8s_lb_controller.Netip.{parse_ipv4}
use k8s_lb_controller.Prelude.Sort.{sort}
use k8s_lb_controller.Prelude.Assoc.{get, put}
use k8s_lb_controller.Dataplane.Render.Validate.{validate_service}
use k8s_lb_controller.Dataplane.Tests.{web}

abbrev pub settings : ApplyConfig
settings = record {
  config_path = "/etc/haproxy.cfg";
  validate_command = "";
  reload_command = "reload {{config}}";
  pid_file = "";
}

abbrev pub calm : Faults
calm = record {
  temp = "/etc/haproxy.cfg.tmp-1";
  read = none;
  mkdir = none;
  create = none;
  write = none;
  sync = none;
  close = none;
  remove = false;
  rename = none;
  open_dir = none;
  sync_dir = none;
  pid_stat = stat_error;
  command = λ i content. none;
}

abbrev pub deaf : Faults
deaf = record calm { command = λ i content. some "no process" }

abbrev pub blank : Disk
blank = record { active = some "old"; candidates = []; loaded = some "old" }

apply_atomic_example :
    ((apply settings calm [] blank).1.active ≡ some "old")
    ⊎ ((text : String) × (render [] ≡ ok text)
        × ((apply settings calm [] blank).1.active ≡ some text)
        × IsAccepted settings calm text)
apply_atomic_example = apply_atomic settings calm [] blank

apply_leaves_no_candidate_example : (apply settings deaf [] blank).1.candidates ≡ []
apply_leaves_no_candidate_example = apply_leaves_no_candidate settings deaf [] blank refl

apply-ok_example :
    (text : String) × (render [] ≡ ok text) × ((apply settings calm [] blank).1.active ≡ some text)
unfolding apply run_command trim_space
apply-ok_example = apply-ok settings calm [] blank true refl

apply_after_failed_reload_example :
    (apply settings calm [] (apply settings deaf [] blank).1
      ≡ (ok false, (apply settings deaf [] blank).1))
    × ((apply settings deaf [] blank).1.loaded ≡ some "old")
unfolding apply run_command trim_space
apply_after_failed_reload_example =
    apply_after_failed_reload settings deaf calm [] blank (failed "no process") refl refl

-- An interface that only has addresses of the managed length.
abbrev with_addr : Addr → List Prefix → List Prefix
with_addr a l = record { addr = v4 a; bits = 32 } ∷ l

unfoldable pub without_prefix : ℕ → Addr → List Prefix → List Prefix
without_prefix bits a [] = []
without_prefix bits a (p ∷ l) =
    let rest = without_prefix bits a l in if is_managed bits a p then rest else p ∷ rest

abbrev pub has_prefix : List Prefix → Prefix → Bool
has_prefix w p = elim p.addr [ v4 a ↦ has_managed p.bits a w | _ ↦ false ]

abbrev add_prefix : Prefix → List Prefix → Result String (Unit {0}) × List Prefix
add_prefix p w = elim p.addr [ v4 a ↦ (ok tt, p ∷ w) | _ ↦ (err "family", w) ]

abbrev delete_prefix : Prefix → List Prefix → Result String (Unit {0}) × List Prefix
delete_prefix p w = elim p.addr [
  | v4 a ↦ (ok tt, without_prefix p.bits a w)
  | _ ↦ (err "family", w)
]

abbrev pub interface_client : NetlinkClient (List Prefix) String
interface_client = record {
  list_ipv4_addrs = λ name w. (ok w, w);
  add_ipv4_addr = λ name p w. add_prefix p w;
  delete_ipv4_addr = λ name p w. delete_prefix p w;
}

has_managed-without :
    (bits : ℕ) (a b : Addr) (l : List Prefix)
    → has_managed bits b (without_prefix bits a l)
      ≡ (if a == b then false else has_managed bits b l)
unfolding has_managed without_prefix
has_managed-without bits a b [] = ground arith
has_managed-without bits a b (p ∷ l) = ground (arith, has_managed-without bits a b l)

pub interface-NetlinkLaws : NetlinkLaws interface_client "eth0" has_prefix
unfolding has_managed
interface-NetlinkLaws = record {
  list-keeps = λ w p. refl;
  list-lists = λ w l a bits h. ground arith;
  add-done = λ p w u h. ground arith;
  add-failed = λ p w e q h. ground arith;
  add-other = λ a b bits w n. ground arith;
  delete-done = λ p w u h.
      elim p.addr
          as (λ a.
            (delete_prefix (record p { addr = a }) w).0 ≡ ok u
            → has_prefix (delete_prefix (record p { addr = a }) w).1 (record p { addr = a })
              ≡ false) [
                | v4 a ↦ λ k. ground (arith, has_managed-without p.bits a a w)
                | _ ↦ λ k. cc
              ]
        h;
  delete-failed = λ p w e q h. ground arith;
  delete-other = λ a b w n. ground (arith, has_managed-without 32 a b w);
}

netlink_manager-IpLaws_example :
    IpLaws
      (netlink_manager interface_client "eth0" 32)
      (managed interface_client "eth0" has_prefix interface-NetlinkLaws)
netlink_manager-IpLaws_example =
    netlink_manager-IpLaws interface_client "eth0" has_prefix interface-NetlinkLaws

abbrev attach_config : Config
attach_config = record {
  enabled = true;
  mode = " Exec ";
  interface = "eth0 ";
  command_path = "";
  cidr_suffix = pos 0;
}

abbrev attach_normalized : Config
attach_normalized = record {
  enabled = true;
  mode = "exec";
  interface = "eth0";
  command_path = "ip";
  cidr_suffix = pos 32;
}

abbrev empty_haproxy : Haproxy
empty_haproxy = without_services blank

haproxy_ensure-ok_example :
    (get (ensure_haproxy settings calm web empty_haproxy).1.services (ref web)
      ≡ (if same (ref web) (ref web) then some web else get empty_haproxy.services (ref web)))
    × IsActive (ensure_haproxy settings calm web empty_haproxy).1
unfolding ensure_haproxy apply run_command trim_space parse_ipv4 sort validate_service render put
haproxy_ensure-ok_example =
    Haproxy.haproxy_ensure-ok settings calm web empty_haproxy true (ref web) refl
