-- ===== src/Dataplane/Tests.antt =====
-- A small host to run the engine on, and runs of the components.
mod Runs
mod Files
mod Output
mod Histories
mod Repairs
mod Remote
use k8s_lb_controller.Prelude.{
  ◌≡◌, refl, String, Bool, true, false, not, List, [], ◌∷◌, Option, none, some, Result, ok, err,
  ◌==◌, nat_eq, string_eq, if◌then◌else◌, contains, keep, arith, inl, inr, Bool-cases,
}
use k8s_lb_controller.Prelude.Int.{ℤ, pos}
use k8s_lb_controller.Netip.{Addr}
use k8s_lb_controller.Provider.{Service, ServicePort, BackendEndpoint}
use k8s_lb_controller.Dataplane.Host.{IpManager, ConfigApplier, IpLaws, HostLaws}

-- A host: its addresses, those that can be neither added nor removed, and its configuration.
pub record Desk : Type 0 where
  pub addrs : List Addr
  pub stuck : List Addr
  pub refuses : Bool
  pub config : List Service

abbrev pub without : Addr → List Addr → List Addr
without x l = keep (λ a. not (x == a)) l

unfoldable pub present : Addr → Desk → Result String Bool × Desk
unfolding contains
present x w =
    if contains w.addrs x
    then (ok false, w)
    else if contains w.stuck x
    then (err "cannot add", w)
    else (ok true, record w { addrs = x ∷ w.addrs })

unfoldable pub absent : Addr → Desk → Result String Bool × Desk
unfolding contains keep
absent x w =
    if contains w.stuck x
    then (err "cannot remove", w)
    else (ok (contains w.addrs x), record w { addrs = without x w.addrs })

abbrev pub desk_manager : IpManager Desk String
desk_manager = record {
  list = λ w. (ok w.addrs, w);
  ensure_present = present;
  ensure_absent = absent;
}

abbrev pub desk_apply : List Service → Desk → Result String Bool × Desk
desk_apply l w = if w.refuses then (err "refused", w) else (ok true, record w { config = l })

abbrev pub desk_applier : ConfigApplier Desk String
desk_applier = record { apply = desk_apply; bootstrap = λ w. (ok tt, w) }

abbrev pub has : Desk → Addr → Bool
has w a = contains w.addrs a

abbrev pub config_of : Desk → List Service
config_of w = w.config

abbrev pub as_given : List Service → List Service
as_given l = l

pub contains-without :
    (x : Addr) (l : List Addr) (a : Addr)
    → contains (without x l) a ≡ (if x == a then false else contains l a)
unfolding contains keep
contains-without x [] a = ground arith
contains-without x (b ∷ l) a = ground (arith, contains-without x l a)

pub desk_ips : IpLaws desk_manager has
unfolding present absent contains
desk_ips = record {
  list-keeps = λ w a. refl;
  list-lists = λ w l a h. ground arith;
  present-done = λ x w b h. ground arith;
  present-changed = λ x w b h. ground arith;
  present-other = λ x w a h. ground arith;
  absent-done = λ x w b h. ground (arith, contains-without x w.addrs x);
  absent-other = λ x w a h. ground (arith, contains-without x w.addrs a);
}

pub desk_host : HostLaws desk_manager desk_applier has config_of as_given
unfolding present absent
desk_host = record {
  ips = desk_ips;
  apply-keeps = λ l w a. ground arith;
  apply-active = λ l w b h. ground arith;
  list-active = λ w. refl;
  present-active = λ x w. ground arith;
  absent-active = λ x w. ground arith;
}

abbrev pub web_port : ServicePort
web_port = record {
  name = "http";
  protocol = "TCP";
  port = pos 80;
  target_port = "8080";
  backends =
      record { address = "10.0.0.2"; port = pos 8080 }
      ∷ record { address = "10.0.0.1"; port = pos 8080 }
      ∷ [];
}

abbrev pub web : Service
web = record {
  namespace = "default";
  name = "web";
  load_balancer_class = "lb";
  external_ip = "0.0.0.5";
  ports = web_port ∷ [];
}

abbrev pub idle : Desk
idle = record { addrs = 9 ∷ []; stuck = []; refuses = false; config = [] }
