-- ===== src/Dataplane/Tests/Histories.antt =====
-- Sequences of calls on a host that never fails.
use k8s_lb_controller.Prelude.{
  ◌≡◌, refl, String, Bool, true, false, List, [], ◌∷◌, none, Result, ok, nat_eq, if◌then◌else◌,
  contains, keep, arith, string_eq, Bool-cases, inl, inr,
}
use k8s_lb_controller.Prelude.Sort.{sort}
use k8s_lb_controller.Prelude.Assoc.{get as map_get, put as map_put}
use k8s_lb_controller.Netip.{Addr, parse_ipv4}
use k8s_lb_controller.Provider.{Service, ref, ref_order}
use k8s_lb_controller.Dataplane.Store.{normalize_service, get, list}
use k8s_lb_controller.Dataplane.Store.Laws.{new_store-IsCanonical}
use k8s_lb_controller.Dataplane.ExternalIps.Sets.{wanted}
use k8s_lb_controller.Dataplane.Render.Validate.{validate_service}
use k8s_lb_controller.Dataplane.Render.Validate.Accepts.{validate_service_iff}
use k8s_lb_controller.Dataplane.Host.{IpManager, ConfigApplier, HostLaws}
use k8s_lb_controller.Dataplane.Engine.{Engine, fresh_engine, ensure}
use k8s_lb_controller.Dataplane.Engine.Progress.{Working}
use k8s_lb_controller.Dataplane.Engine.Histories.{
  Call, ensures, deletes, Desired, specified, specified_call, after, Return, ServesHere,
  after-Serves, ensure_after_failures,
}
use k8s_lb_controller.Dataplane.Engine.Total.{Valid, calls-Return, calls_converge}
use k8s_lb_controller.Dataplane.Tests.{
  Desk, desk_manager, desk_applier, has, config_of, as_given, desk_host, web, present, absent,
  without, contains-without,
}

-- The addresses of a host and its configuration.
record Bench : Type 0 where
  addrs : List Addr
  config : List Service

add : Addr → Bench → Result String Bool × Bench
unfolding contains
add x w = if contains w.addrs x then (ok false, w) else (ok true, record w { addrs = x ∷ w.addrs })

drop : Addr → Bench → Result String Bool × Bench
unfolding contains keep
drop x w = (ok (contains w.addrs x), record w { addrs = without x w.addrs })

abbrev bench_manager : IpManager Bench String
bench_manager = record { list = λ w. (ok w.addrs, w); ensure_present = add; ensure_absent = drop }

abbrev bench_applier : ConfigApplier Bench String
bench_applier = record {
  apply = λ l w. (ok true, record w { config = l });
  bootstrap = λ w. (ok tt, w);
}

abbrev on_bench : Bench → Addr → Bool
on_bench w a = contains w.addrs a

abbrev bench_config : Bench → List Service
bench_config w = w.config

bench_host : HostLaws bench_manager bench_applier on_bench bench_config as_given
unfolding add drop contains
bench_host = record {
  ips = record {
    list-keeps = λ w a. refl;
    list-lists = λ w l a h. ground arith;
    present-done = λ x w b h. ground arith;
    present-changed = λ x w b h. ground arith;
    present-other = λ x w a h. ground arith;
    absent-done = λ x w b h. ground (arith, contains-without x w.addrs x);
    absent-other = λ x w a h. ground (arith, contains-without x w.addrs a);
  };
  apply-keeps = λ l w a. refl;
  apply-active = λ l w b h. refl;
  list-active = λ w. refl;
  present-active = λ x w. ground arith;
  absent-active = λ x w. refl;
}

added : (a : Addr) (w : Bench) → (b : Bool) × ((add a w).0 ≡ ok b)
unfolding add
added a w = elim (Bool-cases (contains w.addrs a)) [ inl e ↦ (false, rw e) | inr n ↦ (true, rw n) ]

bench_works : Working bench_manager bench_applier
unfolding drop
bench_works = record {
  lists = λ w. (w.addrs, refl);
  attaches = added;
  detaches = λ a w. (contains w.addrs a, refl);
  applies = λ l w h. (true, refl);
}

abbrev empty : Engine Bench
empty = fresh_engine (record { addrs = []; config = [] })

abbrev nothing : Desired
nothing r = none

serves_nothing :
    ServesHere bench_manager bench_applier on_bench bench_config as_given bench_host nothing empty
unfolding get map_get contains wanted list sort
serves_nothing = (λ r. refl, λ a. refl, refl)

abbrev moved : Service
moved = record web { external_ip = "0.0.0.6" }

abbrev twice : List Call
twice = ensures web ∷ ensures moved ∷ deletes (ref web) ∷ []

twice-Valid : Valid twice
unfolding validate_service parse_ipv4 sort normalize_service
twice-Valid = (
  (validate_service_iff (normalize_service web)).0 refl,
  ((validate_service_iff (normalize_service moved)).0 refl, tt),
)

calls-Return_example : Return bench_manager bench_applier twice empty
calls-Return_example =
    calls-Return bench_manager bench_applier on_bench bench_config as_given bench_host bench_works
      twice empty twice-Valid (new_store-IsCanonical, tt)

calls_converge_example :
    ServesHere bench_manager bench_applier on_bench bench_config as_given bench_host
      (specified twice nothing)
      (after bench_manager bench_applier twice empty)
calls_converge_example =
    calls_converge bench_manager bench_applier on_bench bench_config as_given bench_host bench_works
      twice empty nothing twice-Valid (new_store-IsCanonical, tt) serves_nothing

after-Serves_example :
    ServesHere bench_manager bench_applier on_bench bench_config as_given bench_host
      (specified twice nothing)
      (after bench_manager bench_applier twice empty)
after-Serves_example =
    after-Serves bench_manager bench_applier on_bench bench_config as_given bench_host twice empty
      nothing new_store-IsCanonical serves_nothing calls-Return_example

-- The host takes no address 6, so the first call fails.
abbrev start : Engine Desk
start = fresh_engine (record { addrs = []; stuck = 6 ∷ []; refuses = false; config = [] })

abbrev failing : List Call
failing = ensures moved ∷ []

ensure_after_failures_example :
    ServesHere desk_manager desk_applier has config_of as_given desk_host
      (specified_call (ensures web) (get (after desk_manager desk_applier failing start).store))
      (ensure desk_manager desk_applier web (after desk_manager desk_applier failing start)).1
unfolding ensure parse_ipv4 present absent contains sort get map_get map_put list
ensure_after_failures_example =
    ensure_after_failures desk_manager desk_applier has config_of as_given desk_host failing web
      start true new_store-IsCanonical refl
