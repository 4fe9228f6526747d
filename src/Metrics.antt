-- ===== src/Metrics.antt =====
-- internal/metrics: the counters, and the provider that counts the calls of another.
pub mod Transparent
mod Tests
use k8s_lb_controller.Prelude.{
  ℕ, ◌+◌, String, Bool, true, false, not, List, [], ◌∷◌, Result, ok, err, M, ◌==◌, string_eq,
  if◌then◌else◌, length, contains, keep,
}
use k8s_lb_controller.Prelude.Int.{ℤ}
use k8s_lb_controller.Provider.{ServiceRef, ref_eq}
use k8s_lb_controller.Provider as Provider
use k8s_lb_controller.Controller.Reconcile.{ServiceProvider}

-- The value of each metric; a vector of counters is a function of its labels. A histogram is the
-- list of what it has observed, the latest first.
pub record Metrics : Type 0 where
  pub service_reconcile_total : ℕ
  pub service_reconcile_errors_total : ℕ
  pub service_reconcile_durations : List ℤ
  pub ip_allocations_total : String → ℕ
  pub provider_operations_total : String → String → ℕ
  pub provider_managed_services : ℕ

-- IncServiceReconcile
unfoldable pub inc_service_reconcile : Metrics → Metrics
inc_service_reconcile m = record m { service_reconcile_total = m.service_reconcile_total + 1 }

-- ObserveServiceReconcile, where the flag says that the run returned an error.
unfoldable pub observe_service_reconcile : ℤ → Bool → Metrics → Metrics
observe_service_reconcile duration failed m = record m {
  service_reconcile_durations = duration ∷ m.service_reconcile_durations;
  service_reconcile_errors_total =
      if failed then m.service_reconcile_errors_total + 1 else m.service_reconcile_errors_total;
}

-- recordIPAllocation
unfoldable pub record_ip_allocation : String → Metrics → Metrics
record_ip_allocation result m = record m {
  ip_allocations_total =
      λ r. if result == r then m.ip_allocations_total r + 1 else m.ip_allocations_total r;
}

-- RecordIPAllocationAllocated, RecordIPAllocationReused, RecordIPAllocationExhausted and
-- RecordIPAllocationError.
abbrev pub record_ip_allocation_allocated : Metrics → Metrics
record_ip_allocation_allocated = record_ip_allocation "allocated"

abbrev pub record_ip_allocation_reused : Metrics → Metrics
record_ip_allocation_reused = record_ip_allocation "reused"

abbrev pub record_ip_allocation_exhausted : Metrics → Metrics
record_ip_allocation_exhausted = record_ip_allocation "exhausted"

abbrev pub record_ip_allocation_error : Metrics → Metrics
record_ip_allocation_error = record_ip_allocation "error"

-- recordProviderOperation
unfoldable pub record_provider_operation : String → String → Metrics → Metrics
record_provider_operation operation result m = record m {
  provider_operations_total = λ o r.
      if operation == o
      then (if result == r
          then m.provider_operations_total o r + 1
          else m.provider_operations_total o r)
      else m.provider_operations_total o r;
}

-- instrumentedProvider: the provider that it wraps, in the state `next`, the set of references
-- that it tracks, without repetition, and the metrics.
pub record Instrumented (W : Type 0) : Type 0 where
  pub next : W
  pub refs : List ServiceRef
  pub metrics : Metrics

abbrev pub with_managed : ℕ → Metrics → Metrics
with_managed n m = record m { provider_managed_services = n }

abbrev pub tracking : {W : Type 0} → List ServiceRef → Instrumented W → Instrumented W
tracking refs p = record p { refs = refs; metrics = with_managed (length refs) p.metrics }

abbrev pub with_ref : ServiceRef → List ServiceRef → List ServiceRef
with_ref r refs = if contains refs r then refs else r ∷ refs

abbrev pub without_ref : ServiceRef → List ServiceRef → List ServiceRef
without_ref r refs = keep (λ q. not (q == r)) refs

-- instrumentedProvider.trackEnsure
unfoldable pub track_ensure : {W : Type 0} → ServiceRef → Instrumented W → Instrumented W
unfolding contains
track_ensure r p = tracking (with_ref r p.refs) p

-- instrumentedProvider.trackDelete
unfoldable pub track_delete : {W : Type 0} → ServiceRef → Instrumented W → Instrumented W
unfolding keep
track_delete r p = tracking (without_ref r p.refs) p

abbrev pub counted : {W : Type 0} → String → String → Instrumented W → Instrumented W
counted operation result p = record p {
  metrics = record_provider_operation operation result p.metrics;
}

-- What follows the call of the wrapped provider.
abbrev pub recorded :
    {W P : Type 0}
    → String
    → (Instrumented W → Instrumented W)
    → Result P Bool × W
    → Instrumented W
    → Result P Bool × Instrumented W
recorded operation track (err x, w) p = (err x, counted operation "error" (record p { next = w }))
recorded operation track (ok b, w) p =
    (ok b, track (counted operation "success" (record p { next = w })))

module _ {W P : Type 0} (next : ServiceProvider W P) where
  -- instrumentedProvider.Ensure
  unfoldable pub instrumented_ensure : Provider.Service → M (Instrumented W) P Bool
  unfolding track_ensure record_provider_operation
  instrumented_ensure s p =
      recorded "ensure" (track_ensure (Provider.ref s)) (next.ensure s p.next) p

  -- instrumentedProvider.Delete
  unfoldable pub instrumented_delete : ServiceRef → M (Instrumented W) P Bool
  unfolding track_delete record_provider_operation
  instrumented_delete r p = recorded "delete" (track_delete r) (next.delete r p.next) p

  -- WrapProvider, of a provider that is there.
  abbrev pub wrap_provider : ServiceProvider (Instrumented W) P
  wrap_provider = record { ensure = instrumented_ensure; delete = instrumented_delete }
