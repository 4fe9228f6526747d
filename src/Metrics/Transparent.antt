-- ===== src/Metrics/Transparent.antt =====
-- The wrapped provider over any sequence of calls: what it answers, and what the gauge shows.
use k8s_lb_controller.Prelude.{
  ◌≡◌, refl, sym, ap, ◌∙◌, String, Bool, false, not, List, [], ◌∷◌, Result, ok, err, ◌==◌, ◌||◌,
  ◌&&◌, length, contains, keep, arith, Bool-cases, inl, inr, equal-true,
}
use mathlib.Core.Path.{subst, ap₂}
use k8s_lb_controller.Provider.{ServiceRef, ref_eq}
use k8s_lb_controller.Provider as Provider
use k8s_lb_controller.Controller.Reconcile.{ServiceProvider}
use k8s_lb_controller.Metrics.{
  Instrumented, recorded, instrumented_ensure, instrumented_delete, track_ensure, track_delete,
  with_ref, without_ref, counted, record_provider_operation,
}

pub data Call : Type 0 where
  ensures : Provider.Service → Call
  deletes : ServiceRef → Call

-- A set of references, as its membership test.
abbrev pub Refs : Type 0
Refs = ServiceRef → Bool

abbrev pub adding : ServiceRef → Refs → Refs
adding r t q = r == q || t q

abbrev pub removing : ServiceRef → Refs → Refs
removing r t q = not (q == r) && t q

abbrev pub if_ok : {P : Type 0} → Result P Bool → Refs → Refs → Refs
if_ok (ok b) t u = t
if_ok (err x) t u = u

-- No reference twice.
abbrev pub NoRepeats : List ServiceRef → Type 0
NoRepeats [] = Unit
NoRepeats (r ∷ l) = (contains l r ≡ false) × NoRepeats l

contains-with_ref :
    (r : ServiceRef) (l : List ServiceRef) (q : ServiceRef)
    → contains (with_ref r l) q ≡ adding r (contains l) q
unfolding contains
contains-with_ref r l q = elim (Bool-cases (contains l r)) [
  | inr n ↦ rw n
  | inl e ↦ elim (Bool-cases (r == q)) [
    | inr m ↦ rw (e, m)
    | inl s ↦
        let p : contains l r ≡ contains l q = ap (contains l) (equal-true {a = r} {b = q} s) in
        rw (e, s) (sym p ∙ e)
  ]
]

with_ref-NoRepeats : (r : ServiceRef) (l : List ServiceRef) → NoRepeats l → NoRepeats (with_ref r l)
with_ref-NoRepeats r l h = elim (Bool-cases (contains l r)) [ inl e ↦ rw e h | inr n ↦ rw n (n, h) ]

contains-without_ref :
    (r : ServiceRef) (l : List ServiceRef) (q : ServiceRef)
    → contains (without_ref r l) q ≡ removing r (contains l) q
unfolding contains keep
contains-without_ref r [] q = ground arith
contains-without_ref r (s ∷ l) q = ground (
  arith,
  contains-without_ref r l q,
  ref_eq.equal_iff s r,
  ref_eq.equal_iff q r,
  ref_eq.equal_iff s q,
)

without_ref-NoRepeats :
    (r : ServiceRef) (l : List ServiceRef) → NoRepeats l → NoRepeats (without_ref r l)
unfolding keep
without_ref-NoRepeats r [] h = tt
without_ref-NoRepeats r (s ∷ l) h = elim (Bool-cases (s == r)) [
  | inl e ↦ rw e (without_ref-NoRepeats r l h.1)
  | inr n ↦ rw n (
    contains-without_ref r l s ∙ ap (λ b. not (s == r) && b) h.0 ∙ rw n,
    without_ref-NoRepeats r l h.1,
  )
]

-- The wrapper tracks the set: without repetition, and the gauge shows its size.
pub record Tracks {W : Type 0} (p : Instrumented W) (t : Refs) : Type 0 where
  pub members : (r : ServiceRef) → contains p.refs r ≡ t r
  pub distinct : NoRepeats p.refs
  pub gauge : p.metrics.provider_managed_services ≡ length p.refs

track_ensure-Tracks :
    {W : Type 0} (r : ServiceRef) (p : Instrumented W) (t : Refs)
    → Tracks p t
    → Tracks (track_ensure r p) (adding r t)
unfolding track_ensure
track_ensure-Tracks r p t h = record {
  members = λ q. contains-with_ref r p.refs q ∙ ap (λ b. r == q || b) (h.members q);
  distinct = with_ref-NoRepeats r p.refs h.distinct;
  gauge = refl;
}

track_delete-Tracks :
    {W : Type 0} (r : ServiceRef) (p : Instrumented W) (t : Refs)
    → Tracks p t
    → Tracks (track_delete r p) (removing r t)
unfolding track_delete
track_delete-Tracks r p t h = record {
  members = λ q. contains-without_ref r p.refs q ∙ ap (λ b. not (q == r) && b) (h.members q);
  distinct = without_ref-NoRepeats r p.refs h.distinct;
  gauge = refl;
}

counted-Tracks :
    {W : Type 0} (operation result : String) (w : W) (p : Instrumented W) (t : Refs)
    → Tracks p t
    → Tracks (counted operation result (record p { next = w })) t
unfolding record_provider_operation
counted-Tracks operation result w p t h = record {
  members = h.members;
  distinct = h.distinct;
  gauge = h.gauge;
}

module _ {W P : Type 0} (next : ServiceProvider W P) where
  abbrev pub inner : Call → W → Result P Bool × W
  inner (ensures s) w = next.ensure s w
  inner (deletes r) w = next.delete r w

  abbrev pub outer : Call → Instrumented W → Result P Bool × Instrumented W
  outer (ensures s) p = instrumented_ensure next s p
  outer (deletes r) p = instrumented_delete next r p

  -- The answers of a sequence of calls, and the state after them.
  abbrev pub inner_run : List Call → W → List (Result P Bool) × W
  inner_run [] w = ([], w)
  inner_run (c ∷ calls) w =
      ((inner c w).0 ∷ (inner_run calls (inner c w).1).0, (inner_run calls (inner c w).1).1)

  abbrev pub outer_run : List Call → Instrumented W → List (Result P Bool) × Instrumented W
  outer_run [] p = ([], p)
  outer_run (c ∷ calls) p =
      ((outer c p).0 ∷ (outer_run calls (outer c p).1).0, (outer_run calls (outer c p).1).1)

  -- What the wrapped provider has ensured without an error and not deleted since.
  abbrev pub ensured_by : Call → Result P Bool → Refs → Refs
  ensured_by (ensures s) r t = if_ok r (adding (Provider.ref s) t) t
  ensured_by (deletes q) r t = if_ok r (removing q t) t

  abbrev pub held : List Call → W → Refs → Refs
  held [] w t = t
  held (c ∷ calls) w t = held calls (inner c w).1 (ensured_by c (inner c w).0 t)

  recorded-lem :
      (operation : String) (track : Instrumented W → Instrumented W) (a : Result P Bool × W)
      (p : Instrumented W) (t u : Refs)
      → ((q : Instrumented W) → (track q).next ≡ q.next)
      → ((q : Instrumented W) → Tracks q t → Tracks (track q) u)
      → Tracks p t
      → ((recorded operation track a p).0 ≡ a.0)
        × ((recorded operation track a p).1.next ≡ a.1)
        × Tracks (recorded operation track a p).1 (if_ok a.0 u t)
  recorded-lem operation track (err x, w) p t u keeps moves h =
      (refl, refl, counted-Tracks operation "error" w p t h)
  recorded-lem operation track (ok b, w) p t u keeps moves h =
      (refl, keeps _, moves _ (counted-Tracks operation "success" w p t h))

  outer-lem :
      (c : Call) (p : Instrumented W) (t : Refs)
      → Tracks p t
      → ((outer c p).0 ≡ (inner c p.next).0)
        × ((outer c p).1.next ≡ (inner c p.next).1)
        × Tracks (outer c p).1 (ensured_by c (inner c p.next).0 t)
  unfolding instrumented_ensure instrumented_delete
  outer-lem (ensures s) p t h =
      recorded-lem "ensure" (track_ensure (Provider.ref s)) (next.ensure s p.next) p t
        (adding (Provider.ref s) t) (λ q. unfold track_ensure in refl)
        (λ q. track_ensure-Tracks (Provider.ref s) q t) h
  outer-lem (deletes r) p t h =
      recorded-lem "delete" (track_delete r) (next.delete r p.next) p t (removing r t)
        (λ q. unfold track_delete in refl) (λ q. track_delete-Tracks r q t) h

  -- Over any sequence of calls, from a wrapper that tracks a set, the wrapped provider answers
  -- through the wrapper as it does alone and ends in the same state. The wrapper then tracks the
  -- references whose last call without an error was an Ensure, or that were in the set and have had
  -- no such call, and its gauge shows how many they are.
  pub outer_run-lem :
      (calls : List Call) (p : Instrumented W) (t : Refs)
      → Tracks p t
      → ((outer_run calls p).0 ≡ (inner_run calls p.next).0)
        × ((outer_run calls p).1.next ≡ (inner_run calls p.next).1)
        × Tracks (outer_run calls p).1 (held calls p.next t)
  outer_run-lem [] p t h = (refl, refl, h)
  outer_run-lem (c ∷ calls) p t h =
      let (answer, state, tracked) = outer-lem c p t h in
      let (answers, end, all) = outer_run-lem calls (outer c p).1 _ tracked in
      (
        ap₂ (λ a l. a ∷ l) answer (answers ∙ ap (λ w. (inner_run calls w).0) state),
        end ∙ ap (λ w. (inner_run calls w).1) state,
        subst
            (λ w.
              Tracks (outer_run calls (outer c p).1).1
                (held calls w (ensured_by c (inner c p.next).0 t)))
            state all,
      )
