-- ===== src/Dataplane/Http/Answers.antt =====
-- What an answer of the HTTP interface says of the engine.
use k8s_lb_controller.Prelude.{
  ◌≡◌, ◌≢◌, refl, String, Bool, not, ◌&&◌, Option, Result, ok, err, ◌==◌, string_eq, arith,
  Bool-cases, inl, inr,
}
use k8s_lb_controller.Provider.{ServiceRef, Service}
use k8s_lb_controller.Dataplane.Store.{normalize_service}
use k8s_lb_controller.Dataplane.Render.Validate.{InvalidService, validate_service}
use k8s_lb_controller.Dataplane.Host.{IpManager, ConfigApplier}
use k8s_lb_controller.Dataplane.Engine.{Engine, Step, ensure, delete}
use k8s_lb_controller.Dataplane.Http.{
  Method, get, put, delete_method, other, PathError, DecodeError, Response, finish, placed,
  validated, decoded, handle_ensure_service, handle_delete_service, with_ref, handle_services,
  service_ref_from_path,
}

module _ {W E F : Type 0} (ipm : IpManager W E) (applier : ConfigApplier W F)
    (unescape : String → Option String) (decode : String → Result DecodeError Service) where
  -- Only an answer of 200 or 500 comes after a call of the engine.
  abbrev Refused : Engine W → Response × Engine W → Type 0
  Refused e (r, after) = (r.status ≢ 200) → (r.status ≢ 500) → after ≡ e

  finish-Refused :
      (e : Engine W) (s : Step W E F) → Refused e (finish ipm applier unescape decode s)
  finish-Refused e (ok c, after) n m = absurd (n refl)
  finish-Refused e (err x, after) n m = absurd (m refl)

  validated-Refused :
      (r : ServiceRef) (s : Service) (v : Result InvalidService (Unit {0})) (e : Engine W)
      → Refused e (validated ipm applier unescape decode r s v e)
  validated-Refused r s (err x) e n m = refl
  validated-Refused r s (ok _) e n m =
      finish-Refused e (ensure ipm applier (placed ipm applier unescape decode r s) e) n m

  decoded-Refused :
      (r : ServiceRef) (d : Result DecodeError Service) (e : Engine W)
      → Refused e (decoded ipm applier unescape decode r d e)
  decoded-Refused r (err x) e = λ n m. refl
  decoded-Refused r (ok s) e =
      elim (Bool-cases (not (s.namespace == "") && not (s.namespace == r.namespace))) [
        | inl a ↦ rw a (λ n m. refl)
        | inr a ↦ elim (Bool-cases (not (s.name == "") && not (s.name == r.name))) [
          | inl b ↦ rw (a, b) (λ n m. refl)
          | inr b ↦
              rw (a, b)
                (validated-Refused r s
                  (validate_service (normalize_service (placed ipm applier unescape decode r s))) e)
        ]
      ]

  with_ref-Refused :
      (r : Result PathError ServiceRef) (m : Method) (body : String) (e : Engine W)
      → Refused e (with_ref ipm applier unescape decode r m body e)
  unfolding handle_ensure_service handle_delete_service
  with_ref-Refused (err x) m body e n k = refl
  with_ref-Refused (ok r) put body e n k = decoded-Refused r (decode body) e n k
  with_ref-Refused (ok r) delete_method body e n k = finish-Refused e (delete ipm applier r e) n k
  with_ref-Refused (ok r) get body e n k = refl
  with_ref-Refused (ok r) (other s) body e n k = refl

  -- A request that is answered neither 200 nor 500 leaves the engine as it was.
  pub handle_services_refused :
      (m : Method) (path body : String) (e : Engine W)
      → (handle_services ipm applier unescape decode m path body e).0.status ≢ 200
      → (handle_services ipm applier unescape decode m path body e).0.status ≢ 500
      → (handle_services ipm applier unescape decode m path body e).1 ≡ e
  unfolding handle_services
  handle_services_refused m path body e n k =
      with_ref-Refused (service_ref_from_path unescape path) m body e n k

  finish-ok :
      (s : Step W E F)
      → (finish ipm applier unescape decode s).0.status ≡ 200
      → (c : Bool) × (s ≡ (ok c, (finish ipm applier unescape decode s).1))
  finish-ok (ok c, after) h = (c, refl)
  finish-ok (err x, after) h = absurd (ground arith)

  -- The engine has ensured the Service of the body under the reference of the path.
  abbrev Ensured : ServiceRef → Result DecodeError Service → Engine W → Response × Engine W → Type 0
  Ensured r d e (answered, after) =
      (s : Service) × (d ≡ ok s)
      × (c : Bool) × (ensure ipm applier (placed ipm applier unescape decode r s) e ≡ (ok c, after))

  validated-Ensured :
      (r : ServiceRef) (s : Service) (v : Result InvalidService (Unit {0})) (e : Engine W)
      → (validated ipm applier unescape decode r s v e).0.status ≡ 200
      → Ensured r (ok s) e (validated ipm applier unescape decode r s v e)
  validated-Ensured r s (err x) e h = absurd (ground arith)
  validated-Ensured r s (ok _) e h =
      let (c, same) = finish-ok (ensure ipm applier (placed ipm applier unescape decode r s) e) h in
      (s, refl, c, same)

  decoded-Ensured :
      (r : ServiceRef) (d : Result DecodeError Service) (e : Engine W)
      → (decoded ipm applier unescape decode r d e).0.status ≡ 200
      → Ensured r d e (decoded ipm applier unescape decode r d e)
  decoded-Ensured r (err x) e = λ h. absurd (ground arith)
  decoded-Ensured r (ok s) e =
      elim (Bool-cases (not (s.namespace == "") && not (s.namespace == r.namespace))) [
        | inl a ↦ rw a (λ h. absurd (ground arith))
        | inr a ↦ elim (Bool-cases (not (s.name == "") && not (s.name == r.name))) [
          | inl b ↦ rw (a, b) (λ h. absurd (ground arith))
          | inr b ↦
              rw (a, b)
                (validated-Ensured r s
                  (validate_service (normalize_service (placed ipm applier unescape decode r s))) e)
        ]
      ]

  -- A PUT that is answered 200 has made the engine ensure the Service of the body under the
  -- namespace and the name of the path, without an error.
  pub handle_services-put :
      (path body : String) (e : Engine W)
      → (handle_services ipm applier unescape decode put path body e).0.status ≡ 200
      → (r : ServiceRef) × (service_ref_from_path unescape path ≡ ok r)
        × (s : Service) × (decode body ≡ ok s)
        × (c : Bool) × (ensure ipm applier (record s { namespace = r.namespace; name = r.name }) e
            ≡ (ok c, (handle_services ipm applier unescape decode put path body e).1))
  unfolding handle_services handle_ensure_service
  handle_services-put path body e h = at (service_ref_from_path unescape path) refl h
    where
      at :
          (o : Result PathError ServiceRef)
          → service_ref_from_path unescape path ≡ o
          → (with_ref ipm applier unescape decode o put body e).0.status ≡ 200
          → (r : ServiceRef) × (service_ref_from_path unescape path ≡ ok r)
            × (s : Service) × (decode body ≡ ok s)
            × (c : Bool) × (ensure ipm applier
                  (record s { namespace = r.namespace; name = r.name })
                  e
                ≡ (ok c, (with_ref ipm applier unescape decode o put body e).1))
      at (err x) p k = absurd (ground arith)
      at (ok r) p k =
          let (s, d, c, same) = decoded-Ensured r (decode body) e k in (r, p, s, d, c, same)
