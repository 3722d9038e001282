-- ===== src/Breaker/Stale.antt =====
-- A breaker keeps the function that it was made with.
use trustflow_backend.Prelude.{
  ◌≡◌, String, none, some, List, [], ◌∷◌, arith, eq_iff, str_eq, Bool-cases, inl, inr,
}
use trustflow_backend.Prelude.Exec.{Exec, Result}
use trustflow_backend.Prelude.JsMap
use trustflow_backend.Prelude.JsMap.{get-set, get-set_self}
use trustflow_backend.Breaker.Service.{
  CircuitBreakerOptions, Opossum, Breaker, Breakers, execute, new_breaker, get_breaker, settings_of,
}

-- A call of execute.
pub record Job (W A : Type 0) : Type 0 where
  pub name : String
  pub fn : Exec W A
  pub options : CircuitBreakerOptions W A

module _ {W A : Type 0} ⦃O : Opossum W A⦄ where
  abbrev pub serve : Job W A → Breakers W A O.Circuit → Result A × Breakers W A O.Circuit
  serve job = execute job.name job.fn job.options

  unfoldable pub serve_all : List (Job W A) → Breakers W A O.Circuit → Breakers W A O.Circuit
  serve_all [] s = s
  serve_all (job ∷ jobs) s = serve_all jobs (serve job s).1

  -- The breaker that the job makes, once its circuit is `circuit`.
  abbrev made_by : Job W A → O.Circuit → Breaker W A O.Circuit
  made_by job circuit = record (new_breaker job.name job.fn job.options) { circuit = circuit }

  -- The circuit of a breaker after a call.
  abbrev fired : Breaker W A O.Circuit → W → O.Circuit
  fired b w = (O.fire b.settings b.fallback b.fn b.circuit w).1

  -- The breaker of the job's name is the one that the job makes.
  record IsMade (job : Job W A) (s : Breakers W A O.Circuit) : Type 0 where
    circuit : O.Circuit
    at : JsMap.get job.name s.breakers ≡ some (made_by job circuit)

  serve_new-IsMade :
      (job : Job W A) (s : Breakers W A O.Circuit)
      → JsMap.get job.name s.breakers ≡ none
      → IsMade job (serve job s).1
  unfolding execute
  serve_new-IsMade job s fresh =
      let c = fired (new_breaker job.name job.fn job.options) s.world in
      record {
        circuit = c;
        at = ground (arith, fresh, get-set_self job.name (made_by job c) s.breakers);
      }

  serve-IsMade :
      (job other : Job W A) (s : Breakers W A O.Circuit)
      → IsMade job s
      → IsMade job (serve other s).1
  unfolding execute
  serve-IsMade job other s made = elim (Bool-cases (str_eq other.name job.name)) [
    | inl equal ↦
        let c = fired (made_by job made.circuit) s.world in
        record {
          circuit = c;
          at = ground (
            arith,
            equal,
            made.at,
            get-set other.name job.name (made_by job c) s.breakers,
            eq_iff other.name job.name,
          );
        }
    | inr apart ↦
        let b = get_breaker other.name other.fn other.options s in
        record {
          circuit = made.circuit;
          at = ground (
            arith,
            apart,
            made.at,
            get-set other.name job.name (record b { circuit = fired b s.world }) s.breakers,
          );
        }
  ]

  serve_all-IsMade :
      (job : Job W A) (jobs : List (Job W A)) (s : Breakers W A O.Circuit)
      → IsMade job s
      → IsMade job (serve_all jobs s)
  unfolding serve_all
  serve_all-IsMade job [] s made = made
  serve_all-IsMade job (other ∷ jobs) s made =
      serve_all-IsMade job jobs (serve other s).1 (serve-IsMade job other s made)

  -- When a name is new, its first call decides what is run under it: whatever calls follow, with whatever
  -- names, a later call under the name fires a circuit with the function, the settings and the fallback of
  -- the first one, and not with its own.
  pub execute_first :
      (job : Job W A) (jobs : List (Job W A)) (s : Breakers W A O.Circuit) (fn : Exec W A)
      (options : CircuitBreakerOptions W A)
      → JsMap.get job.name s.breakers ≡ none
      → let later = serve_all jobs (serve job s).1 in
        let (result, after) = execute job.name fn options later in
        (circuit : O.Circuit) × ((result, after.world)
          ≡ (O.fire
              (settings_of job.name job.options)
              job.options.fallback
              job.fn
              circuit
              later.world).0)
  unfolding execute
  execute_first job jobs s fn options fresh =
      let made = serve_all-IsMade job jobs (serve job s).1 (serve_new-IsMade job s fresh) in
      (made.circuit, ground (arith, made.at))
