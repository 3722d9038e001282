-- ===== src/Breaker/Service.antt =====
-- `CircuitBreakerService`: one breaker for each name. The breakers of opossum are a parameter.
use trustflow_backend.Prelude.{ℕ, String, Option, none, some, Bool, map, if◌then◌else◌, or_default}
use trustflow_backend.Prelude.Exec.{Error, Result, Exec}
use trustflow_backend.Prelude.JsMap
use trustflow_backend.Prelude.JsMap.{JsMap}

pub record CircuitBreakerOptions (W A : Type 0) : Type 0 where
  pub timeout : Option ℕ
  pub error_threshold_percentage : Option ℕ
  pub reset_timeout : Option ℕ
  pub rolling_count_timeout : Option ℕ
  pub rolling_count_buckets : Option ℕ
  pub fallback : Option (Error → Exec W A)

-- The options of opossum.
pub record Settings : Type 0 where
  pub timeout : ℕ
  pub error_threshold_percentage : ℕ
  pub reset_timeout : ℕ
  pub rolling_count_timeout : ℕ
  pub rolling_count_buckets : ℕ
  pub name : String

-- A breaker of opossum: its circuit, as it is when new and after `fire` of a function.
pub record Opossum (W A : Type 0) : Type 1 where
  pub Circuit : Type 0
  pub Stats : Type 0
  pub closed : Settings → Circuit
  pub fire :
      Settings → Option (Error → Exec W A) → Exec W A → Circuit → W → (Result A × W) × Circuit
  pub opened : Circuit → Bool
  pub half_open : Circuit → Bool
  pub stats : Circuit → Stats

pub record Breaker (W A C : Type 0) : Type 0 where
  pub settings : Settings
  pub fallback : Option (Error → Exec W A)
  pub fn : Exec W A
  pub circuit : C

pub record Breakers (W A C : Type 0) : Type 0 where
  pub world : W
  pub breakers : JsMap (Breaker W A C)

pub data CircuitState : Type 0 where
  is_open is_half_open is_closed : CircuitState

abbrev pub settings_of : {W A : Type 0} → String → CircuitBreakerOptions W A → Settings
settings_of name options = record {
  timeout = or_default options.timeout 30000;
  error_threshold_percentage = or_default options.error_threshold_percentage 50;
  reset_timeout = or_default options.reset_timeout 30000;
  rolling_count_timeout = or_default options.rolling_count_timeout 10000;
  rolling_count_buckets = or_default options.rolling_count_buckets 10;
  name = name;
}

module _ {W A : Type 0} ⦃O : Opossum W A⦄ where
  abbrev pub new_breaker : String → Exec W A → CircuitBreakerOptions W A → Breaker W A O.Circuit
  new_breaker name fn options = record {
    settings = settings_of name options;
    fallback = options.fallback;
    fn = fn;
    circuit = O.closed (settings_of name options);
  }

  -- The breaker of a name: the one that is there, or a new one.
  abbrev pub get_breaker :
      String → Exec W A → CircuitBreakerOptions W A → Breakers W A O.Circuit → Breaker W A O.Circuit
  get_breaker name fn options s =
      or_default (JsMap.get name s.breakers) (new_breaker name fn options)

  -- breaker.fire(), which moves the circuit of the breaker in the map
  abbrev pub fire :
      String → Breaker W A O.Circuit → Breakers W A O.Circuit → Result A × Breakers W A O.Circuit
  fire name breaker s =
      let fired = O.fire breaker.settings breaker.fallback breaker.fn breaker.circuit s.world in
      (
        fired.0.0,
        record {
          world = fired.0.1;
          breakers = JsMap.set name (record breaker { circuit = fired.1 }) s.breakers;
        },
      )

  unfoldable pub execute :
      String
      → Exec W A
      → CircuitBreakerOptions W A
      → Breakers W A O.Circuit
      → Result A × Breakers W A O.Circuit
  execute name fn options s = fire name (get_breaker name fn options s) s

  abbrev pub status_of : Breaker W A O.Circuit → CircuitState × O.Stats
  status_of breaker = (
    if O.opened breaker.circuit
        then is_open
        else if O.half_open breaker.circuit
        then is_half_open
        else is_closed,
    O.stats breaker.circuit,
  )

  abbrev pub get_status : String → Breakers W A O.Circuit → Option (CircuitState × O.Stats)
  get_status name s = elim (JsMap.get name s.breakers) [
    | none ↦ none
    | some breaker ↦ some (status_of breaker)
  ]

  abbrev pub get_all_status : Breakers W A O.Circuit → JsMap (CircuitState × O.Stats)
  get_all_status s = map (λ e. (e.0, status_of e.1)) s.breakers
