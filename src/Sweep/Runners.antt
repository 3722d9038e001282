-- ===== src/Sweep/Runners.antt =====
-- `mapWithConcurrency`: runners that share a cursor, as the steps between their awaits.
use trustflow_backend.Prelude.{
  ℕ, suc, ◌+◌, ◌-◌, Bool, true, false, Option, none, some, List, [], ◌∷◌, min, max, ◌==◌, leb, ◌||◌,
  if◌then◌else◌,
}
use trustflow_backend.Prelude.Exec.{Error}

-- PromiseSettledResult
pub data Settled (A : Type 0) : Type 0 where
  fulfilled : A → Settled A
  rejected : Error → Settled A

-- `idle` runners stand before the head of their loop; those in flight await the item of an index.
pub record Sweep (A : Type 0) : Type 0 where
  pub cursor : ℕ
  pub results : ℕ → Option (Settled A)
  pub in_flight : List ℕ
  pub idle : ℕ

abbrev pub limit_of : ℕ → ℕ
limit_of concurrency = max 1 (if concurrency == 0 then 1 else concurrency)

abbrev pub contains : ℕ → List ℕ → Bool
contains i [] = false
contains i (j ∷ js) = i == j || contains i js

abbrev pub without : ℕ → List ℕ → List ℕ
without i [] = []
without i (j ∷ js) = let rest = without i js in if i == j then js else j ∷ rest

-- One step of some runner: it goes round its loop, or the worker of its item settles.
pub data Step : Type 0 where
  go_round : Step
  settles : ℕ → Step

module _ {A : Type 0} where
  unfoldable pub start : ℕ → ℕ → Sweep A
  start concurrency items = record {
    cursor = 0;
    results = λ i. none;
    in_flight = [];
    idle = min (limit_of concurrency) items;
  }

  abbrev pub put : ℕ → Settled A → (ℕ → Option (Settled A)) → ℕ → Option (Settled A)
  put i result results j = if j == i then some result else results j

  -- A runner that finds no item returns; another calls the worker on its item.
  abbrev pub retire : Sweep A → Sweep A
  retire s = record s { cursor = s.cursor + 1; idle = s.idle - 1 }

  abbrev pub launch : Sweep A → Sweep A
  launch s = record s {
    cursor = s.cursor + 1;
    idle = s.idle - 1;
    in_flight = s.cursor ∷ s.in_flight;
  }

  abbrev pub take_next : ℕ → Sweep A → Sweep A
  take_next items s = if leb items s.cursor then retire s else launch s

  abbrev pub settle : (ℕ → Settled A) → ℕ → Sweep A → Sweep A
  settle outcomes i s = record s {
    results = put i (outcomes i) s.results;
    in_flight = without i s.in_flight;
    idle = s.idle + 1;
  }

  -- `outcomes` is what worker(items[i], i) settles to. A step that no runner can make changes nothing.
  unfoldable pub step : ℕ → (ℕ → Settled A) → Step → Sweep A → Sweep A
  step items outcomes go_round s = if s.idle == 0 then s else take_next items s
  step items outcomes (settles i) s = if contains i s.in_flight then settle outcomes i s else s

  unfoldable pub run_steps : ℕ → (ℕ → Settled A) → List Step → Sweep A → Sweep A
  run_steps items outcomes [] s = s
  run_steps items outcomes (e ∷ es) s = run_steps items outcomes es (step items outcomes e s)

  abbrev pub is_rejected : Settled A → Bool
  is_rejected (fulfilled a) = false
  is_rejected (rejected e) = true

  abbrev pub count_rejected : List (Settled A) → ℕ
  count_rejected [] = 0
  count_rejected (r ∷ rs) = let rest = count_rejected rs in if is_rejected r then suc rest else rest
