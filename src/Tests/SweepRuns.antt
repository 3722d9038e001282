-- ===== src/Tests/SweepRuns.antt =====
-- The theorems on sweeps at two runners over three items.
use trustflow_backend.Prelude.{
  ℕ, zero, suc, ◌<◌, ◌≡◌, ◌⊎◌, refl, String, some, List, [], ◌∷◌, arith,
}
use trustflow_backend.Prelude.Exec.{plain}
use trustflow_backend.Sweep.Runners.{
  Settled, fulfilled, rejected, Sweep, Step, go_round, settles, start, step, run_steps,
}
use trustflow_backend.Sweep.Completion.{reached, reached_complete, remaining, steps_end}

-- The second item fails.
abbrev outcomes : ℕ → Settled String
outcomes zero = fulfilled "a"
outcomes (suc zero) = rejected (plain "boom")
outcomes (suc (suc i)) = fulfilled "c"

-- The second item settles first, and its runner takes the third one.
abbrev crossing : List Step
crossing =
    go_round ∷ go_round ∷ settles 1 ∷ go_round ∷ settles 0 ∷ settles 2 ∷ go_round ∷ go_round ∷ []

reached_complete_example :
    (reached 3 outcomes 2 crossing).results 1 ≡ some (rejected (plain "boom"))
unfolding start step run_steps
reached_complete_example = reached_complete 3 outcomes 2 crossing 1 refl refl (omega arith)

abbrev halfway : Sweep String
halfway = reached 3 outcomes 2 (go_round ∷ go_round ∷ settles 1 ∷ [])

steps_end_example :
    ((e : Step)
      → (step 3 outcomes e halfway ≡ halfway)
        ⊎ (remaining 3 (step 3 outcomes e halfway) < remaining 3 halfway))
    × (((halfway.idle ≡ 0) × (halfway.in_flight ≡ []))
        ⊎ ((e : Step) × (remaining 3 (step 3 outcomes e halfway) < remaining 3 halfway)))
steps_end_example = steps_end 3 outcomes halfway
