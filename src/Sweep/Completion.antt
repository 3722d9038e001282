-- ===== src/Sweep/Completion.antt =====
-- However its runners interleave, a sweep keeps within its limit, and ends with a result for each item.
use trustflow_backend.Prelude.{
  ℕ, zero, suc, ◌+◌, ◌-◌, ◌*◌, ◌≤◌, ◌<◌, ◌≡◌, refl, ◌⊎◌, inl, inr, true, false, some, List, [], ◌∷◌,
  length, min, arith, Bool-cases, ◌==◌, leb, subst, ap,
}
use trustflow_backend.Sweep.Runners.{
  Settled, Sweep, Step, go_round, settles, start, step, run_steps, settle, retire, launch,
  take_next, contains, without, limit_of,
}

length-without :
    (i : ℕ) (js : List ℕ) → contains i js ≡ true → suc (length (without i js)) ≡ length js
length-without i [] h = cc
length-without i (j ∷ js) h = elim (Bool-cases (i == j)) [
  | inl same ↦ ground (arith, same)
  | inr apart ↦ ground (arith, apart, h, length-without i js)
]

contains-without :
    (i k : ℕ) (js : List ℕ)
    → contains k js ≡ true
    → (k == i) ≡ false
    → contains k (without i js) ≡ true
contains-without i k [] h apart = cc
contains-without i k (j ∷ js) h apart = elim (Bool-cases (i == j)) [
  | inl same ↦ ground (arith, same, h, apart)
  | inr other ↦ ground (arith, other, h, apart, contains-without i k js)
]

module _ {A : Type 0} (items : ℕ) (outcomes : ℕ → Settled A) (limit : ℕ) where
  -- What holds between the steps.
  pub record IsSound (s : Sweep A) : Type 0 where
    pub within : s.idle + length s.in_flight ≤ min limit items
    pub all_run : (s.idle + length s.in_flight ≡ min limit items) ⊎ (items ≤ s.cursor)
    pub placed :
        (i : ℕ)
        → i < items
        → i < s.cursor
        → (contains i s.in_flight ≡ true) ⊎ (s.results i ≡ some (outcomes i))

  settle-IsSound :
      (i : ℕ) (s : Sweep A)
      → contains i s.in_flight ≡ true
      → IsSound s
      → IsSound (settle outcomes i s)
  settle-IsSound i s flying h =
      let fewer = length-without i s.in_flight flying in
      record {
        within = omega (arith, h.within, fewer);
        all_run = elim h.all_run [
          | inl all ↦ inl (omega (arith, all, fewer))
          | inr beyond ↦ inr beyond
        ];
        placed = λ k below taken. elim (Bool-cases (k == i)) [
          | inl same ↦ inr (ground (arith, same))
          | inr apart ↦ elim (h.placed k below taken) [
            | inl held ↦ inl (contains-without i k s.in_flight held apart)
            | inr there ↦ inr (ground (arith, apart, there))
          ]
        ];
      }

  retire-IsSound : (s : Sweep A) → items ≤ s.cursor → IsSound s → IsSound (retire s)
  retire-IsSound s beyond h = record {
    within = omega (arith, h.within);
    all_run = inr (omega (arith, beyond));
    placed = λ k below taken. h.placed k below (omega (arith, beyond, below));
  }

  launch-IsSound : (s : Sweep A) → 1 ≤ s.idle → IsSound s → IsSound (launch s)
  launch-IsSound s some_idle h = record {
    within = omega (arith, h.within, some_idle);
    all_run = elim h.all_run [
      | inl all ↦ inl (omega (arith, all, some_idle))
      | inr beyond ↦ inr (omega (arith, beyond))
    ];
    placed = λ k below taken. elim (Bool-cases (k == s.cursor)) [
      | inl now ↦ inl (ground (arith, now))
      | inr before ↦ elim (h.placed k below (ground (arith, taken, before))) [
        | inl held ↦ inl (ground (arith, before, held))
        | inr there ↦ inr there
      ]
    ];
  }

  take_next-IsSound :
      (s : Sweep A) → (s.idle == 0) ≡ false → IsSound s → IsSound (take_next items s)
  take_next-IsSound s some_idle h = elim (Bool-cases (leb items s.cursor)) [
    | inl beyond ↦
        subst IsSound (ground (arith, beyond)) (retire-IsSound s (ground (arith, beyond)) h)
    | inr inside ↦
        subst IsSound (ground (arith, inside)) (launch-IsSound s (ground (arith, some_idle)) h)
  ]

  step-IsSound : (e : Step) (s : Sweep A) → IsSound s → IsSound (step items outcomes e s)
  unfolding step
  step-IsSound go_round s h = elim (Bool-cases (s.idle == 0)) [
    | inl spent ↦ subst IsSound (ground (arith, spent)) h
    | inr some_idle ↦ subst IsSound (ground (arith, some_idle)) (take_next-IsSound s some_idle h)
  ]
  step-IsSound (settles i) s h = elim (Bool-cases (contains i s.in_flight)) [
    | inl flying ↦ subst IsSound (ground (arith, flying)) (settle-IsSound i s flying h)
    | inr landed ↦ subst IsSound (ground (arith, landed)) h
  ]

  run_steps-IsSound :
      (es : List Step) (s : Sweep A) → IsSound s → IsSound (run_steps items outcomes es s)
  unfolding run_steps
  run_steps-IsSound [] s h = h
  run_steps-IsSound (e ∷ es) s h =
      run_steps-IsSound es (step items outcomes e s) (step-IsSound e s h)

module _ {A : Type 0} (items : ℕ) (outcomes : ℕ → Settled A) (concurrency : ℕ) where
  start-IsSound : IsSound items outcomes (limit_of concurrency) (start concurrency items)
  unfolding start
  start-IsSound = record {
    within = omega arith;
    all_run = inl (omega arith);
    placed = λ k below taken. ground (arith, taken);
  }

  abbrev pub reached : List Step → Sweep A
  reached es = run_steps items outcomes es (start concurrency items)

  reached-IsSound : (es : List Step) → IsSound items outcomes (limit_of concurrency) (reached es)
  reached-IsSound es =
      run_steps-IsSound items outcomes (limit_of concurrency) es (start concurrency items)
        start-IsSound

  -- However the runners of a sweep interleave, at most as many items are in flight as the concurrency allows.
  pub reached_within : (es : List Step) → length (reached es).in_flight ≤ limit_of concurrency
  reached_within es = let sound = reached-IsSound es in omega (arith, sound.within)

  -- However the runners of a sweep interleave, once all have returned there is for each item what its worker
  -- settled to.
  pub reached_complete :
      (es : List Step) (i : ℕ)
      → (reached es).idle ≡ 0
      → (reached es).in_flight ≡ []
      → i < items
      → (reached es).results i ≡ some (outcomes i)
  reached_complete es i none_idle none_flying below =
      let sound = reached-IsSound es in
      let none_left = ap length none_flying in
      let beyond : items ≤ (reached es).cursor = elim sound.all_run [
        | inl all ↦ omega (arith, all, none_idle, none_left, below)
        | inr beyond ↦ beyond
      ] in
      elim (sound.placed i below (omega (arith, below, beyond))) [
        | inl held ↦ absurd held none_flying
        | inr there ↦ there
      ]
    where
      absurd :
          contains i (reached es).in_flight ≡ true
          → (reached es).in_flight ≡ []
          → (reached es).results i ≡ some (outcomes i)
      absurd held empty = cc (held, ap (contains i) empty)

-- How far a sweep is from its end.
abbrev pub remaining : {A : Type 0} → ℕ → Sweep A → ℕ
remaining items s = 3 * (items - s.cursor) + s.idle + 2 * length s.in_flight

module _ {A : Type 0} (items : ℕ) (outcomes : ℕ → Settled A) where
  step_decreases :
      (e : Step) (s : Sweep A)
      → (step items outcomes e s ≡ s)
        ⊎ (remaining items (step items outcomes e s) < remaining items s)
  unfolding step
  step_decreases go_round s = elim (Bool-cases (s.idle == 0)) [
    | inl spent ↦ inl (ground (arith, spent))
    | inr some_idle ↦ elim (Bool-cases (leb items s.cursor)) [
      | inl beyond ↦ inr (ground (arith, some_idle, beyond))
      | inr inside ↦ inr (ground (arith, some_idle, inside))
    ]
  ]
  step_decreases (settles i) s = elim (Bool-cases (contains i s.in_flight)) [
    | inl flying ↦ inr (ground (arith, flying, length-without i s.in_flight flying))
    | inr landed ↦ inl (ground (arith, landed))
  ]

  some_step :
      (s : Sweep A) (idle : ℕ) (flying : List ℕ)
      → s.idle ≡ idle
      → s.in_flight ≡ flying
      → ((s.idle ≡ 0) × (s.in_flight ≡ []))
        ⊎ ((e : Step) × (remaining items (step items outcomes e s) < remaining items s))
  unfolding step
  some_step s zero [] none_idle none_flying = inl (none_idle, none_flying)
  some_step s zero (j ∷ js) none_idle flying =
      let held : contains j s.in_flight ≡ true = ground (arith, ap (contains j) flying) in
      inr (settles j, ground (arith, held, length-without j s.in_flight held))
  some_step s (suc k) flying idle same = elim (Bool-cases (leb items s.cursor)) [
    | inl beyond ↦ inr (go_round, ground (arith, idle, beyond))
    | inr inside ↦ inr (go_round, ground (arith, idle, inside))
  ]

  -- A step of a runner changes nothing, when no runner can make it, or brings the sweep nearer to its end;
  -- and while not all runners have returned, there is one that does.
  pub steps_end :
      (s : Sweep A)
      → ((e : Step)
          → (step items outcomes e s ≡ s)
            ⊎ (remaining items (step items outcomes e s) < remaining items s))
        × (((s.idle ≡ 0) × (s.in_flight ≡ []))
            ⊎ ((e : Step) × (remaining items (step items outcomes e s) < remaining items s)))
  steps_end s = (λ e. step_decreases e s, some_step s s.idle s.in_flight refl refl)
