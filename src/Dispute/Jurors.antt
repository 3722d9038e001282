-- ===== src/Dispute/Jurors.antt =====
-- The panel that `assignJurors` puts on a saga.
use trustflow_backend.Prelude.{
  ◌≤◌, ◌%◌, String, ◌≡◌, some, true, List, [], length, ltb, ◌==◌, arith, sym, ap, ◌∙◌,
}
use trustflow_backend.Prelude.JsSet.{IsDistinct, from_list-IsDistinct}
use trustflow_backend.Prelude.Exec.{
  pure, ok, ◌>>=◌, ◌>>◌, >>=-eq-ok, try_catch, throw, throw_if-passes, given-passes,
}
use trustflow_backend.Prelude.Total.{
  IsTotal-bind, Yields, Yields-pure, Yields-bind, Yields-then, IsTotal-tried, resume-Yields,
  Yields-weaken,
}
use trustflow_backend.World.{Env, World, Action}
use trustflow_backend.Data.Dispute.{DisputeSaga, DisputeStep, juror_assignment, voting}
use trustflow_backend.Dispute.Saga.{
  touch, record_step_start, record_step_complete, assert_step, same_step,
}
use trustflow_backend.Escrow.Store.{find_by_id as find_escrow}
use trustflow_backend.Dispute.Store.{Held, dispatch, persist_saga, find_by_id}
use trustflow_backend.Dispute.Voting.{
  unique, check_assignment, assign_jurors, seat_jurors, compensate_juror_assignment, has_party,
}
use trustflow_backend.Dispute.Total.{IsTotal-dispatch, IsTotal-persist_saga}
use trustflow_backend.Dispute.Fields.{
  Agrees, touch-Agrees, record_step_start-Agrees, record_step_complete-Agrees,
}

pub assert_step-passes :
    (saga : DisputeSaga) (step : DisputeStep) {u : Unit {0}}
    → assert_step saga step ≡ ok u
    → same_step saga.current_step step ≡ true
unfolding assert_step
assert_step-passes saga step h = ground arith

-- A panel of at least three distinct jurors, odd in number.
pub record IsPanel (jurors : List String) : Type 0 where
  pub enough : 3 ≤ length jurors
  pub odd : length jurors % 2 ≡ 1
  pub distinct : IsDistinct jurors

module _ ⦃E : Env⦄ where
  pub record IsSeated (s : DisputeSaga) (asked : List String) (t : DisputeSaga) : Type 0 where
    pub before : same_step s.current_step juror_assignment ≡ true
    pub after : t.current_step ≡ voting
    pub jurors : t.assigned_jurors ≡ some (unique asked)
    pub panel : IsPanel (unique asked)
    pub votes : t.votes ≡ s.votes
    pub verdict : t.verdict ≡ s.verdict

  check_assignment_sound :
      (saga_id : String) (asked : List String) (w : World E.Remote) (h : Held) (us : List String)
      → (check_assignment saga_id asked w).0 ≡ ok (h, us)
      → (us ≡ unique asked)
        × IsPanel (unique asked)
        × (same_step h.saga.current_step juror_assignment ≡ true)
  unfolding check_assignment IsDistinct
  check_assignment_sound saga_id asked w h us ok_h =
      let (h', found, k) = >>=-eq-ok (find_by_id saga_id) _ w ok_h in
      let w1 = (find_by_id saga_id w).1 in
      let (step, k1) = given-passes (assert_step h'.saga juror_assignment) _ w1 k in
      let (many, k2) = throw_if-passes (ltb (length (unique asked)) 3) _ _ w1 k1 in
      let (odd, k3) = throw_if-passes (length (unique asked) % 2 == 0) _ _ w1 k2 in
      let (e, there, k4) = >>=-eq-ok (find_escrow h'.saga.escrow_id) _ w1 k3 in
      let (apart, k5) =
        throw_if-passes (has_party e (unique asked)) _ _ (find_escrow h'.saga.escrow_id w1).1 k4 in
      let same : h' ≡ h = cc in
      (
        cc,
        record {
          enough = ground arith;
          odd = ground arith;
          distinct = from_list-IsDistinct asked [] tt;
        },
        rw (sym same) (assert_step-passes h'.saga juror_assignment step),
      )

  seat_jurors-Yields :
      (h : Held) (us : List String)
      → Yields
          (λ t.
            (t.current_step ≡ voting)
            × (t.assigned_jurors ≡ some us)
            × (t.votes ≡ h.saga.votes)
            × (t.verdict ≡ h.saga.verdict))
          (seat_jurors h us)
  unfolding seat_jurors
  seat_jurors-Yields h us =
      let Seated : DisputeSaga → Type 0 = λ t.
        (t.current_step ≡ voting)
        × (t.assigned_jurors ≡ some us)
        × (t.votes ≡ h.saga.votes)
        × (t.verdict ≡ h.saga.verdict) in
      let announce : DisputeSaga → Action (Unit {0}) =
        λ s. (do persist_saga (record h { saga = s }); dispatch "dispute.jurors_assigned" s) in
      let tried : DisputeSaga → Action (Unit {0}) = λ s.
        try_catch (announce s)
          (λ e. do compensate_juror_assignment (record h { saga = s }) e; throw e) in
      let last : DisputeSaga → Action DisputeSaga = λ s. (do tried s; pure s) in
      let seated : DisputeSaga → DisputeSaga = λ s0. record s0 { assigned_jurors = some us } in
      let move : DisputeSaga → Action DisputeSaga =
        λ s1. (do s2 ← touch (record s1 { current_step = voting }); last s2) in
      Yields-bind (Agrees h.saga) Seated (record_step_start h.saga juror_assignment)
        (λ s0. do s1 ← record_step_complete (seated s0) juror_assignment; move s1)
        (record_step_start-Agrees h.saga juror_assignment)
        λ s0 a0.
          Yields-bind (Agrees (seated s0)) Seated
            (record_step_complete (seated s0) juror_assignment) move
            (record_step_complete-Agrees (seated s0) juror_assignment)
            λ s1 a1.
              Yields-bind (Agrees (record s1 { current_step = voting })) Seated
                (touch (record s1 { current_step = voting })) last
                (touch-Agrees (record s1 { current_step = voting }))
                λ s2 a2.
                  Yields-then Seated (tried s2) (λ _. pure s2)
                    (IsTotal-tried (announce s2)
                      (λ e. do compensate_juror_assignment (record h { saga = s2 }) e; throw e)
                      (IsTotal-bind (persist_saga (record h { saga = s2 }))
                        (λ _. dispatch "dispute.jurors_assigned" s2)
                        (IsTotal-persist_saga (record h { saga = s2 }))
                        λ _. IsTotal-dispatch "dispute.jurors_assigned" s2))
                    λ _. Yields-pure Seated s2 (
                      a2.current_step,
                      a2.assigned_jurors ∙ a1.assigned_jurors,
                      a2.votes ∙ a1.votes ∙ a0.votes,
                      a2.verdict ∙ a1.verdict ∙ a0.verdict,
                    )

  -- Once its checks pass, `assignJurors` returns the saga at the voting step, whatever Redis does. The
  -- panel is the distinct jurors asked for: at least three, odd in number. The saga was at the
  -- assignment of jurors, and its votes and its verdict are as they were.
  pub assign_jurors-IsSeated :
      (saga_id : String) (asked : List String) (w : World E.Remote) {h : Held} {us : List String}
      → (check_assignment saga_id asked w).0 ≡ ok (h, us)
      → (t : DisputeSaga) × ((assign_jurors saga_id asked w).0 ≡ ok t) × IsSeated h.saga asked t
  unfolding assign_jurors
  assign_jurors-IsSeated saga_id asked w {h} {us} checked =
      let (same, panel, step) = check_assignment_sound saga_id asked w h us checked in
      resume-Yields (IsSeated h.saga asked) (check_assignment saga_id asked w).0
        (λ c. seat_jurors c.0 c.1) (check_assignment saga_id asked w).1 (h, us) checked
        (Yields-weaken (seat_jurors h us)
          (λ t s. record {
            before = step;
            after = s.0;
            jurors = s.1 ∙ ap some same;
            panel = panel;
            votes = s.2;
            verdict = s.3;
          })
          (seat_jurors-Yields h us))
