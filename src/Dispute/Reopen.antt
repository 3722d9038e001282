-- ===== src/Dispute/Reopen.antt =====
-- What a payout that the escrow refuses leaves behind.
use trustflow_backend.Prelude.{
  ℕ, ◌+◌, String, ◌≡◌, refl, Option, none, some, true, false, arith, eq_iff, or_default, ◌∙◌, sym,
  ap, subst,
}
use trustflow_backend.Prelude.Exec.{Error, ok, err, message, ◌>>=◌, resume}
use trustflow_backend.Prelude.JsMap
use trustflow_backend.Prelude.JsMap.{JsMap}
use trustflow_backend.World.{Env, World, Action}
use trustflow_backend.Data.Escrow.{Escrow, disputed, StatusCorrection}
use trustflow_backend.Data.Dispute.{
  DisputeSaga, DisputeVerdict, depositor_wins, beneficiary_wins, payout, compensating,
}
use trustflow_backend.Escrow.Store.{bump, put, assign}
use trustflow_backend.Escrow.Lifecycle.{correct_status, corrected}
use trustflow_backend.Escrow.Local.{
  find_by_id_local, load_local, persist_result, persist_client, persist_at,
}
use trustflow_backend.Escrow.Machine.{
  Move, to_release, to_cancel, to_split, guard, Holds, run_move_refused,
}
use trustflow_backend.Dispute.Store.{Held, persist_saga, dispatch}
use trustflow_backend.Dispute.Saga.{
  record_step_start, record_step_failed, record_step_compensated, mark_failed,
}
use trustflow_backend.Dispute.Payout.{
  check_payout, execute_payout, pay_out, apply_payout, compensate_payout, revert_payout,
}
use trustflow_backend.Prelude.Total.{Yields}
use trustflow_backend.Dispute.Fields.{Agrees, record_step_start-Agrees, record_step_failed-Agrees}
use trustflow_backend.Dispute.Calm.{
  IsCalm, IsCalm-dispatch, IsCalm-persist_saga, IsCalm-mark_failed, IsCalm-record_step_start,
  IsCalm-record_step_failed, IsCalm-record_step_compensated,
}

-- The correction that the compensation asks for, and the escrow after it.
abbrev flag : StatusCorrection
flag = record { status = some disputed; requires_manual_review = some true; clear_dispute = false }

abbrev pub flagged : Escrow → Escrow
flagged e = record e {
  status = disputed;
  requires_manual_review = some true;
  version = some (or_default e.version 0 + 1);
}

-- The operation of the escrow service that a verdict calls.
abbrev pub move_of : DisputeVerdict → Option ℕ → Move
move_of depositor_wins percentage = to_cancel
move_of beneficiary_wins percentage = to_release
move_of DisputeVerdict.split percentage = to_split (or_default percentage 50)

module _ ⦃E : Env⦄ where
  -- A state with no client in which the map holds `e` under `id`.
  abbrev Has : String → Escrow → World E.Remote → Type 0
  Has id e w = (w.client ≡ false) × (JsMap.get id w.escrows ≡ some e)

  correct_status_local :
      (w : World E.Remote) (id : String) (e : Escrow) (p : StatusCorrection)
      → e.id ≡ id
      → Has id e w
      → let r = correct_status id p w in
        (r.0 ≡ ok (bump (corrected p e))) × Has id (bump (corrected p e)) r.1
  unfolding correct_status assign
  correct_status_local w id e p same h =
      let l = load_local w h.0 id h.1 in
      let e1 = corrected p e in
      let w1 = put e1 w in
      let saved = persist_result w1 e1 none h.0 in
      let off = persist_client w1 e1 none h.0 in
      let at = persist_at w1 e1 none h.0 id in
      (
        ground (arith, l, saved),
        (ground (arith, l, saved, off), ground (arith, l, saved, at, eq_iff e.id id)),
      )

  -- A calm action, and one after it.
  calm_Has :
      {A : Type 0} (m : Action A) (id : String) (e : Escrow) (w : World E.Remote)
      → IsCalm m
      → Has id e w
      → (a : A) × ((m w).0 ≡ ok a) × Has id e (m w).1
  calm_Has m id e w k h =
      let (a, done, off, same) = k.at w h.0 in (a, done, (off, ap (JsMap.get id) same ∙ h.1))

  bind_at :
      {A B : Type 0} (m : Action A) (f : A → Action B) (w : World E.Remote) (a : A)
      → (m w).0 ≡ ok a
      → (m >>= f) w ≡ f a (m w).1
  bind_at m f w a e = ap (λ r. resume r f (m w).1) e

  Yields-Has :
      {A : Type 0} (P : A → Type 0) (m : Action A) (id : String) (e : Escrow) (w : World E.Remote)
      → Yields P m
      → IsCalm m
      → Has id e w
      → (a : A) × ((m w).0 ≡ ok a) × P a × Has id e (m w).1
  Yields-Has P m id e w y k h =
      let (a, done, p) = y.at w in let (b, done', has) = calm_Has m id e w k h in (a, done, p, has)

  revert_ends :
      (s : DisputeSaga) (e : Escrow) (w : World E.Remote)
      → e.id ≡ s.escrow_id
      → Has s.escrow_id e w
      → (t : DisputeSaga) × ((revert_payout s w).0 ≡ ok t)
        × Has s.escrow_id (flagged e) (revert_payout s w).1
  unfolding revert_payout
  revert_ends s e w same h =
      let found = find_by_id_local w h.0 s.escrow_id h.1 in
      let (done, has) = correct_status_local w s.escrow_id e flag same h in
      let w1 = (correct_status s.escrow_id flag w).1 in
      let (t, noted, has2) =
        calm_Has (record_step_compensated (record s { current_step = payout }) payout) s.escrow_id
          (flagged e) w1
          (IsCalm-record_step_compensated (record s { current_step = payout }) payout) has in
      (
        t,
        ground (arith, found, done, noted),
        (ground (arith, found, done, noted, has2.0), ground (arith, found, done, noted, has2.1)),
      )

  compensate_ends :
      (h : Held) (x : Error) (e : Escrow) (w : World E.Remote)
      → e.id ≡ h.saga.escrow_id
      → Has h.saga.escrow_id e w
      → ((compensate_payout h x w).0 ≡ ok tt)
        × Has h.saga.escrow_id (flagged e) (compensate_payout h x w).1
  unfolding compensate_payout
  compensate_ends h x e w same has =
      let id = h.saga.escrow_id in
      let m1 = record_step_failed h.saga payout (message x) in
      let (s1, ok1, agrees, has1) =
        Yields-Has (Agrees h.saga) m1 id e w (record_step_failed-Agrees h.saga payout (message x))
          (IsCalm-record_step_failed h.saga payout (message x)) has in
      let s1' : DisputeSaga = record s1 {
        current_step = compensating;
        compensation_reason = some (message x);
      } in
      let w1 = (m1 w).1 in
      let (s2, ok2, has2) =
        revert_ends s1' e w1 (same ∙ sym agrees.escrow_id)
          (subst (λ i. Has i e w1) (sym agrees.escrow_id) has1) in
      let w2 = (revert_payout s1' w1).1 in
      let has2' = subst (λ i. Has i (flagged e) w2) agrees.escrow_id has2 in
      let (s3, ok3, has3) =
        calm_Has (mark_failed s2 (message x)) id (flagged e) w2 (IsCalm-mark_failed s2 (message x))
          has2' in
      let w3 = (mark_failed s2 (message x) w2).1 in
      let (u4, ok4, has4) =
        calm_Has (persist_saga (record h { saga = s3 })) id (flagged e) w3
          (IsCalm-persist_saga (record h { saga = s3 })) has3 in
      let w4 = (persist_saga (record h { saga = s3 }) w3).1 in
      let (u5, ok5, has5) =
        calm_Has (dispatch "dispute.saga_failed" s3) id (flagged e) w4
          (IsCalm-dispatch "dispute.saga_failed" s3) has4 in
      (
        ground (arith, ok1, ok2, ok3, ok4, ok5),
        (
          ground (arith, ok1, ok2, ok3, ok4, ok5, has5.0),
          ground (arith, ok1, ok2, ok3, ok4, ok5, has5.1),
        ),
      )

  apply_payout_refused :
      (s : DisputeSaga) (v : DisputeVerdict) (percentage : Option ℕ) (e : Escrow)
      (w : World E.Remote) {x : Error}
      → e.id ≡ s.escrow_id
      → Has s.escrow_id e w
      → guard (move_of v percentage) e.status ≡ err x
      → apply_payout s v percentage w ≡ (err x, w)
  unfolding apply_payout
  apply_payout_refused s depositor_wins percentage e w same h g =
      let held : Holds w e = record {
        off = h.0;
        at = subst (λ i. JsMap.get i w.escrows ≡ some e) (sym same) h.1;
      } in
      let refused = run_move_refused (move_of depositor_wins percentage) held g in
      ground (arith, refused, same)
  apply_payout_refused s beneficiary_wins percentage e w same h g =
      let held : Holds w e = record {
        off = h.0;
        at = subst (λ i. JsMap.get i w.escrows ≡ some e) (sym same) h.1;
      } in
      let refused = run_move_refused (move_of beneficiary_wins percentage) held g in
      ground (arith, refused, same)
  apply_payout_refused s DisputeVerdict.split percentage e w same h g =
      let held : Holds w e = record {
        off = h.0;
        at = subst (λ i. JsMap.get i w.escrows ≡ some e) (sym same) h.1;
      } in
      let refused = run_move_refused (move_of DisputeVerdict.split percentage) held g in
      ground (arith, refused, same)

  pay_out_refused :
      (saga_id : String) (percentage : Option ℕ) (h : Held) (v : DisputeVerdict) (e : Escrow)
      (w : World E.Remote) {x : Error}
      → e.id ≡ h.saga.escrow_id
      → Has h.saga.escrow_id e w
      → guard (move_of v percentage) e.status ≡ err x
      → ((pay_out saga_id percentage h v w).0 ≡ err x)
        × Has h.saga.escrow_id (flagged e) (pay_out saga_id percentage h v w).1
  unfolding pay_out
  pay_out_refused saga_id percentage h v e w {x} same has g =
      let id = h.saga.escrow_id in
      let m0 = record_step_start h.saga payout in
      let (s0, ok0, agrees, has0) =
        Yields-Has (Agrees h.saga) m0 id e w (record_step_start-Agrees h.saga payout)
          (IsCalm-record_step_start h.saga payout) has in
      let w0 = (m0 w).1 in
      let has0' = subst (λ i. Has i e w0) (sym agrees.escrow_id) has0 in
      let same' = same ∙ sym agrees.escrow_id in
      let refused = apply_payout_refused s0 v percentage e w0 same' has0' g in
      let (ok1, has1) = compensate_ends (record h { saga = s0 }) x e w0 same' has0' in
      let has1' =
        subst (λ i. Has i (flagged e) (compensate_payout (record h { saga = s0 }) x w0).1)
          agrees.escrow_id has1 in
      (
        ground (arith, ok0, refused, ok1),
        (ground (arith, ok0, refused, ok1, has1'.0), ground (arith, ok0, refused, ok1, has1'.1)),
      )

  -- With no Redis client, if the checks of a payout pass but the escrow refuses the operation of the
  -- verdict, as a released or cancelled escrow does, then `executePayout` throws the escrow's error,
  -- and its compensation puts the escrow back to `disputed`, flagged for review, with the next version.
  pub execute_payout_reopens :
      (saga_id : String) (percentage : Option ℕ) (w : World E.Remote) (e : Escrow) {h : Held}
      {v : DisputeVerdict} {x : Error}
      → check_payout saga_id w ≡ (ok (h, v), w)
      → w.client ≡ false
      → JsMap.get h.saga.escrow_id w.escrows ≡ some e
      → e.id ≡ h.saga.escrow_id
      → guard (move_of v percentage) e.status ≡ err x
      → ((execute_payout saga_id percentage w).0 ≡ err x)
        × (JsMap.get e.id (execute_payout saga_id percentage w).1.escrows ≡ some (flagged e))
        × ((flagged e).status ≡ disputed)
  unfolding execute_payout
  execute_payout_reopens saga_id percentage w e {h} {v} checked off at same g =
      let (refused, has) = pay_out_refused saga_id percentage h v e w same (off, at) g in
      (ground (arith, checked, refused), ground (arith, checked, has.1, same), refl)
