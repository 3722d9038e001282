-- ===== src/Escrow/Machine.antt =====
-- The guarded transitions of `EscrowService` as one state machine.
use trustflow_backend.Prelude.{
  ℕ, suc, ◌+◌, or_default, String, ◌≡◌, ◌≢◌, refl, Option, some, false, arith, if◌then◌else◌,
  str_eq,
}
use trustflow_backend.Prelude.Exec.{Error, Result, ok, err}
use trustflow_backend.Prelude.JsMap
use trustflow_backend.Prelude.JsMap.{JsMap, get-set}
use trustflow_backend.World.{Env, World, Action}
use trustflow_backend.Data.Escrow.{
  Escrow, EscrowStatus, pending, active, released, disputed, cancelled,
}
use trustflow_backend.Escrow.Store.{Loaded, stored, put, assign, persist}
use trustflow_backend.Escrow.Lifecycle.{
  fund, release, cancel, split, raise_dispute, fund_guard, release_guard, cancel_guard, split_guard,
  dispute_guard,
}
use trustflow_backend.Escrow.Local.{load_local, persist_result, persist_client, persist_at}

-- The operations that callers use to drive an escrow.
pub data Move : Type 0 where
  to_fund : Move
  to_release : Move
  to_cancel : Move
  to_split : ℕ → Move
  to_dispute : Option String → Move

abbrev pub guard : Move → EscrowStatus → Result (Unit {0})
guard to_fund s = fund_guard s
guard to_release s = release_guard s
guard to_cancel s = cancel_guard s
guard (to_split n) s = split_guard s
guard (to_dispute r) s = dispute_guard s

abbrev pub target : Move → EscrowStatus
target to_fund = active
target to_release = released
target to_cancel = cancelled
target (to_split n) = released
target (to_dispute r) = disputed

-- The diagram of the statuses.
pub data Edge : EscrowStatus → EscrowStatus → Type 0 where
  funding : Edge pending active
  disputing : Edge active disputed
  releasing : {s : EscrowStatus} → s ≢ released → s ≢ cancelled → Edge s released
  cancelling : {s : EscrowStatus} → s ≢ released → s ≢ cancelled → Edge s cancelled

guard-Edge : (m : Move) (s : EscrowStatus) → guard m s ≡ ok tt → Edge s (target m)
guard-Edge to_fund pending h = funding
guard-Edge to_fund active h = cc
guard-Edge to_fund released h = cc
guard-Edge to_fund disputed h = cc
guard-Edge to_fund cancelled h = cc
guard-Edge to_release s h = releasing (ground arith) (ground arith)
guard-Edge to_cancel s h = cancelling (ground arith) (ground arith)
guard-Edge (to_split n) s h = releasing (ground arith) (ground arith)
guard-Edge (to_dispute r) active h = disputing
guard-Edge (to_dispute r) pending h = cc
guard-Edge (to_dispute r) released h = cc
guard-Edge (to_dispute r) disputed h = cc
guard-Edge (to_dispute r) cancelled h = cc

module _ ⦃E : Env⦄ where
  abbrev pub run_move : Move → String → Action Escrow
  run_move to_fund = fund
  run_move to_release = release
  run_move to_cancel = cancel
  run_move (to_split n) = λ id. split id n
  run_move (to_dispute r) = λ id. raise_dispute id r

  -- The local store holds `e` under its id.
  pub record Holds (w : World E.Remote) (e : Escrow) : Type 0 where
    pub off : w.client ≡ false
    pub at : JsMap.get e.id w.escrows ≡ some e

  -- With no Redis client, an operation that its guard refuses throws the error of the guard and
  -- leaves the state as it was.
  pub run_move_refused :
      (m : Move) {w : World E.Remote} {e : Escrow} {x : Error}
      → Holds w e
      → guard m e.status ≡ err x
      → run_move m e.id w ≡ (err x, w)
  unfolding fund release cancel split raise_dispute
  run_move_refused to_fund {w} {e} v h = ground (arith, load_local w v.off e.id v.at)
  run_move_refused to_release {w} {e} v h = ground (arith, load_local w v.off e.id v.at)
  run_move_refused to_cancel {w} {e} v h = ground (arith, load_local w v.off e.id v.at)
  run_move_refused (to_split n) {w} {e} v h = ground (arith, load_local w v.off e.id v.at)
  run_move_refused (to_dispute r) {w} {e} v h = ground (arith, load_local w v.off e.id v.at)

  -- The escrow after an accepted operation.
  abbrev moved : Move → String → Escrow → Escrow
  moved to_fund now e = record e { status = active }
  moved to_release now e = record e { status = released }
  moved to_cancel now e = record e { status = cancelled }
  moved (to_split n) now e = record e { status = released; split_percentage = some n }
  moved (to_dispute r) now e = record e {
    status = disputed;
    dispute_reason = r;
    disputed_at = some now;
  }

  abbrev pub after : Move → World E.Remote → Escrow → Escrow
  after m w e = record (moved m (E.clock w.ticks).iso e) {
    version = some (or_default (moved m (E.clock w.ticks).iso e).version 0 + 1);
  }

  -- The world in which an accepted operation persists.
  abbrev ready : Move → World E.Remote → Escrow → World E.Remote
  ready (to_dispute r) w e =
      put (moved (to_dispute r) (E.clock w.ticks).iso e) (record w { ticks = suc w.ticks })
  ready m w e = put (moved m (E.clock w.ticks).iso e) w

  abbrev kind : Move → String
  kind to_fund = "escrow.funded"
  kind to_release = "escrow.released"
  kind to_cancel = "escrow.cancelled"
  kind (to_split n) = "escrow.split"
  kind (to_dispute r) = "escrow.disputed"

  pub record IsMoved (m : Move) (w : World E.Remote) (e : Escrow)
      (r : Result Escrow × World E.Remote) : Type 0 where
    pub result : r.0 ≡ ok (after m w e)
    pub off : r.1.client ≡ false
    pub at :
        (j : String)
        → JsMap.get j r.1.escrows
          ≡ (if str_eq e.id j then some (after m w e) else JsMap.get j w.escrows)

  -- What the last write of an accepted operation leaves.
  record Saved (m : Move) (w : World E.Remote) (e : Escrow) (r : Result Loaded × World E.Remote)
      : Type 0 where
    saved : r.0 ≡ ok (stored (after m w e))
    off : r.1.client ≡ false
    at :
        (j : String)
        → JsMap.get j r.1.escrows
          ≡ (if str_eq e.id j then some (after m w e) else JsMap.get j w.escrows)

  module _ (w : World E.Remote) (e : Escrow) (v : Holds w e) where
    abbrev save : Move → Result Loaded × World E.Remote
    save m = persist (stored (moved m (E.clock w.ticks).iso e)) (some (kind m)) (ready m w e)

    ready_off : (m : Move) → (ready m w e).client ≡ false
    ready_off to_fund = v.off
    ready_off to_release = v.off
    ready_off to_cancel = v.off
    ready_off (to_split n) = v.off
    ready_off (to_dispute r) = v.off

    ready_at :
        (m : Move) (j : String)
        → JsMap.get j (ready m w e).escrows ≡ (
            if str_eq e.id j then some (moved m (E.clock w.ticks).iso e) else JsMap.get j w.escrows)
    ready_at to_fund j = get-set e.id j _ w.escrows
    ready_at to_release j = get-set e.id j _ w.escrows
    ready_at to_cancel j = get-set e.id j _ w.escrows
    ready_at (to_split n) j = get-set e.id j _ w.escrows
    ready_at (to_dispute r) j = get-set e.id j _ w.escrows

    moved_id : (m : Move) (now : String) → (moved m now e).id ≡ e.id
    moved_id to_fund now = refl
    moved_id to_release now = refl
    moved_id to_cancel now = refl
    moved_id (to_split n) now = refl
    moved_id (to_dispute r) now = refl

    save-Saved : (m : Move) → Saved m w e (save m)
    save-Saved m =
        let e1 = moved m (E.clock w.ticks).iso e in
        let w1 = ready m w e in
        record {
          saved = persist_result w1 e1 (some (kind m)) (ready_off m);
          off = persist_client w1 e1 (some (kind m)) (ready_off m);
          at = λ j. ground (
            arith,
            persist_at w1 e1 (some (kind m)) (ready_off m) j,
            ready_at m j,
            moved_id m (E.clock w.ticks).iso,
          );
        }

    fund-IsMoved : fund_guard e.status ≡ ok tt → IsMoved to_fund w e (fund e.id w)
    unfolding fund assign
    fund-IsMoved h =
        let l = load_local w v.off e.id v.at in
        let s = save-Saved to_fund in
        record {
          result = ground (arith, l, s.saved);
          off = ground (arith, l, s.saved, s.off);
          at = λ j. ground (arith, l, s.saved, s.at j);
        }

    release-IsMoved : release_guard e.status ≡ ok tt → IsMoved to_release w e (release e.id w)
    unfolding release assign
    release-IsMoved h =
        let l = load_local w v.off e.id v.at in
        let s = save-Saved to_release in
        record {
          result = ground (arith, l, s.saved);
          off = ground (arith, l, s.saved, s.off);
          at = λ j. ground (arith, l, s.saved, s.at j);
        }

    cancel-IsMoved : cancel_guard e.status ≡ ok tt → IsMoved to_cancel w e (cancel e.id w)
    unfolding cancel assign
    cancel-IsMoved h =
        let l = load_local w v.off e.id v.at in
        let s = save-Saved to_cancel in
        record {
          result = ground (arith, l, s.saved);
          off = ground (arith, l, s.saved, s.off);
          at = λ j. ground (arith, l, s.saved, s.at j);
        }

    split-IsMoved :
        (n : ℕ) → split_guard e.status ≡ ok tt → IsMoved (to_split n) w e (split e.id n w)
    unfolding split assign
    split-IsMoved n h =
        let l = load_local w v.off e.id v.at in
        let s = save-Saved (to_split n) in
        record {
          result = ground (arith, l, s.saved);
          off = ground (arith, l, s.saved, s.off);
          at = λ j. ground (arith, l, s.saved, s.at j);
        }

    raise_dispute-IsMoved :
        (r : Option String)
        → dispute_guard e.status ≡ ok tt
        → IsMoved (to_dispute r) w e (raise_dispute e.id r w)
    unfolding raise_dispute assign
    raise_dispute-IsMoved r h =
        let l = load_local w v.off e.id v.at in
        let s = save-Saved (to_dispute r) in
        record {
          result = ground (arith, l, s.saved);
          off = ground (arith, l, s.saved, s.off);
          at = λ j. ground (arith, l, s.saved, s.at j);
        }

  -- With no Redis client, an operation whose guard lets it pass returns the escrow with the new
  -- status and the next version, stores it, and changes no other escrow.
  pub run_move_accepted :
      (m : Move) (w : World E.Remote) (e : Escrow)
      → Holds w e
      → guard m e.status ≡ ok tt
      → IsMoved m w e (run_move m e.id w)
  run_move_accepted to_fund w e v h = fund-IsMoved w e v h
  run_move_accepted to_release w e v h = release-IsMoved w e v h
  run_move_accepted to_cancel w e v h = cancel-IsMoved w e v h
  run_move_accepted (to_split n) w e v h = split-IsMoved w e v n h
  run_move_accepted (to_dispute r) w e v h = raise_dispute-IsMoved w e v r h
