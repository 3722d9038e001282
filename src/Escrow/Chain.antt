-- ===== src/Escrow/Chain.antt =====
-- The optimistic lock of `applyChainState`.
use trustflow_backend.Prelude.{
  ℕ, ◌+◌, ◌≡◌, refl, Option, none, some, true, false, arith, eq_iff, Bool-cases, inl, inr,
  or_default, ap,
}
use trustflow_backend.Prelude.Exec.{Error, Result, ok, err, conflict}
use trustflow_backend.World.{Env, World}
use trustflow_backend.Data.Escrow.{Escrow, EscrowStatus, ChainStatePatch}
use trustflow_backend.Escrow.Store.{bump, put, assign}
use trustflow_backend.Escrow.Lifecycle.{apply_chain_state, version_clash, patched_status, over}
use trustflow_backend.Escrow.Local.{load_local, persist_result, persist_client, persist_at}
use trustflow_backend.Escrow.Machine.{Holds}

abbrev pub mismatch : Error
mismatch = conflict "Escrow version mismatch"

version_clash-bump :
    (v : Option ℕ) (n : ℕ)
    → version_clash v (some n) ≡ false
    → version_clash (some (or_default v 0 + 1)) (some n) ≡ true
version_clash-bump none n h = cc
version_clash-bump (some v) n h = ground arith

module _ ⦃E : Env⦄ where
  -- With no Redis client, an update that expects another version than the stored one is refused with
  -- a conflict and leaves the state as it was.
  pub apply_chain_state_stale :
      (w : World E.Remote) (e : Escrow) (patch : ChainStatePatch) (n : ℕ)
      → Holds w e
      → version_clash e.version (some n) ≡ true
      → apply_chain_state e.id patch (some n) w ≡ (err mismatch, w)
  unfolding apply_chain_state
  apply_chain_state_stale w e patch n v clash = ground (arith, load_local w v.off e.id v.at)

  -- The escrow that an accepted patch makes.
  abbrev pub patched : ChainStatePatch → EscrowStatus → Escrow → Escrow
  patched patch s e = record e { status = s; amount_xlm = over patch.amount_xlm e.amount_xlm }

  -- An update whose version and status are right.
  apply_chain_state_fresh :
      (w : World E.Remote) (e : Escrow) (patch : ChainStatePatch) (n : ℕ) (s : EscrowStatus)
      → Holds w e
      → version_clash e.version (some n) ≡ false
      → patched_status patch.status e.status ≡ ok s
      → let r = apply_chain_state e.id patch (some n) w in
        (r.0 ≡ ok (bump (patched patch s e))) × Holds r.1 (bump (patched patch s e))
  unfolding apply_chain_state assign
  apply_chain_state_fresh w e patch n s v same good =
      let l = load_local w v.off e.id v.at in
      let e1 = patched patch s e in
      let w1 = put e1 w in
      let saved = persist_result w1 e1 none v.off in
      let off = persist_client w1 e1 none v.off in
      let at = persist_at w1 e1 none v.off e.id in
      (
        ground (arith, l, saved),
        record {
          off = ground (arith, l, saved, off);
          at = ground (arith, l, saved, at, eq_iff e.id e.id);
        },
      )

  apply_chain_state_invalid :
      (w : World E.Remote) (e : Escrow) (patch : ChainStatePatch) (n : ℕ) (x : Error)
      → Holds w e
      → version_clash e.version (some n) ≡ false
      → patched_status patch.status e.status ≡ err x
      → apply_chain_state e.id patch (some n) w ≡ (err x, w)
  unfolding apply_chain_state
  apply_chain_state_invalid w e patch n x v same bad = ground (arith, load_local w v.off e.id v.at)

  -- With no Redis client, of two updates of one escrow that expect the same version, the first of
  -- which succeeds, the second is refused with a conflict.
  pub apply_chain_state_once :
      (w : World E.Remote) (e : Escrow) (first second : ChainStatePatch) (n : ℕ) {e1 : Escrow}
      → Holds w e
      → (apply_chain_state e.id first (some n) w).0 ≡ ok e1
      → (apply_chain_state e.id second (some n) (apply_chain_state e.id first (some n) w).1).0
        ≡ err mismatch
  apply_chain_state_once w e first second n {e1} v h =
      elim (Bool-cases (version_clash e.version (some n))) [
        | inl clash ↦
            let refused = apply_chain_state_stale w e first n v clash in absurd (ground arith)
        | inr same ↦ go (patched_status first.status e.status) refl same
      ]
    where
      go :
          (r : Result EscrowStatus)
          → patched_status first.status e.status ≡ r
          → version_clash e.version (some n) ≡ false
          → (apply_chain_state e.id second (some n) (apply_chain_state e.id first (some n) w).1).0
            ≡ err mismatch
      go (err x) g same =
          let refused = apply_chain_state_invalid w e first n x v same g in absurd (ground arith)
      go (ok s) g same =
          let (result, holds) = apply_chain_state_fresh w e first n s v same g in
          let stale =
            apply_chain_state_stale _ (bump (patched first s e)) second n holds
              (version_clash-bump e.version n same) in
          ap (λ r. r.0) stale
