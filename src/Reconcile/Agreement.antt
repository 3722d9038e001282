-- ===== src/Reconcile/Agreement.antt =====
-- What the reconciliation of one escrow achieves with no Redis client.
use trustflow_backend.Prelude.{
  ℕ, String, ◌<>◌, ◌≡◌, refl, sym, ap, subst, ◌∙◌, Option, none, some, List, [], ◌∷◌, true, false,
  All, map, arith, str_eq, eq_iff, Bool-cases, inl, inr, suc,
}
use trustflow_backend.Prelude.Exec.{Result, ok, err, plain, pure, >>=-run, resume, ◌>>=◌}
use trustflow_backend.World.{Env, World}
use trustflow_backend.Data.Escrow.{
  Escrow, EscrowStatus, pending, active, released, disputed, cancelled, status_text, parse_status,
}
use trustflow_backend.Data.Reconciliation.{
  ChainEscrowRecord, DriftRecord, status_mismatch, amount_mismatch,
}
use trustflow_backend.Escrow.Store.{stored, bump, put, assign}
use trustflow_backend.Escrow.Lifecycle.{apply_chain_state, patched_status, version_clash}
use trustflow_backend.Escrow.Local.{load_local, persist_result, persist_client, persist_at}
use trustflow_backend.Escrow.Machine.{Holds}
use trustflow_backend.Reconcile.Service.{
  Chain, Findings, repair, compare_fields, compare_values, value_now, drift, no_fields, as_repaired,
}

parse-status_text : (s : EscrowStatus) → parse_status (status_text s) ≡ some s
unfolding parse_status
parse-status_text pending = refl
parse-status_text active = refl
parse-status_text released = refl
parse-status_text disputed = refl
parse-status_text cancelled = refl

status_text_same : (s t : EscrowStatus) → str_eq (status_text s) (status_text t) ≡ true → s ≡ t
status_text_same s t same =
    let text : status_text s ≡ status_text t =
      ground (arith, same, eq_iff (status_text s) (status_text t)) in
    let parsed = sym (parse-status_text s) ∙ ap parse_status text ∙ parse-status_text t in
    ground (arith, parsed)

own_version : (v : Option ℕ) → version_clash v v ≡ false
own_version none = refl
own_version (some n) = ground arith

module _ ⦃E : Env⦄ where
  -- The escrow with the status and the amount of the chain, written once.
  abbrev pub aligned : ChainEscrowRecord → Escrow → Escrow
  aligned r e = bump (record e { status = r.status; amount_xlm = r.amount_xlm })

  repair_local :
      (w : World E.Remote) (e : Escrow) (r : ChainEscrowRecord) (ds : List DriftRecord)
      → Holds w e
      → let out = repair ds e.id r e.version w in
        (out.0 ≡ ok (map as_repaired ds)) × Holds out.1 (aligned r e)
  unfolding repair apply_chain_state patched_status assign
  repair_local w e r ds v =
      let l = load_local w v.off e.id v.at in
      let e1 = record e { status = r.status; amount_xlm = r.amount_xlm } in
      let w1 = put e1 w in
      let saved = persist_result w1 e1 none v.off in
      let off = persist_client w1 e1 none v.off in
      let at = persist_at w1 e1 none v.off e.id in
      let parsed = parse-status_text r.status in
      let version = own_version e.version in
      (
        ground (arith, l, saved, parsed, version),
        record {
          off = ground (arith, l, saved, off, parsed, version);
          at = ground (arith, l, saved, at, eq_iff e.id e.id, parsed, version);
        },
      )

  -- The drifts of a run on `e` are repaired, and afterwards the map holds it as the chain has it.
  pub record Agrees (C : Chain E.Remote) (r : ChainEscrowRecord) (e : Escrow)
      (out : Result Findings × World E.Remote) : Type 0 where
    pub findings : Findings
    pub after : Escrow
    pub returned : out.0 ≡ ok findings
    pub mended : All (λ d. d.repaired ≡ true) findings.drifts
    pub held : Holds out.1 after
    pub same_id : after.id ≡ e.id
    pub same_status : after.status ≡ r.status
    pub same_amount : C.amounts_equal r.amount_xlm after.amount_xlm ≡ true

  map-as_repaired : (ds : List DriftRecord) → All (λ d. d.repaired ≡ true) (map as_repaired ds)
  map-as_repaired [] = tt
  map-as_repaired (d ∷ ds) = (refl, map-as_repaired ds)

  module _ (C : Chain E.Remote) (id : String) (r : ChainEscrowRecord) (e : Escrow)
      (equal : C.amounts_equal r.amount_xlm r.amount_xlm ≡ true)
      (valid : E.is_no_amount r.amount_xlm ≡ false) where
    repaired-Agrees :
        (w : World E.Remote) (d : DriftRecord) (ds : List DriftRecord)
        (out : Result Findings × World E.Remote)
        → Holds w e
        → out
          ≡ (repair (d ∷ ds) e.id r e.version
                >>= (λ found. pure (record { drifts = found; errors = [] })))
              w
        → Agrees C r e out
    repaired-Agrees w d ds out v same =
        let (returned, held) = repair_local w e r (d ∷ ds) v in
        let fs : Findings = record { drifts = map as_repaired (d ∷ ds); errors = [] } in
        let w' = (repair (d ∷ ds) e.id r e.version w).1 in
        let all : out ≡ (ok fs, w') =
          same
          ∙ ap
              (λ (o : Result (List DriftRecord)).
                resume o (λ found. pure (record { drifts = found; errors = [] })) w')
              returned in
        record {
          findings = fs;
          after = aligned r e;
          returned = ap (λ o. o.0) all;
          mended = map-as_repaired (d ∷ ds);
          held =
              subst (λ (o : Result Findings × World E.Remote). Holds o.1 (aligned r e)) (sym all)
                held;
          same_id = refl;
          same_status = refl;
          same_amount = equal;
        }

    compared-Agrees :
        (w : World E.Remote)
        → E.is_no_amount e.amount_xlm ≡ false
        → Holds w e
        → Agrees C r e (compare_values C id r e w)
    compared-Agrees w readable v =
        let tick = λ (u : World E.Remote). record u { ticks = suc u.ticks } in
        let status_at = λ (u : World E.Remote).
          drift status_mismatch id (some (record no_fields { status = some e.status }))
            (some (record no_fields { status = some r.status })) (E.clock u.ticks).iso in
        let amount_at = λ (u : World E.Remote).
          drift amount_mismatch id (some (record no_fields { amount_xlm = some e.amount_xlm }))
            (some (record no_fields { amount_xlm = some r.amount_xlm })) (E.clock u.ticks).iso in
        elim (Bool-cases (str_eq (status_text r.status) (status_text e.status))) [
          | inl one ↦ elim (Bool-cases (C.amounts_equal r.amount_xlm e.amount_xlm)) [
            | inl alike ↦
                let quiet : compare_values C id r e w
                    ≡ (ok (record { drifts = []; errors = [] }), w) =
                  rw (one, alike, valid, readable) refl in
                record {
                  findings = record { drifts = []; errors = [] };
                  after = e;
                  returned = ap (λ o. o.0) quiet;
                  mended = tt;
                  held =
                      subst (λ (o : Result Findings × World E.Remote). Holds o.1 e) (sym quiet) v;
                  same_id = refl;
                  same_status = sym (status_text_same r.status e.status one);
                  same_amount = alike;
                }
            | inr apart ↦
                repaired-Agrees (tick w) (amount_at w) [] _ (record { off = v.off; at = v.at })
                  (rw (one, apart, valid, readable) refl)
          ]
          | inr two ↦ elim (Bool-cases (C.amounts_equal r.amount_xlm e.amount_xlm)) [
            | inl alike ↦
                repaired-Agrees (tick w) (status_at w) [] _ (record { off = v.off; at = v.at })
                  (rw (two, alike, valid, readable) refl)
            | inr apart ↦
                repaired-Agrees (tick (tick w)) (status_at w) (amount_at (tick w) ∷ []) _
                  (record { off = v.off; at = v.at }) (rw (two, apart, valid, readable) refl)
          ]
        ]

    -- With no client, amounts of the record and of the escrow that are numbers, and a comparison of amounts
    -- that finds the record's amount equal to itself: the comparison of an escrow of the database with a
    -- valid record of the chain returns, every drift that it reports is repaired, and afterwards the
    -- escrow has the status of the record and an amount equal to its.
    pub compare_fields-Agrees :
        (w : World E.Remote)
        → E.is_no_amount e.amount_xlm ≡ false
        → Holds w e
        → Agrees C r e (compare_fields C id (stored e) r w)
    unfolding compare_fields
    compare_fields-Agrees w readable v =
        let known : value_now (stored e) w ≡ (ok e, w) = rw v.at refl in
        subst (Agrees C r e) (sym (>>=-run (value_now (stored e)) (compare_values C id r) w known))
          (compared-Agrees w readable v)

    -- With no client, the comparison of an escrow whose amount is no number throws, and no escrow is changed.
    pub compare_fields_unreadable :
        (w : World E.Remote)
        → E.is_no_amount e.amount_xlm ≡ true
        → Holds w e
        → let out = compare_fields C id (stored e) r w in
          (out.0 ≡ err (plain ("Invalid amount: " <> e.amount_xlm <> " is not a valid number")))
          × (out.1.escrows ≡ w.escrows)
    unfolding compare_fields
    compare_fields_unreadable w bad v =
        elim (Bool-cases (str_eq (status_text r.status) (status_text e.status))) [
          | inl one ↦ (rw (v.at, one, valid, bad) refl, rw (v.at, one, valid, bad) refl)
          | inr two ↦ (rw (v.at, two, valid, bad) refl, rw (v.at, two, valid, bad) refl)
        ]
