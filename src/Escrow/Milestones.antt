-- ===== src/Escrow/Milestones.antt =====
-- Milestone approval in `EscrowService`. It reads the fallback maps only, with or without Redis.
use trustflow_backend.Prelude.{
  ℕ, ◌+◌, String, ◌<>◌, ◌≡◌, ◌≢◌, refl, some, List, [], ◌∷◌, ◌++◌, Bool, true, false, not, str_eq,
  eq_iff, length, length-append, arith, Option-cases, Bool-cases, inl, inr, keep,
}
use trustflow_backend.Prelude.Exec.{
  Error, Result, ok, err, plain, message, pure, gets, try_catch, modify, or_throw, throw_if, ◌>>=◌,
  ◌>>◌,
}
use trustflow_backend.Prelude.JsMap
use trustflow_backend.Prelude.JsMap.{values, get-set_self}
use trustflow_backend.Redis.{set}
use trustflow_backend.Data.Escrow.{
  Escrow, Milestone, MilestoneStatus, pending, approved, milestone_status_text, BatchApproveResult,
}
use trustflow_backend.World.{Env, World, Action, get_now}
use trustflow_backend.Escrow.Store.{transact, rethrow_if_inconsistent}

abbrev milestone_key : String → String
milestone_key id = "milestone:" <> id

abbrev is_pending : MilestoneStatus → Bool
is_pending pending = true
is_pending _ = false

abbrev pub approve : Milestone → String → String → Milestone
approve m signer now = record m {
  status = approved;
  approver = some signer;
  approved_at = some now;
}

module _ ⦃E : Env⦄ where
  abbrev put_milestone : String → Milestone → World E.Remote → World E.Remote
  put_milestone id m w = record w { milestones = JsMap.set id m w.milestones }

  unfoldable pub get_milestones : String → Action (List Milestone)
  get_milestones escrow_id =
      gets (λ w. keep (λ m. str_eq m.escrow_id escrow_id) (values w.milestones))

  -- The checks of approveMilestone, in order.
  unfoldable pub check_approval : String → String → Action Milestone
  check_approval id signer = do
    found ← gets (λ w. JsMap.get id w.milestones)
    m ← or_throw found (plain "Milestone not found")
    owner ← gets (λ w. JsMap.get m.escrow_id w.escrows)
    e ← or_throw owner (plain "Escrow not found")
    throw_if (not (str_eq signer e.depositor)) (plain "Only the depositor can approve milestones")
    throw_if (not (is_pending m.status))
        (plain ("Milestone is already " <> milestone_status_text m.status))
    pure m

  unfoldable pub approve_milestone : String → String → Action Milestone
  approve_milestone id signer = do
    m ← check_approval id signer
    now ← get_now
    let m' = approve m signer now.iso
    modify (put_milestone id m')
    transact "approveMilestone" (set (milestone_key id) (E.milestone_json.stringify m') ∷ [])
        (modify (put_milestone id m'))
    pure m'

  -- One round of the loop of batchApproveMilestones.
  unfoldable pub approve_one : String → String → BatchApproveResult → Action BatchApproveResult
  approve_one signer id result =
      try_catch
        (do
          m ← approve_milestone id signer
          pure (record result { succeeded = result.succeeded ++ (m.id, m.status) ∷ [] }))
        (λ e. pure (record result { failed = result.failed ++ (id, message e) ∷ [] }))

  unfoldable pub approve_loop :
      List String → String → BatchApproveResult → Action BatchApproveResult
  approve_loop [] signer result = pure result
  approve_loop (id ∷ ids) signer result = do
    result' ← approve_one signer id result
    approve_loop ids signer result'

  unfoldable pub batch_approve_milestones : List String → String → Action BatchApproveResult
  batch_approve_milestones ids signer =
      approve_loop ids signer (record { succeeded = []; failed = [] })

  -- The number of ids that a result reports.
  abbrev pub reported : BatchApproveResult → ℕ
  reported r = length r.succeeded + length r.failed

  approve_one_total :
      (signer id : String) (r : BatchApproveResult) (w : World E.Remote)
      → (r' : BatchApproveResult) × ((approve_one signer id r w).0 ≡ ok r')
        × (reported r' ≡ reported r + 1)
  unfolding approve_one
  approve_one_total signer id r w = go ((approve_milestone id signer w).0) refl
    where
      go :
          (x : Result Milestone)
          → (approve_milestone id signer w).0 ≡ x
          → (r' : BatchApproveResult) × ((approve_one signer id r w).0 ≡ ok r')
            × (reported r' ≡ reported r + 1)
      go (ok m) e = (
        record r { succeeded = r.succeeded ++ (m.id, m.status) ∷ [] },
        ground arith,
        omega (arith, length-append r.succeeded ((m.id, m.status) ∷ [])),
      )
      go (err x) e = (
        record r { failed = r.failed ++ (id, message x) ∷ [] },
        ground arith,
        omega (arith, length-append r.failed ((id, message x) ∷ [])),
      )

  approve_loop_total :
      (ids : List String) (signer : String) (r : BatchApproveResult) (w : World E.Remote)
      → (r' : BatchApproveResult) × ((approve_loop ids signer r w).0 ≡ ok r')
        × (reported r' ≡ reported r + length ids)
  unfolding approve_loop
  approve_loop_total [] signer r w = (r, refl, omega arith)
  approve_loop_total (id ∷ ids) signer r w =
      let (r1, e1, n1) = approve_one_total signer id r w in
      let (r2, e2, n2) = approve_loop_total ids signer r1 (approve_one signer id r w).1 in
      (r2, rw e1 e2, omega (arith, n1, n2))

  -- Whatever Redis does, `batchApproveMilestones` returns and reports each id exactly once, as
  -- succeeded or as failed.
  pub batch_approve_total :
      (ids : List String) (signer : String) (w : World E.Remote)
      → (r : BatchApproveResult) × ((batch_approve_milestones ids signer w).0 ≡ ok r)
        × (length r.succeeded + length r.failed ≡ length ids)
  unfolding batch_approve_milestones
  batch_approve_total ids signer w =
      let (r, e, n) = approve_loop_total ids signer (record { succeeded = []; failed = [] }) w in
      (r, e, omega (arith, n))

  check_approval_sound :
      (id signer : String) (w : World E.Remote) (m : Milestone)
      → (check_approval id signer w).0 ≡ ok m
      → (e : Escrow) × (JsMap.get id w.milestones ≡ some m)
        × (JsMap.get m.escrow_id w.escrows ≡ some e)
        × (e.depositor ≡ signer)
        × (m.status ≡ pending)
  unfolding check_approval
  check_approval_sound id signer w m h = elim (Option-cases (JsMap.get id w.milestones)) [
    | inl gone ↦ absurd (ground arith)
    | inr (m1, g) ↦ elim (Option-cases (JsMap.get m1.escrow_id w.escrows)) [
      | inl gone ↦ absurd (ground arith)
      | inr (e, k) ↦
          (e, ground arith, ground arith, ground (arith, eq_iff signer e.depositor), ground arith)
    ]
  ]

  approve_milestone_inv :
      (id signer : String) (w : World E.Remote) {m : Milestone}
      → (approve_milestone id signer w).0 ≡ ok m
      → (m0 : Milestone) × ((check_approval id signer w).0 ≡ ok m0)
        × (m.status ≡ approved)
        × (m.approver ≡ some signer)
  unfolding approve_milestone rethrow_if_inconsistent
  approve_milestone_inv id signer w {m} h = go (check_approval id signer w).0 refl
    where
      go :
          (r : Result Milestone)
          → (check_approval id signer w).0 ≡ r
          → (m0 : Milestone) × ((check_approval id signer w).0 ≡ ok m0)
            × (m.status ≡ approved)
            × (m.approver ≡ some signer)
      go (ok m0) e = (m0, e, ground arith, ground arith)
      go (err x) e = absurd (ground arith)

  -- An approval that succeeds was asked for by the depositor of the milestone's escrow, and the
  -- milestone was pending; it comes back approved by the depositor.
  pub approve_milestone_sound :
      (id signer : String) (w : World E.Remote) {m : Milestone}
      → (approve_milestone id signer w).0 ≡ ok m
      → (m0 : Milestone) × (e : Escrow) × (JsMap.get id w.milestones ≡ some m0)
        × (JsMap.get m0.escrow_id w.escrows ≡ some e)
        × (e.depositor ≡ signer)
        × (m0.status ≡ pending)
        × (m.status ≡ approved)
        × (m.approver ≡ some signer)
  approve_milestone_sound id signer w h =
      let (m0, c, done, by) = approve_milestone_inv id signer w h in
      let (e, g, k, d, p) = check_approval_sound id signer w m0 c in (m0, e, g, k, d, p, done, by)

  -- A milestone that has been approved is not approved again, whatever Redis does.
  pub approve_milestone_once :
      (id signer : String) (w : World E.Remote) {m : Milestone}
      → JsMap.get id w.milestones ≡ some m
      → m.status ≢ pending
      → (x : Error) × (approve_milestone id signer w ≡ (err x, w))
  unfolding approve_milestone check_approval
  approve_milestone_once id signer w {m} g h =
      elim (Option-cases (JsMap.get m.escrow_id w.escrows)) [
        | inl gone ↦ (plain "Escrow not found", ground arith)
        | inr (e, k) ↦ elim (Bool-cases (str_eq signer e.depositor)) [
          | inl owner ↦
              (plain ("Milestone is already " <> milestone_status_text m.status), ground arith)
          | inr other ↦ (plain "Only the depositor can approve milestones", ground arith)
        ]
      ]
