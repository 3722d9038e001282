-- ===== src/Escrow/Lifecycle.antt =====
-- The transitions of an escrow's status in `EscrowService`.
use trustflow_backend.Prelude.{ℕ, String, ◌<>◌, Option, none, some, Bool, true, false, not, ◌==◌}
use trustflow_backend.Prelude.Exec.{
  ok, err, not_found, bad_request, conflict, pure, or_throw, throw_if, ◌>>=◌, ◌>>◌, Result,
}
use trustflow_backend.Data.Escrow.{
  Escrow, EscrowStatus, pending, active, released, disputed, cancelled, status_text, parse_status,
  ChainStatePatch, StatusCorrection,
}
use trustflow_backend.World.{Env, Action, get_now, call, audit, when_do}
use trustflow_backend.Escrow.Store.{Loaded, find_by_id, assign, persist}

-- The statuses from which each operation is refused, with the exception that it throws.
abbrev pub fund_guard : EscrowStatus → Result (Unit {0})
fund_guard pending = ok tt
fund_guard s = err (bad_request ("Cannot fund escrow in status: " <> status_text s))

abbrev pub release_guard : EscrowStatus → Result (Unit {0})
release_guard released = err (conflict "Escrow is already released")
release_guard cancelled = err (conflict "Cannot release a cancelled escrow")
release_guard _ = ok tt

abbrev pub cancel_guard : EscrowStatus → Result (Unit {0})
cancel_guard cancelled = err (conflict "Escrow is already cancelled")
cancel_guard released = err (conflict "Cannot cancel a released escrow")
cancel_guard _ = ok tt

abbrev pub split_guard : EscrowStatus → Result (Unit {0})
split_guard released = err (conflict "Escrow is already released")
split_guard cancelled = err (conflict "Cannot split a cancelled escrow")
split_guard _ = ok tt

abbrev pub dispute_guard : EscrowStatus → Result (Unit {0})
dispute_guard released = err (bad_request "Cannot dispute a released escrow")
dispute_guard disputed = err (conflict "Escrow is already disputed")
dispute_guard active = ok tt
dispute_guard s = err (bad_request ("Cannot dispute a " <> status_text s <> " escrow"))

-- expectedVersion !== undefined && escrow.version !== expectedVersion
abbrev pub version_clash : Option ℕ → Option ℕ → Bool
version_clash found none = false
version_clash none (some n) = true
version_clash (some v) (some n) = not (v == n)

-- The status that a patch sets, and the error on a text that is no status.
unfoldable pub patched_status : Option String → EscrowStatus → Result EscrowStatus
unfolding parse_status
patched_status none s = ok s
patched_status (some text) s = elim (parse_status text) [
  | none ↦ err (bad_request ("Invalid escrow status: " <> text))
  | some t ↦ ok t
]

abbrev pub over {ℓ} : {A : Type ℓ} → Option A → A → A
over none a = a
over (some b) a = b

abbrev pub corrected : StatusCorrection → Escrow → Escrow
corrected p e = record e {
  status = over p.status e.status;
  requires_manual_review = elim p.requires_manual_review [
    | none ↦ e.requires_manual_review
    | some b ↦ some b
  ];
  dispute_reason = elim p.clear_dispute [ true ↦ none | false ↦ e.dispute_reason ];
  disputed_at = elim p.clear_dispute [ true ↦ none | false ↦ e.disputed_at ];
}

module _ ⦃E : Env⦄ where
  abbrev pub check : {A : Type 0} → Result A → Action A
  check r w = (r, w)

  -- const escrow = await this.findById(id); if (!escrow) throw new NotFoundException(...)
  unfoldable pub load : String → Action Loaded
  unfolding find_by_id
  load id = do found ← find_by_id id; or_throw found (not_found "Escrow not found")

  abbrev pub log_audit : String → String → Action (Unit {0})
  log_audit operation id = when_do E.has_audit (call (audit operation id))

  unfoldable pub fund : String → Action Escrow
  fund id = do
    l ← load id
    check (fund_guard l.value.status)
    l' ← assign l (record (l.value) { status = active })
    l'' ← persist l' (some "escrow.funded")
    pure l''.value

  unfoldable pub release : String → Action Escrow
  release id = do
    l ← load id
    check (release_guard l.value.status)
    l' ← assign l (record (l.value) { status = released })
    l'' ← persist l' (some "escrow.released")
    log_audit "ESCROW_RELEASE" id
    pure l''.value

  unfoldable pub cancel : String → Action Escrow
  cancel id = do
    l ← load id
    check (cancel_guard l.value.status)
    l' ← assign l (record (l.value) { status = cancelled })
    l'' ← persist l' (some "escrow.cancelled")
    pure l''.value

  unfoldable pub split : String → ℕ → Action Escrow
  split id percentage = do
    l ← load id
    check (split_guard l.value.status)
    l' ← assign l (record (l.value) { status = released; split_percentage = some percentage })
    l'' ← persist l' (some "escrow.split")
    pure l''.value

  unfoldable pub raise_dispute : String → Option String → Action Escrow
  raise_dispute id reason = do
    l ← load id
    check (dispute_guard l.value.status)
    now ← get_now
    l' ← assign l (record (l.value) {
      status = disputed;
      dispute_reason = reason;
      disputed_at = some now.iso;
    })
    l'' ← persist l' (some "escrow.disputed")
    log_audit "ESCROW_DISPUTE" id
    pure l''.value

  unfoldable pub apply_chain_state : String → ChainStatePatch → Option ℕ → Action Escrow
  apply_chain_state id patch expected_version = do
    l ← load id
    throw_if (version_clash l.value.version expected_version) (conflict "Escrow version mismatch")
    status ← check (patched_status patch.status l.value.status)
    l' ← assign l (record (l.value) {
      status = status;
      amount_xlm = over patch.amount_xlm l.value.amount_xlm;
    })
    l'' ← persist l' none
    pure l''.value

  unfoldable pub correct_status : String → StatusCorrection → Action Escrow
  correct_status id patch = do
    l ← load id
    l' ← assign l (corrected patch l.value)
    l'' ← persist l' none
    pure l''.value
