-- ===== src/Escrow/Remote.antt =====
-- `EscrowService` with a Redis client: what the writes come to when EXEC applies them, when it
-- applies a part of them, and when Redis cannot be reached.
use trustflow_backend.Prelude.{
  suc, ◌+◌, or_default, none, String, ◌<>◌, ◌≡◌, refl, ◌++◌, is_some, Bool-cases, Option-cases, inl,
  inr, Option, some, true, arith, List, [], ◌∷◌,
}
use trustflow_backend.Prelude.Exec.{ok, err, redis, transaction, FailureReason, unavailable}
use trustflow_backend.Prelude.JsMap
use trustflow_backend.Prelude.JsMap.{get-set_self}
use trustflow_backend.Redis.{replied, rejected, applied, ExecResults, Command, set, zadd}
use trustflow_backend.World.{Env, World, Action}
use trustflow_backend.Data.Escrow.{Escrow}
use trustflow_backend.Data.Outbox.{OutboxEvent, OutboxStatus, of_escrow}
use trustflow_backend.Outbox.Queue as Outbox
use trustflow_backend.Escrow.Store.{
  copied, bump, persist, create_event, set_escrow, event_commands, transact,
  rethrow_if_inconsistent,
}

-- EXEC answers every transaction, and applies all of it.
pub record Applies ⦃E : Env⦄ : Type 0 where
  pub exec :
      (cs : List Command) (r : E.Remote)
      → (rs : ExecResults) × ((E.exec cs r).0 ≡ replied rs) × (applied rs ≡ ok tt)

module _ ⦃E : Env⦄ (w : World E.Remote) (operation : String) (cs : List Command)
    (local : Action (Unit {0})) (on : w.client ≡ true) where
  abbrev sent : World E.Remote
  sent = record w { remote = (E.exec cs w.remote).1 }

  -- A transaction that applies is all that a write does: the fallback is not run.
  transact-applied :
      {rs : ExecResults}
      → (E.exec cs w.remote).0 ≡ replied rs
      → applied rs ≡ ok tt
      → transact operation cs local w ≡ (ok tt, sent)
  transact-applied h a = ground arith

  -- A transaction that applies in part is reported, and the fallback is not run.
  pub transact_integrity :
      {rs : ExecResults} {reason : FailureReason} {m : String}
      → (E.exec cs w.remote).0 ≡ replied rs
      → applied rs ≡ err (transaction reason m)
      → transact operation cs local w ≡ (
        err (
            unavailable
              ("Redis transaction integrity failure in escrow." <> operation <> ": " <> m)),
        record sent {
          metrics = w.metrics ++ ("escrow_transaction_inconsistent_total:" <> operation) ∷ [];
        },
      )
  unfolding rethrow_if_inconsistent
  transact_integrity h a = ground arith

  -- If Redis cannot be reached, then the fallback is counted and run.
  pub transact_outage :
      {m : String}
      → (E.exec cs w.remote).0 ≡ rejected m
      → transact operation cs local w
        ≡ local (record sent {
          metrics = w.metrics ++ ("escrow_persistence_fallback_total:" <> operation) ∷ [];
        })
  unfolding rethrow_if_inconsistent
  transact_outage h = ground arith

-- EXEC rejects every transaction, as it does while Redis cannot be reached.
pub record IsDown ⦃E : Env⦄ (m : String) : Type 0 where
  pub exec : (cs : List Command) (r : E.Remote) → (E.exec cs r).0 ≡ rejected m

module _ ⦃E : Env⦄ where
  create_event_frame :
      (kind : String) (e : Escrow) (w : World E.Remote)
      → (event : Option OutboxEvent) × (w' : World E.Remote) × (create_event (some kind) e w
          ≡ (ok event, w'))
        × (w'.client ≡ w.client)
        × (w'.remote ≡ w.remote)
        × (w'.escrows ≡ w.escrows)
        × (w'.memory ≡ w.memory)
        × (is_some event ≡ E.has_outbox)
  unfolding Outbox.create
  create_event_frame kind e w = elim (Bool-cases E.has_outbox) [
    | inl present ↦ rw present (_, _, refl, refl, refl, refl, refl, refl)
    | inr absent ↦ rw absent (_, _, refl, refl, refl, refl, refl, refl)
  ]

  -- If the outbox is there and EXEC applies what it is sent, then `persist` sends one transaction: the
  -- escrow with its version raised by one under its key, an open event on that escrow, of the kind asked
  -- for, under its key, and the id of the event in the pending set by the time it is due. It leaves the
  -- fallback stores alone.
  pub persist_one_transaction :
      (w : World E.Remote) (e : Escrow) (kind : String)
      → w.client ≡ true
      → Applies
      → E.has_outbox ≡ true
      → let next : Escrow = record e { version = some (or_default e.version 0 + 1) } in
        (event : OutboxEvent) × (event.kind ≡ kind)
        × (event.aggregate_id ≡ e.id)
        × (event.payload ≡ of_escrow next)
        × (event.status ≡ OutboxStatus.pending)
        × (event.attempts ≡ 0)
        × ((persist (copied e) (some kind) w).0 ≡ ok (copied next))
        × ((persist (copied e) (some kind) w).1.remote
            ≡ (E.exec
                (set ("escrow:" <> e.id) (E.escrow_json.stringify next)
                  ∷ set ("outbox:event:" <> event.id) (E.event_json.stringify event)
                  ∷ zadd "outbox:pending" event.next_attempt_at event.id
                  ∷ [])
                w.remote).1)
        × ((persist (copied e) (some kind) w).1.escrows ≡ w.escrows)
        × ((persist (copied e) (some kind) w).1.memory ≡ w.memory)
  unfolding persist Outbox.create
  persist_one_transaction w e kind on h present =
      let event : OutboxEvent = record {
        id = E.random w.draws;
        dedup_key =
            kind <> ":" <> "escrow" <> ":" <> e.id <> ":" <> E.number_text (E.clock w.ticks).ms;
        kind = kind;
        aggregate_type = "escrow";
        aggregate_id = e.id;
        payload = of_escrow (bump e);
        status = OutboxStatus.pending;
        attempts = 0;
        next_attempt_at = (E.clock (suc w.ticks)).ms;
        created_at = (E.clock (suc (suc w.ticks))).iso;
        delivered_at = none;
        last_error = none;
      } in
      let (rs, replies, all) =
        h.exec (set_escrow (bump e) ∷ event_commands (some event)) w.remote in
      (event, refl, refl, refl, refl, refl, ground arith, ground arith, ground arith, ground arith)

  -- While Redis cannot be reached and the outbox is there, `persist` stores the escrow in the
  -- fallback map and then throws the error of the client, because the outbox has no fallback
  -- while a client is there.
  pub persist_outage :
      (w : World E.Remote) (e : Escrow) (kind m : String)
      → w.client ≡ true
      → IsDown m
      → E.has_outbox ≡ true
      → ((persist (copied e) (some kind) w).0 ≡ err (redis m))
        × (JsMap.get e.id (persist (copied e) (some kind) w).1.escrows ≡ some (bump e))
  unfolding persist Outbox.append rethrow_if_inconsistent
  persist_outage w e kind m on h present =
      let (event, w', made, client, remote, escrows, memory, there) =
        create_event_frame kind (bump e) w in
      elim (Option-cases event) [
        | inl gone ↦ absurd (ground arith)
        | inr (v, is_v) ↦
            let first = h.exec (set_escrow (bump e) ∷ event_commands event) w.remote in
            let second =
              h.exec (Outbox.append_commands v)
                (E.exec (set_escrow (bump e) ∷ event_commands event) w.remote).1 in
            (ground arith, ground (arith, get-set_self e.id (bump e) w.escrows))
      ]
