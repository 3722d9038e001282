-- ===== src/Escrow/Local.antt =====
-- `EscrowService` with no Redis client: what loading and persisting an escrow come to.
use trustflow_backend.Prelude.{String, ◌≡◌, Option, none, some, false, arith, if◌then◌else◌, str_eq}
use trustflow_backend.Prelude.Exec.{ok, err, not_found}
use trustflow_backend.Prelude.JsMap
use trustflow_backend.Prelude.JsMap.{JsMap, get-set}
use trustflow_backend.World.{Env, World}
use trustflow_backend.Data.Escrow.{Escrow}
use trustflow_backend.Outbox.Queue as Outbox
use trustflow_backend.Escrow.Store.{stored, bump, find_by_id, persist}
use trustflow_backend.Escrow.Lifecycle.{load}

module _ ⦃E : Env⦄ (w : World E.Remote) (off : w.client ≡ false) where
  pub find_by_id_local :
      (id : String) {e : Escrow}
      → JsMap.get id w.escrows ≡ some e
      → find_by_id id w ≡ (ok (some (stored e)), w)
  unfolding find_by_id
  find_by_id_local id g = ground arith

  pub load_local :
      (id : String) {e : Escrow} → JsMap.get id w.escrows ≡ some e → load id w ≡ (ok (stored e), w)
  unfolding load
  load_local id g = ground arith

  pub load_missing :
      (id : String)
      → JsMap.get id w.escrows ≡ none
      → load id w ≡ (err (not_found "Escrow not found"), w)
  unfolding load
  load_missing id g = ground arith

module _ ⦃E : Env⦄ where
  pub persist_result :
      (w : World E.Remote) (e : Escrow) (kind : Option String)
      → w.client ≡ false
      → (persist (stored e) kind w).0 ≡ ok (stored (bump e))
  unfolding persist Outbox.append
  persist_result w e none off = ground arith
  persist_result w e (some kind) off = ground arith

  pub persist_client :
      (w : World E.Remote) (e : Escrow) (kind : Option String)
      → w.client ≡ false
      → (persist (stored e) kind w).1.client ≡ false
  unfolding persist Outbox.append
  persist_client w e none off = ground arith
  persist_client w e (some kind) off = ground arith

  pub persist_at :
      (w : World E.Remote) (e : Escrow) (kind : Option String)
      → w.client ≡ false
      → (id : String)
      → JsMap.get id (persist (stored e) kind w).1.escrows
        ≡ (if str_eq e.id id then some (bump e) else JsMap.get id w.escrows)
  unfolding persist Outbox.append
  persist_at w e none off id = ground (
    arith,
    get-set e.id id (bump e) w.escrows,
    get-set e.id id (bump e) (JsMap.set e.id (bump e) w.escrows),
  )
  persist_at w e (some kind) off id = ground (
    arith,
    get-set e.id id (bump e) w.escrows,
    get-set e.id id (bump e) (JsMap.set e.id (bump e) w.escrows),
  )
