-- ===== src/Ingestion/Round.antt =====
-- The ledgers that one round of `EventIngestionService` covers, and where it puts the cursor.
use trustflow_backend.Prelude.{
  ℕ, Option-cases, ◌+◌, ◌≤◌, ◌<◌, max, String, ◌≡◌, refl, ap, ◌∙◌, Bool-cases, inl, inr, ◌⊎◌,
  Option, some, none, List, [], ◌∷◌, arith, keep, ltb, sym, subst, ◌<>◌,
}
use trustflow_backend.Prelude.Exec.{
  Error, message, throw, Result, ok, err, resume, recover, pure, ◌>>=◌, ◌>>◌, when_else,
  when_else_on, when_else_off,
}
use trustflow_backend.World.{Env, World, Action, call, log_error}
use trustflow_backend.Data.Ingestion.{SorobanEvent, ProcessedEvent, LedgerCheckpoint}
use trustflow_backend.Ingestion.Cursor.{get_cursor, update_cursor}
use trustflow_backend.Ingestion.Service.{
  Rpc, LedgerBounds, start_ledger, end_ledger, in_range, latest_of, fetch_pages, fetch_events,
  process_event_batch, get_ledger_bounds, get_network_hash, ingest_range, ingest_next,
}

latest_of_bounds :
    (first last start : ℕ) (events : List SorobanEvent)
    → first ≤ start
    → start ≤ last
    → (first ≤ latest_of start (keep (in_range first last) events))
      × (latest_of start (keep (in_range first last) events) ≤ last)
unfolding latest_of keep
latest_of_bounds first last start [] lo hi = (lo, hi)
latest_of_bounds first last start (e ∷ es) lo hi = elim (Bool-cases (in_range first last e)) [
  | inl within ↦
      let (lo', hi') =
        latest_of_bounds first last e.ledger es (ground (arith, within)) (ground (arith, within)) in
      (ground (arith, within, lo'), ground (arith, within, hi'))
  | inr without ↦
      let (lo', hi') = latest_of_bounds first last start es lo hi in
      (ground (arith, without, lo'), ground (arith, without, hi'))
]

-- Where a round starts: after the ledgers that are processed, and not before the oldest one there is.
abbrev pub Follows : Option LedgerCheckpoint → LedgerBounds → ℕ → Type 0
Follows none bounds first = bounds.oldest_ledger ≤ first
Follows (some c) bounds first = first ≡ max (c.last_processed_ledger + 1) bounds.oldest_ledger

module _ ⦃E : Env⦄ (R : Rpc E.Remote) (fuel : ℕ) (contract_id : String) where
  -- What a round does before it looks at the cursor again.
  abbrev pub gather : ℕ → ℕ → Action String
  gather first last = do
    events ← fetch_events R fuel contract_id first last
    process_event_batch events
    get_network_hash R

  -- A round over the ledgers from `first` to `last`: it throws what its first part throws and does no more,
  -- or it updates the cursor to one of these ledgers.
  pub data Covers (first last : ℕ) (gathered : Result String × World E.Remote)
      (out : Result (List ProcessedEvent) × World E.Remote) : Type 0 where
    threw :
        (e : Error)
        → gathered.0 ≡ err e
        → out ≡ (err e, gathered.1)
        → Covers first last gathered out
    updated :
        (hash : String) (ledger : ℕ) (position : String)
        → gathered.0 ≡ ok hash
        → first ≤ ledger
        → ledger ≤ last
        → out.1 ≡ (update_cursor contract_id ledger position hash gathered.1).1
        → Covers first last gathered out

  -- The part of a round after the events have been fetched.
  after_fetch :
      (first last : ℕ) (events : List SorobanEvent) (s : World E.Remote)
      → first ≤ latest_of last events
      → latest_of last events ≤ last
      → Covers first last ((process_event_batch events >> get_network_hash R) s) (
          (do
            processed ← process_event_batch events
            network_hash ← get_network_hash R
            update_cursor contract_id
                (latest_of last events)
                (E.number_text first <> "-" <> E.number_text last)
                network_hash
            pure processed)
            s)
  after_fetch first last events s lo hi = go (process_event_batch events s)
    where
      position : String
      position = E.number_text first <> "-" <> E.number_text last

      move : String → Action (Unit {0})
      move hash = update_cursor contract_id (latest_of last events) position hash

      ended :
          (ps : List ProcessedEvent) (u : Result (Unit {0}) × World E.Remote)
          → (resume u.0 (λ _. pure ps) u.1).1 ≡ u.1
      ended ps (ok x, v) = refl
      ended ps (err e, v) = refl

      named :
          (ps : List ProcessedEvent) (h : Result String × World E.Remote)
          → Covers first last h (resume h.0 (λ hash. move hash >> pure ps) h.1)
      named ps (ok hash, v) =
          updated hash (latest_of last events) position refl lo hi (ended ps (move hash v))
      named ps (err e, v) = threw e refl refl

      go :
          (o : Result (List ProcessedEvent) × World E.Remote)
          → Covers first last
              (resume o.0 (λ _. get_network_hash R) o.1)
              (resume o.0 (λ ps. get_network_hash R >>= (λ hash. move hash >> pure ps)) o.1)
      go (ok ps, v) = named ps (get_network_hash R v)
      go (err e, v) = threw e refl refl

  -- What is fetched is in the range that was asked for.
  fetched_in_range :
      (first last : ℕ) (s : World E.Remote) {events : List SorobanEvent}
      → (fetch_events R fuel contract_id first last s).0 ≡ ok events
      → (raw : List SorobanEvent) × (keep (in_range first last) raw ≡ events)
  unfolding fetch_events
  fetched_in_range first last s {events} h = go (fetch_pages R fuel contract_id first last none s) h
    where
      given :
          (raw : List SorobanEvent)
          → Result.ok (keep (in_range first last) raw) ≡ ok events
          → keep (in_range first last) raw ≡ events
      given raw e = cc

      go :
          (o : Result (List SorobanEvent) × World E.Remote)
          → (recover
              (resume o.0 (λ raw. pure (keep (in_range first last) raw)) o.1).0
              (λ e. do call (log_error "fetchEvents" (message e)); throw e)
              (resume o.0 (λ raw. pure (keep (in_range first last) raw)) o.1).1).0
            ≡ ok events
          → (raw : List SorobanEvent) × (keep (in_range first last) raw ≡ events)
      go (ok raw, v) e = (raw, given raw e)
      go (err x, v) e = cc

  range_covers :
      (first last : ℕ) (s : World E.Remote)
      → first ≤ last
      → Covers first last (gather first last s) (ingest_range R fuel contract_id first last s)
  unfolding ingest_range
  range_covers first last s le = go (fetch_events R fuel contract_id first last s) (λ events h.
      let (raw, same) = fetched_in_range first last s h in
      subst (λ es. (first ≤ latest_of last es) × (latest_of last es ≤ last)) same
        (latest_of_bounds first last last raw le (omega arith)))
    where
      go :
          (o : Result (List SorobanEvent) × World E.Remote)
          → ((events : List SorobanEvent)
              → o.0 ≡ ok events
              → (first ≤ latest_of last events) × (latest_of last events ≤ last))
          → Covers first last
              (resume o.0 (λ events. process_event_batch events >> get_network_hash R) o.1)
              (resume o.0
                (λ events. do
                  processed ← process_event_batch events
                  network_hash ← get_network_hash R
                  update_cursor contract_id
                      (latest_of last events)
                      (E.number_text first <> "-" <> E.number_text last)
                      network_hash
                  pure processed)
                o.1)
      go (ok events, v) within =
          let (lo, hi) = within events refl in after_fetch first last events v lo hi
      go (err e, v) within = threw e refl refl

  start-Follows :
      (checkpoint : Option LedgerCheckpoint) (bounds : LedgerBounds)
      → Follows checkpoint bounds (start_ledger checkpoint bounds)
        × (bounds.oldest_ledger ≤ start_ledger checkpoint bounds)
  unfolding start_ledger
  start-Follows (some c) bounds = (refl, omega arith)
  start-Follows none bounds = elim (Option-cases E.soroban_start_ledger) [
    | inl unset ↦ (ground (arith, unset), ground (arith, unset))
    | inr (n, set_) ↦ (ground (arith, set_), ground (arith, set_))
  ]

  end_within :
      (first : ℕ) (bounds : LedgerBounds)
      → bounds.oldest_ledger ≤ first
      → (end_ledger first bounds < first + 100) × (end_ledger first bounds ≤ bounds.latest_ledger)
  unfolding end_ledger
  end_within first bounds h = (omega arith, omega arith)

  -- A round whose checkpoint and whose bounds of the network have been read covers at most 100 ledgers, up
  -- to the network's latest one at most. With a checkpoint they start at the first one that is not
  -- processed and that the network still has, without one at none older than the network's oldest. If
  -- there is none, the round does nothing more; else it fetches and processes the events of these
  -- ledgers, and then it throws what that throws, or updates the cursor to one of these ledgers.
  pub round_covers :
      (w : World E.Remote) (checkpoint : Option LedgerCheckpoint) (bounds : LedgerBounds)
      → (get_cursor contract_id w).0 ≡ ok checkpoint
      → (get_ledger_bounds R (get_cursor contract_id w).1).0 ≡ ok bounds
      → let ready = (get_ledger_bounds R (get_cursor contract_id w).1).1 in
        let out = ingest_next R fuel contract_id w in
        (first : ℕ) × (last : ℕ) × Follows checkpoint bounds first
        × (bounds.oldest_ledger ≤ first)
        × (last < first + 100)
        × (last ≤ bounds.latest_ledger)
        × (((last < first) × (out ≡ (ok [], ready)))
            ⊎ ((first ≤ last) × Covers first last (gather first last ready) out))
  unfolding ingest_next
  round_covers w checkpoint bounds read known =
      let first = start_ledger checkpoint bounds in
      let last = end_ledger first bounds in
      let (follows, oldest) = start-Follows checkpoint bounds in
      let (short, latest) = end_within first bounds oldest in
      let s = (get_cursor contract_id w).1 in
      let ready = (get_ledger_bounds R s).1 in
      let round : LedgerBounds → Action (List ProcessedEvent) = λ b.
        when_else (ltb (end_ledger (start_ledger checkpoint b) b) (start_ledger checkpoint b))
          (pure [])
          (ingest_range R fuel contract_id (start_ledger checkpoint b)
            (end_ledger (start_ledger checkpoint b) b)) in
      let run : ingest_next R fuel contract_id w ≡ round bounds ready =
        ap
          (λ (o : Result (Option LedgerCheckpoint)).
            resume o
              (λ c. do
                b ← get_ledger_bounds R
                when_else (ltb (end_ledger (start_ledger c b) b) (start_ledger c b)) (pure []) (
                    ingest_range R fuel contract_id (start_ledger c b)
                      (end_ledger (start_ledger c b) b)))
              s)
          read
        ∙ ap (λ (o : Result LedgerBounds). resume o round ready) known in
      elim (Bool-cases (ltb last first)) [
        | inl over ↦ (
          first,
          last,
          follows,
          oldest,
          short,
          latest,
          inl (ground (arith, over), run ∙ when_else_on _ _ _ ready over),
        )
        | inr more ↦
            let le : first ≤ last = ground (arith, more) in
            (
              first,
              last,
              follows,
              oldest,
              short,
              latest,
              inr (
                le,
                subst (Covers first last (gather first last ready))
                    (sym (run ∙ when_else_off _ _ _ ready more)) (range_covers first last ready le),
              ),
            )
      ]
