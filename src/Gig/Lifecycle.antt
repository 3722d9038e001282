-- ===== src/Gig/Lifecycle.antt =====
-- The changes of a gig in `GigService`, each tried up to three times against concurrent writers.
use trustflow_backend.Prelude.{
  ℕ, zero, suc, ◌+◌, String, ◌<>◌, Option, none, some, [], ◌∷◌, Bool, false, not, ◌&&◌, ◌||◌, ◌==◌,
  or_default, includes, if◌then◌else◌,
}
use trustflow_backend.Prelude.Exec.{
  Error, plain, not_found, bad_request, conflict, message, pure, throw, modify, when_else, throw_if,
  try_catch, ◌>>=◌, ◌>>◌,
}
use trustflow_backend.Prelude.JsMap
use trustflow_backend.Redis.{del, zrem, srem, watch, unwatch, is_transaction_integrity_error}
use trustflow_backend.Data.Gig.{
  Gig, GigStatus, open_gig, accepted, expired, cancelled, gig_status_text, UpdateGigDto,
}
use trustflow_backend.World.{Env, Action, ask, get_now, when_do}
use trustflow_backend.Gig.Store.{
  FoundGig, gig_key, gigs_index_key, open_index_key, creator_key, is_status, log_fallback,
  or_fallback, try_find_by_id, assign, persist_resolved, persist_gig, transact, deadline,
}

-- gig.version || 1
abbrev pub version_of : Gig → ℕ
version_of g = if g.version == 0 then 1 else g.version

abbrev pub max_retries : ℕ
max_retries = 3

-- The errors after which another attempt is made.
abbrev pub is_retryable : Error → Bool
is_retryable e =
    is_transaction_integrity_error e || includes (message e) "In-memory transaction aborted"

abbrev pub is_open : Gig → Bool
is_open = is_status open_gig

-- The assignments of `update`.
abbrev pub updated : UpdateGigDto → String → Gig → Gig
updated dto respond_by g = record g {
  title = or_default dto.title g.title;
  budget_xlm = or_default dto.budget_xlm g.budget_xlm;
  respond_by = respond_by;
  version = version_of g + 1;
}

-- What a call throws on a gig that is no longer open.
abbrev pub refusal : String → GigStatus → Error
refusal verb s = bad_request ("Cannot " <> verb <> " a gig with status " <> gig_status_text s)

module _ ⦃E : Env⦄ where
  abbrev pub unwatch_quietly : Action (Unit {0})
  unwatch_quietly w = when_do w.client (try_catch (ask (E.command unwatch)) (λ e. pure tt)) w

  abbrev pub watch_gig : String → Action (Unit {0})
  watch_gig id w =
      when_do w.client
        (try_catch (ask (E.command (watch (gig_key id)))) (λ e. log_fallback "watch")) w

  abbrev aborted_at : ℕ → Option Gig → Bool
  aborted_at version none = false
  aborted_at version (some g) = not (g.version == version + 1)

  -- The compare-and-set of the map, after the operation.
  unfoldable pub check_memory : String → ℕ → Action (Unit {0})
  check_memory id version w =
      throw_if (not w.client && aborted_at version (JsMap.get id w.gigs))
        (plain "In-memory transaction aborted") w

  module _ {A : Type 0} where
    -- One attempt on the gig that was found; `again` is the rest of the loop.
    unfoldable pub attempt : String → (FoundGig → Action A) → Action A → Option FoundGig → Action A
    unfolding check_memory
    attempt id operation again none = do
      unwatch_quietly
      throw (not_found ("Gig " <> id <> " not found"))
    attempt id operation again (some f) =
        try_catch (do result ← operation f; check_memory id (version_of f.gig); pure result)
          (λ e. do unwatch_quietly; when_else (is_retryable e) again (throw e))

    unfoldable pub mutate : ℕ → String → (FoundGig → Action A) → Action A
    unfolding attempt
    mutate zero id operation =
        throw (conflict ("Failed to modify gig " <> id <> " due to concurrent modifications"))
    mutate (suc n) id operation = do
      watch_gig id
      found ← try_find_by_id id
      attempt id operation (mutate n id operation) found

    abbrev pub mutate_with_retry : String → (FoundGig → Action A) → Action A
    mutate_with_retry id operation = mutate max_retries id operation

  abbrev pub require_open : String → Gig → Action (Unit {0})
  require_open verb g = throw_if (not (is_open g)) (refusal verb g.status)

  -- The assignments to the gig, its new version included, and the write.
  abbrev pub resolve : FoundGig → Gig → String → Action Gig
  resolve f g event_type = do
    f' ← assign f (record g { version = version_of f.gig + 1 })
    persist_resolved f'.gig event_type
    pure f'.gig

  unfoldable pub accepting : String → FoundGig → Action Gig
  accepting responder f = do
    require_open "accept" f.gig
    now ← get_now
    resolve f
        (record (f.gig) {
          status = accepted;
          accepted_by = some responder;
          accepted_at = some now.iso;
        })
        "gig.accepted"

  unfoldable pub accept : String → String → Action Gig
  unfolding accepting mutate
  accept id responder = mutate_with_retry id (accepting responder)

  unfoldable pub cancelling : FoundGig → Action Gig
  cancelling f = do
    require_open "cancel" f.gig
    now ← get_now
    resolve f (record (f.gig) { status = cancelled; cancelled_at = some now.iso }) "gig.cancelled"

  unfoldable pub cancel : String → Action Gig
  unfolding cancelling mutate
  cancel id = mutate_with_retry id cancelling

  -- Date.now() is read only if the window is set.
  abbrev pub new_deadline : Option ℕ → Gig → Action String
  new_deadline none g = pure g.respond_by
  new_deadline (some hours) g = do now ← get_now; pure (deadline now.ms hours)

  unfoldable pub updating : UpdateGigDto → FoundGig → Action Gig
  updating dto f = do
    require_open "update" f.gig
    respond_by ← new_deadline dto.response_window_hours f.gig
    f' ← assign f (updated dto respond_by f.gig)
    persist_gig f'.gig
    pure f'.gig

  unfoldable pub update : String → UpdateGigDto → Action Gig
  unfolding updating mutate
  update id dto = mutate_with_retry id (updating dto)

  unfoldable pub removing : String → FoundGig → Action (Unit {0})
  removing id f = do
    throw_if (is_status accepted f.gig) (bad_request "Cannot delete an accepted gig")
    transact
        (del (gig_key id)
          ∷ zrem gigs_index_key id
          ∷ zrem open_index_key id
          ∷ srem (creator_key f.gig.creator) id
          ∷ [])
        (or_fallback "remove") (modify (λ w. record w { gigs = JsMap.delete id w.gigs }))

  unfoldable pub remove : String → Action (Unit {0})
  unfolding removing mutate
  remove id = mutate_with_retry id (removing id)

  unfoldable pub expiring : FoundGig → Action (Option Gig)
  expiring f = when_else (not (is_open f.gig)) (pure none) (do
    now ← get_now
    g ← resolve f (record (f.gig) { status = expired; expired_at = some now.iso }) "gig.expired"
    pure (some g))

  unfoldable pub expire : String → Action (Option Gig)
  unfolding expiring mutate
  expire id = mutate_with_retry id expiring
