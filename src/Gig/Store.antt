-- ===== src/Gig/Store.antt =====
-- How `GigService` finds and writes gigs: in Redis while it answers, else in a map.
use trustflow_backend.Prelude.{
  ℕ, ◌+◌, ◌*◌, String, ◌<>◌, Option, none, some, List, [], ◌∷◌, ◌++◌, Bool, true, false, not, ◌&&◌,
  map, keep, sort_by, take, drop, length, leb, str_eq, truthy, or_default,
}
use trustflow_backend.Prelude.Exec.{
  Error, plain, not_found, pure, throw, gets, modify, when_else, or_throw, throw_if, ◌>>=◌, ◌>>◌,
}
use trustflow_backend.Prelude.JsMap
use trustflow_backend.Prelude.JsMap.{values}
use trustflow_backend.Redis.{
  Command, set, set_ex, zadd, zrem, sadd, del_many, assert_transaction_applied,
  is_transaction_integrity_error,
}
use trustflow_backend.Data.Gig.{
  Gig, GigStatus, open_gig, same_status, gig_status_text, PaginatedGigs, CreateGigDto,
  SearchGigsQuery, CreatorOptions,
}
use trustflow_backend.Data.Page.{Paging, normalize_pagination, paginate, query_of}
use trustflow_backend.Data.Outbox.{OutboxEvent, of_gig}
use trustflow_backend.World.{Env, World, Action, ask, get_now, random_uuid, increment, with_redis}
use trustflow_backend.Outbox.Queue as Outbox

abbrev pub gig_key : String → String
gig_key id = "gig:" <> id

abbrev pub gigs_index_key : String
gigs_index_key = "gigs:index"

abbrev pub open_index_key : String
open_index_key = "gigs:open:respondBy"

abbrev pub creator_key : String → String
creator_key address = "gigs:by-creator:" <> address

abbrev pub search_keys_set : String
search_keys_set = "gigs:search:cache-keys"

-- A gig in a caller's hand: the object of the map itself (`live`), or a copy from Redis.
pub record FoundGig : Type 0 where
  pub gig : Gig
  pub live : Bool

abbrev pub held : Option Gig → Option FoundGig
held none = none
held (some g) = some (record { gig = g; live = true })

abbrev pub is_status : GigStatus → Gig → Bool
is_status s g = same_status g.status s

abbrev pub put : {R : Type 0} → Gig → World R → World R
put g w = record w { gigs = JsMap.set g.id g w.gigs }

module _ ⦃E : Env⦄ where
  unfoldable pub on_module_init : Action (Unit {0})
  on_module_init w =
      throw_if (not w.client && E.production)
        (plain "GigService requires REDIS_URL to be configured in production") w

  abbrev pub log_fallback : String → Action (Unit {0})
  log_fallback operation = increment ("gig_persistence_fallback_total:" <> operation)

  -- if (isTransactionIntegrityError(err)) throw err
  abbrev pub or_fallback : String → Error → Action (Unit {0})
  or_fallback operation e =
      when_else (is_transaction_integrity_error e) (throw e) (log_fallback operation)

  unfoldable pub parse_gig : Option String → Action (Option FoundGig)
  parse_gig none = pure none
  parse_gig (some raw) = elim (E.gig_json.parse raw) [
    | none ↦ throw (plain "SyntaxError")
    | some g ↦ pure (some (record { gig = g; live = false }))
  ]

  unfoldable pub try_find_by_id : String → Action (Option FoundGig)
  unfolding parse_gig truthy
  try_find_by_id id =
      with_redis (do raw ← ask (E.get (gig_key id)); parse_gig (truthy raw))
        (λ e. log_fallback "findById") (gets (λ w. held (JsMap.get id w.gigs)))

  unfoldable pub find_by_id : String → Action FoundGig
  unfolding try_find_by_id
  find_by_id id = do
    found ← try_find_by_id id
    or_throw found (not_found ("Gig " <> id <> " not found"))

  unfoldable pub parse_all : List (Option String) → Action (List Gig)
  parse_all [] = pure []
  parse_all (none ∷ rest) = parse_all rest
  parse_all (some raw ∷ rest) = elim (E.gig_json.parse raw) [
    | none ↦ throw (plain "SyntaxError")
    | some g ↦ do gs ← parse_all rest; pure (g ∷ gs)
  ]

  unfoldable pub fetch_many : List String → Action (List Gig)
  unfolding parse_all
  fetch_many [] = pure []
  fetch_many (id ∷ ids) = do raw ← ask (E.mget (map gig_key (id ∷ ids))); parse_all raw

  unfoldable pub find_all : Action (List Gig)
  unfolding fetch_many
  find_all =
      with_redis (do ids ← ask (E.zrange gigs_index_key); fetch_many ids)
        (λ e. log_fallback "findAll") (gets (λ w. values w.gigs))

  abbrev pub status_filter : Option GigStatus → List Gig → List Gig
  status_filter none gigs = gigs
  status_filter (some s) gigs = keep (is_status s) gigs

  -- The filters on the budget.
  abbrev pub budget_filter : Option String → Option String → List Gig → List Gig
  budget_filter low high gigs = elim high [
    | none ↦ above low gigs
    | some most ↦ keep (λ g. E.amount_le g.budget_xlm most) (above low gigs)
  ]
    where
      above : Option String → List Gig → List Gig
      above none gs = gs
      above (some least) gs = keep (λ g. E.amount_ge g.budget_xlm least) gs

  -- { data, total }
  unfoldable pub find_by_creator : String → CreatorOptions → Action (List Gig × ℕ)
  unfolding fetch_many
  find_by_creator address options = do
    gigs ←
        with_redis (do ids ← ask (E.smembers (creator_key address)); fetch_many ids)
          (λ e. log_fallback "findByCreator")
          (gets (λ w. keep (λ g. str_eq g.creator address) (values w.gigs)))
    let found =
        budget_filter options.min_budget_xlm options.max_budget_xlm
          (status_filter options.status gigs)
    pure (
      take (or_default options.limit 20) (drop (or_default options.offset 0) found),
      length found,
    )

  unfoldable pub find_by_status : GigStatus → Action (List Gig)
  find_by_status status = do all ← find_all; pure (keep (is_status status) all)

  -- `now` is the time in milliseconds, which the callers leave to `new Date()`.
  unfoldable pub find_expirable : ℕ → Action (List Gig)
  unfolding fetch_many
  find_expirable now =
      with_redis
        (do
          ids ← ask (E.zrangebyscore open_index_key now)
          gigs ← fetch_many ids
          pure (keep (is_status open_gig) gigs))
        (λ e. log_fallback "findExpirable")
        (gets (λ w.
          keep (λ g. is_status open_gig g && leb (E.time_of g.respond_by) now) (values w.gigs)))

  -- The pages of the search that are cached
  abbrev pub search_cache_key : GigStatus → Paging → Option String → Option String → String
  search_cache_key status p low high =
      "gigs:search:"
      <> gig_status_text status
      <> ":"
      <> E.number_text p.page
      <> ":"
      <> E.number_text p.limit
      <> ":"
      <> E.filter_hash low high

  abbrev parse_page : Option String → Action (Option PaginatedGigs)
  parse_page none = pure none
  parse_page (some raw) = elim (E.page_json.parse raw) [
    | none ↦ throw (plain "SyntaxError")
    | some p ↦ pure (some p)
  ]

  unfoldable pub read_search_cache : String → Action (Option PaginatedGigs)
  unfolding truthy
  read_search_cache key =
      with_redis (do raw ← ask (E.get key); parse_page (truthy raw))
        (λ e. log_fallback "search:cache-read") (pure none)

  unfoldable pub write_search_cache : String → PaginatedGigs → Action (Unit {0})
  write_search_cache key page =
      with_redis
        (do
          ask (
              E.command (
                set_ex key (E.page_json.stringify page)
                  (or_default E.gig_search_cache_ttl_seconds 30)))
          ask (E.command (sadd search_keys_set key)))
        (λ e. log_fallback "search:cache-write") (pure tt)

  abbrev drop_pages : List String → Action (Unit {0})
  drop_pages [] = pure tt
  drop_pages (k ∷ keys) = ask (E.command (del_many ((k ∷ keys) ++ search_keys_set ∷ [])))

  unfoldable pub invalidate_search_cache : Action (Unit {0})
  invalidate_search_cache =
      with_redis (do keys ← ask (E.smembers search_keys_set); drop_pages keys)
        (λ e. log_fallback "search:cache-invalidate") (pure tt)

  -- The gigs that a search lists, newest first.
  unfoldable pub matching : GigStatus → SearchGigsQuery → List Gig → List Gig
  unfolding sort_by
  matching status query all =
      budget_filter query.min_budget_xlm query.max_budget_xlm
        (sort_by (λ a b. E.locale_after b.created_at a.created_at) (keep (is_status status) all))

  abbrev pub search_fresh :
      GigStatus → Paging → SearchGigsQuery → String → Option PaginatedGigs → Action PaginatedGigs
  search_fresh status p query key (some cached) = pure cached
  search_fresh status p query key none = do
    all ← find_all
    let result = paginate (matching status query all) (query_of p)
    write_search_cache key result
    pure result

  unfoldable pub search : SearchGigsQuery → Action PaginatedGigs
  unfolding matching paginate read_search_cache write_search_cache
  search query = do
    let status = or_default query.status open_gig
    let p = normalize_pagination query.paging
    let key = search_cache_key status p query.min_budget_xlm query.max_budget_xlm
    cached ← read_search_cache key
    search_fresh status p query key cached

  -- this.outbox?.create(type, 'gig', id, gig)
  abbrev pub create_event : String → Gig → Action (Option OutboxEvent)
  create_event kind g =
      when_else E.has_outbox
        (do event ← Outbox.create kind "gig" g.id (of_gig g); pure (some event)) (pure none)

  abbrev pub event_commands : Option OutboxEvent → List Command
  event_commands none = []
  event_commands (some event) = Outbox.append_commands event

  abbrev pub append_event : Option OutboxEvent → Action (Unit {0})
  append_event none = pure tt
  append_event (some event) = Outbox.append event

  abbrev pub set_gig : Gig → Command
  set_gig g = set (gig_key g.id) (E.gig_json.stringify g)

  -- A MULTI whose failure is handled by `handle`, or the map.
  abbrev pub transact :
      List Command → (Error → Action (Unit {0})) → Action (Unit {0}) → Action (Unit {0})
  transact commands handle local =
      with_redis
        (do
          results ← ask (E.exec commands)
          assert_transaction_applied results
          invalidate_search_cache)
        handle (do local; invalidate_search_cache)

  abbrev pub deadline : ℕ → ℕ → String
  deadline now hours = E.iso_of (now + hours * 60 * 60 * 1000)

  unfoldable pub create : CreateGigDto → Action Gig
  unfolding invalidate_search_cache
  create dto = do
    stamp ← get_now
    suffix ← random_uuid
    now ← get_now
    let g : Gig = record {
      id = "gig-" <> E.number_text stamp.ms <> "-" <> suffix;
      creator = dto.creator;
      title = dto.title;
      budget_xlm = dto.budget_xlm;
      status = open_gig;
      created_at = now.iso;
      respond_by = deadline now.ms (or_default dto.response_window_hours 72);
      accepted_by = none;
      accepted_at = none;
      expired_at = none;
      cancelled_at = none;
      version = 1;
    }
    event ← create_event "gig.created" g
    transact
        (set_gig g
          ∷ zadd gigs_index_key now.ms g.id
          ∷ zadd open_index_key (E.time_of g.respond_by) g.id
          ∷ sadd (creator_key g.creator) g.id
          ∷ event_commands event)
        (λ e. log_fallback "create") (do modify (put g); append_event event)
    pure g

  unfoldable pub assign : FoundGig → Gig → Action FoundGig
  assign f g = do
    when_else f.live (modify (put g)) (pure tt)
    pure (record { gig = g; live = f.live })

  unfoldable pub persist_resolved : Gig → String → Action (Unit {0})
  unfolding invalidate_search_cache Outbox.create
  persist_resolved g event_type = do
    event ← create_event event_type g
    transact (set_gig g ∷ zrem open_index_key g.id ∷ event_commands event)
        (or_fallback "persistResolved") (do modify (put g); append_event event)

  unfoldable pub persist_gig : Gig → Action (Unit {0})
  unfolding invalidate_search_cache
  persist_gig g =
      transact (set_gig g ∷ zadd open_index_key (E.time_of g.respond_by) g.id ∷ [])
        (or_fallback "persistGig") (modify (put g))
