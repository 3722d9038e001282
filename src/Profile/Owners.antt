-- ===== src/Profile/Owners.antt =====
-- The operations keep the index of wallets, with no Redis client.
use trustflow_backend.Prelude.{
  ℕ, suc, ◌≡◌, refl, String, none, some, false, arith, ap, sym, subst, str_eq, Option-cases,
  Bool-cases, inl, inr,
}
use trustflow_backend.Prelude.Exec.{Result, ok, err, conflict, resume, pure}
use trustflow_backend.Prelude.JsMap
use trustflow_backend.Prelude.JsMap.{get-set_self}
use trustflow_backend.Data.Profile.{UserProfile, CreateUserProfileDto, UpdateUserProfileDto}
use trustflow_backend.World.{Env, World, Instant}
use trustflow_backend.Profile.Store.{put}
use trustflow_backend.Profile.Service.{
  create, amend, update, rate_user, increment_completed_jobs, verify_user, delete, new_profile,
  update_total_earned, update_total_spent, update_last_active, amount_or_zero, store_local,
  drop_local, with_update, with_rating,
}
use trustflow_backend.Profile.Index.{
  IsIndexed, store_local-IsIndexed, put-IsIndexed, drop_local-IsIndexed,
}

-- A request to the service.
pub data Request : Type 0 where
  to_create : CreateUserProfileDto → Request
  to_update : String → UpdateUserProfileDto → Request
  to_rate : String → ℕ → Request
  to_count_job : String → Request
  to_verify : String → Request
  to_earn : String → String → Request
  to_spend : String → String → Request
  to_touch : String → Request
  to_delete : String → Request

module _ ⦃E : Env⦄ where
  abbrev pub serve : Request → World E.Remote → World E.Remote
  serve (to_create dto) w = (create dto w).1
  serve (to_update id dto) w = (update id dto w).1
  serve (to_rate id rating) w = (rate_user id rating w).1
  serve (to_count_job id) w = (increment_completed_jobs id w).1
  serve (to_verify id) w = (verify_user id w).1
  serve (to_earn id amount) w = (update_total_earned id amount w).1
  serve (to_spend id amount) w = (update_total_spent id amount w).1
  serve (to_touch id) w = (update_last_active id w).1
  serve (to_delete id) w = (delete id w).1

  module _ (w : World E.Remote) (off : w.client ≡ false) where
    create-taken :
        (dto : CreateUserProfileDto) {id : String} {p : UserProfile}
        → JsMap.get dto.wallet_address w.wallet_index ≡ some id
        → str_eq id "" ≡ false
        → JsMap.get id w.profiles ≡ some p
        → create dto w ≡ (err (conflict "Profile with this wallet address already exists"), w)
    unfolding create
    create-taken dto linked named there = ground (arith, off, linked, named, there)

    create-free :
        (dto : CreateUserProfileDto)
        → JsMap.get dto.wallet_address w.wallet_index ≡ none
        → (create dto w).1
          ≡ store_local
              (new_profile dto (E.random w.draws) (E.clock w.ticks).iso)
              (record w { draws = suc w.draws; ticks = suc w.ticks })
    unfolding create
    create-free dto free = ground (arith, off, free)

    amend-missing :
        (id : String) (change : Instant → UserProfile → UserProfile)
        → JsMap.get id w.profiles ≡ none
        → (amend id change w).1 ≡ w
    unfolding amend
    amend-missing id change gone = ground (arith, off, gone)

    amend-found :
        (id : String) (change : Instant → UserProfile → UserProfile) {p : UserProfile}
        → JsMap.get id w.profiles ≡ some p
        → (amend id change w).1
          ≡ put
              (change (E.clock w.ticks) p)
              (put (change (E.clock w.ticks) p) (record w { ticks = suc w.ticks }))
    unfolding amend
    amend-found id change there = ground (arith, off, there)

    delete-missing : (id : String) → JsMap.get id w.profiles ≡ none → (delete id w).1 ≡ w
    unfolding delete
    delete-missing id gone = ground (arith, off, gone)

    delete-found :
        (id : String) {p : UserProfile}
        → JsMap.get id w.profiles ≡ some p
        → (delete id w).1 ≡ drop_local p id w
    unfolding delete
    delete-found id there = ground (arith, off, there)

    module _ (h : IsIndexed w) where
      -- A profile that is found, assigned to and stored, in a state with the same profiles.
      written-IsIndexed :
          (id : String) (p q : UserProfile)
          → JsMap.get id w.profiles ≡ some p
          → q.id ≡ p.id
          → q.wallet_address ≡ p.wallet_address
          → IsIndexed (put q (put q (record w { ticks = suc w.ticks })))
      written-IsIndexed id p q there same_id same_wallet =
          let read : World E.Remote = record w { ticks = suc w.ticks } in
          let read-IsIndexed : IsIndexed read = record {
            by_wallet = h.by_wallet;
            by_id = h.by_id;
          } in
          let once = put-IsIndexed read read-IsIndexed id p q there same_id same_wallet in
          put-IsIndexed (put q read) once q.id q q (get-set_self q.id q w.profiles) refl refl

      amend-IsIndexed :
          (id : String) (change : Instant → UserProfile → UserProfile)
          → ((now : Instant) (p : UserProfile)
              → ((change now p).id ≡ p.id) × ((change now p).wallet_address ≡ p.wallet_address))
          → IsIndexed (amend id change w).1
      amend-IsIndexed id change keeps = elim (Option-cases (JsMap.get id w.profiles)) [
        | inl gone ↦ subst IsIndexed (sym (amend-missing id change gone)) h
        | inr (p, there) ↦
            let q = change (E.clock w.ticks) p in
            let (same_id, same_wallet) = keeps (E.clock w.ticks) p in
            subst IsIndexed (sym (amend-found id change there))
              (written-IsIndexed id p q there same_id same_wallet)
      ]

      total-IsIndexed : (id amount : String) → IsIndexed (update_total_earned id amount w).1
      unfolding update_total_earned
      total-IsIndexed id amount = elim (Bool-cases (E.is_no_amount amount)) [
        | inl bad ↦ rw bad h
        | inr good ↦ elim (Option-cases (JsMap.get id w.profiles)) [
          | inl gone ↦ subst IsIndexed (ground (arith, off, good, gone)) h
          | inr (p, there) ↦ elim (Bool-cases (E.is_no_amount (amount_or_zero p.total_earned))) [
            | inl unread ↦ subst IsIndexed (ground (arith, off, good, there, unread)) h
            | inr sound ↦
                let q : UserProfile = record p {
                  total_earned = some (E.amount_sum (amount_or_zero p.total_earned) amount);
                  updated_at = (E.clock w.ticks).iso;
                } in
                subst IsIndexed (ground (arith, off, good, there, sound))
                  (written-IsIndexed id p q there refl refl)
          ]
        ]
      ]

      spent-IsIndexed : (id amount : String) → IsIndexed (update_total_spent id amount w).1
      unfolding update_total_spent
      spent-IsIndexed id amount = elim (Bool-cases (E.is_no_amount amount)) [
        | inl bad ↦ rw bad h
        | inr good ↦ elim (Option-cases (JsMap.get id w.profiles)) [
          | inl gone ↦ subst IsIndexed (ground (arith, off, good, gone)) h
          | inr (p, there) ↦ elim (Bool-cases (E.is_no_amount (amount_or_zero p.total_spent))) [
            | inl unread ↦ subst IsIndexed (ground (arith, off, good, there, unread)) h
            | inr sound ↦
                let q : UserProfile = record p {
                  total_spent = some (E.amount_sum (amount_or_zero p.total_spent) amount);
                  updated_at = (E.clock w.ticks).iso;
                } in
                subst IsIndexed (ground (arith, off, good, there, sound))
                  (written-IsIndexed id p q there refl refl)
          ]
        ]
      ]

      delete-IsIndexed : (id : String) → IsIndexed (delete id w).1
      delete-IsIndexed id = elim (Option-cases (JsMap.get id w.profiles)) [
        | inl gone ↦ subst IsIndexed (sym (delete-missing id gone)) h
        | inr (p, there) ↦
            subst IsIndexed (sym (delete-found id there)) (drop_local-IsIndexed w h id p there)
      ]

      create-IsIndexed :
          (dto : CreateUserProfileDto)
          → str_eq (E.random w.draws) "" ≡ false
          → JsMap.get (E.random w.draws) w.profiles ≡ none
          → IsIndexed (create dto w).1
      create-IsIndexed dto named fresh =
          elim (Option-cases (JsMap.get dto.wallet_address w.wallet_index)) [
            | inl free ↦
                let read : World E.Remote = record w { draws = suc w.draws; ticks = suc w.ticks } in
                let read-IsIndexed : IsIndexed read = record {
                  by_wallet = h.by_wallet;
                  by_id = h.by_id;
                } in
                let p = new_profile dto (E.random w.draws) (E.clock w.ticks).iso in
                subst IsIndexed (sym (create-free dto free))
                  (store_local-IsIndexed read read-IsIndexed p named fresh free)
            | inr (id, linked) ↦
                let (p, there, of_wallet, named') = h.by_wallet dto.wallet_address id linked in
                subst IsIndexed (sym (ap (λ o. o.1) (create-taken dto linked named' there))) h
          ]

  touched :
      (w : World E.Remote) (id : String)
      → (update_last_active id w).1
        ≡ (amend id (λ now p. record p { last_active_at = some now.iso }) w).1
  touched w id =
      go (amend id (λ now p. record p { last_active_at = some now.iso }) w).0
        (amend id (λ now p. record p { last_active_at = some now.iso }) w).1
    where
      go : (r : Result UserProfile) (s : World E.Remote) → (resume r (λ _. pure (tt {0})) s).1 ≡ s
      go (ok p) s = refl
      go (err e) s = refl

  -- With no client, every operation that writes profiles keeps the index of wallets, when the next random id is not
  -- empty and not taken: every wallet in the index has one profile, of that wallet, and every profile is
  -- in the index under its wallet. So no wallet gets a second profile.
  pub serve-IsIndexed :
      (request : Request) (w : World E.Remote)
      → w.client ≡ false
      → str_eq (E.random w.draws) "" ≡ false
      → JsMap.get (E.random w.draws) w.profiles ≡ none
      → IsIndexed w
      → IsIndexed (serve request w)
  unfolding with_rating
  serve-IsIndexed (to_create dto) w off named fresh h = create-IsIndexed w off h dto named fresh
  serve-IsIndexed (to_update id dto) w off named fresh h =
      amend-IsIndexed w off h id (with_update dto) (λ now p. (refl, refl))
  serve-IsIndexed (to_rate id rating) w off named fresh h =
      amend-IsIndexed w off h id (with_rating rating) (λ now p. (refl, refl))
  serve-IsIndexed (to_count_job id) w off named fresh h =
      amend-IsIndexed w off h id _ (λ now p. (refl, refl))
  serve-IsIndexed (to_verify id) w off named fresh h =
      amend-IsIndexed w off h id _ (λ now p. (refl, refl))
  serve-IsIndexed (to_earn id amount) w off named fresh h = total-IsIndexed w off h id amount
  serve-IsIndexed (to_spend id amount) w off named fresh h = spent-IsIndexed w off h id amount
  serve-IsIndexed (to_touch id) w off named fresh h =
      subst IsIndexed (sym (touched w id)) (amend-IsIndexed w off h id _ (λ now p. (refl, refl)))
  serve-IsIndexed (to_delete id) w off named fresh h = delete-IsIndexed w off h id
