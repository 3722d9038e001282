-- ===== src/Profile/Index.antt =====
-- The index of wallets, with no Redis client: every wallet has at most one profile.
use trustflow_backend.Prelude.{
  ◌≡◌, sym, ap, ◌∙◌, subst, String, none, some, false, arith, str_eq, eq_iff, Bool-cases, inl, inr,
}
use trustflow_backend.Prelude.JsMap
use trustflow_backend.Prelude.JsMap.{JsMap, get-set, get-delete}
use trustflow_backend.Data.Profile.{UserProfile}
use trustflow_backend.World.{World}
use trustflow_backend.Profile.Store.{put}
use trustflow_backend.Profile.Service.{store_local, drop_local}

-- The index and the profiles name one another.
pub record IsIndexed {R : Type 0} (w : World R) : Type 0 where
  pub by_wallet :
      (wallet id : String)
      → JsMap.get wallet w.wallet_index ≡ some id
      → (p : UserProfile) × (JsMap.get id w.profiles ≡ some p)
        × (p.wallet_address ≡ wallet)
        × (str_eq id "" ≡ false)
  pub by_id :
      (id : String) (p : UserProfile)
      → JsMap.get id w.profiles ≡ some p
      → (p.id ≡ id) × (JsMap.get p.wallet_address w.wallet_index ≡ some id)

module _ {R : Type 0} (w : World R) (h : IsIndexed w) where
  pub store_local-IsIndexed :
      (p : UserProfile)
      → str_eq p.id "" ≡ false
      → JsMap.get p.id w.profiles ≡ none
      → JsMap.get p.wallet_address w.wallet_index ≡ none
      → IsIndexed (store_local p w)
  store_local-IsIndexed p named fresh free = record {
    by_wallet = λ wallet id at. elim (Bool-cases (str_eq p.wallet_address wallet)) [
      | inl same ↦
          let given = get-set p.wallet_address wallet p.id w.wallet_index in
          let is_new : p.id ≡ id = ground (arith, at, same, given) in
          (
            p,
            ground (arith, get-set p.id id p w.profiles, eq_iff p.id id, is_new),
            ground (arith, same, eq_iff p.wallet_address wallet),
            subst (λ i. str_eq i "" ≡ false) is_new named,
          )
      | inr apart ↦
          let given = get-set p.wallet_address wallet p.id w.wallet_index in
          let before : JsMap.get wallet w.wallet_index ≡ some id =
            ground (arith, at, apart, given) in
          let (q, there, of_wallet, named') = h.by_wallet wallet id before in
          (
            q,
            ground (arith, get-set p.id id p w.profiles, there, fresh, eq_iff p.id id),
            of_wallet,
            named',
          )
    ];
    by_id = λ id q at. elim (Bool-cases (str_eq p.id id)) [
      | inl same ↦
          let is_new : p ≡ q = ground (arith, at, same, get-set p.id id p w.profiles) in
          let given = get-set p.wallet_address p.wallet_address p.id w.wallet_index in
          let at_wallet : JsMap.get p.wallet_address (store_local p w).wallet_index ≡ some id =
            ground (arith, given, same, eq_iff p.id id, eq_iff p.wallet_address p.wallet_address) in
          (
            ap (λ (r : UserProfile). r.id) (sym is_new) ∙ (eq_iff p.id id).0 same,
            subst
                (λ (r : UserProfile).
                  JsMap.get r.wallet_address (store_local p w).wallet_index ≡ some id)
                is_new at_wallet,
          )
      | inr apart ↦
          let before : JsMap.get id w.profiles ≡ some q =
            ground (arith, at, apart, get-set p.id id p w.profiles) in
          let (own, linked) = h.by_id id q before in
          let given = get-set p.wallet_address q.wallet_address p.id w.wallet_index in
          (own, ground (arith, given, linked, free, eq_iff p.wallet_address q.wallet_address))
    ];
  }

  pub put-IsIndexed :
      (id : String) (p q : UserProfile)
      → JsMap.get id w.profiles ≡ some p
      → q.id ≡ p.id
      → q.wallet_address ≡ p.wallet_address
      → IsIndexed (put q w)
  put-IsIndexed id p q at same_id same_wallet =
      let (own, linked) = h.by_id id p at in
      record {
        by_wallet = λ wallet j given.
            let (r, there, of_wallet, named) = h.by_wallet wallet j given in
            elim (Bool-cases (str_eq q.id j)) [
              | inl same ↦ (
                q,
                ground (arith, get-set q.id j q w.profiles, same),
                ground
                    (arith, same, eq_iff q.id j, same_id, same_wallet, own, at, there, of_wallet),
                named,
              )
              | inr apart ↦
                  (r, ground (arith, get-set q.id j q w.profiles, apart, there), of_wallet, named)
            ];
        by_id = λ j r given. elim (Bool-cases (str_eq q.id j)) [
          | inl same ↦
              let is_new : q ≡ r = ground (arith, given, same, get-set q.id j q w.profiles) in
              let is_own : q.id ≡ j = (eq_iff q.id j).0 same in
              let at_wallet : JsMap.get q.wallet_address w.wallet_index ≡ some j =
                ap (λ a. JsMap.get a w.wallet_index) same_wallet
                ∙ linked
                ∙ ap some (sym own ∙ sym same_id ∙ is_own) in
              (
                ap (λ (x : UserProfile). x.id) (sym is_new) ∙ is_own,
                subst (λ (x : UserProfile). JsMap.get x.wallet_address w.wallet_index ≡ some j)
                    is_new at_wallet,
              )
          | inr apart ↦ h.by_id j r (ground (arith, given, apart, get-set q.id j q w.profiles))
        ];
      }

  pub drop_local-IsIndexed :
      (id : String) (p : UserProfile)
      → JsMap.get id w.profiles ≡ some p
      → IsIndexed (drop_local p id w)
  drop_local-IsIndexed id p at =
      let (own, linked) = h.by_id id p at in
      record {
        by_wallet = λ wallet j given.
            let before : JsMap.get wallet w.wallet_index ≡ some j =
              ground (arith, given, get-delete p.wallet_address wallet w.wallet_index) in
            let (r, there, of_wallet, named) = h.by_wallet wallet j before in
            let apart : str_eq p.wallet_address wallet ≡ false =
              ground (arith, given, get-delete p.wallet_address wallet w.wallet_index) in
            (
              r,
              ground (
                arith,
                there,
                get-delete id j w.profiles,
                apart,
                of_wallet,
                at,
                eq_iff id j,
                eq_iff p.wallet_address wallet,
              ),
              of_wallet,
              named,
            );
        by_id = λ j r given.
            let before : JsMap.get j w.profiles ≡ some r =
              ground (arith, given, get-delete id j w.profiles) in
            let apart : str_eq id j ≡ false = ground (arith, given, get-delete id j w.profiles) in
            let (own', linked') = h.by_id j r before in
            (
              own',
              ground (
                arith,
                get-delete p.wallet_address r.wallet_address w.wallet_index,
                linked,
                linked',
                apart,
                eq_iff id j,
                eq_iff p.wallet_address r.wallet_address,
              ),
            );
      }
