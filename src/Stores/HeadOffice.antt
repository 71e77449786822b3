-- ===== src/Stores/HeadOffice.antt =====
-- A merchant's head office is made once.
use tende.Base.{
  List, Option, Text, [], any, arith, false, none, refl, some, text_eq, text_eq_refl, thrown, true,
  ◌++◌, ◌∷◌, ◌≡◌, ◌⊎◌, ap, codes, gets, inl, inr, is_some, subst, sym, ◌∙◌,
}
use tende.Schema.{MerchantStoreRow, MerchantRow}
use tende.World.{World, set_store, fresh_id}
use tende.World.Returns.{Returns, raise_if-Returns, remote-Returns, bind-Returns, if-Returns}
use tende.Stores.{
  has_code, head_office_code, insert_store, ensure_for, ensure_head_office_store, find_org, remote,
}
use tende.Base.Rows.{find}
use tende.World.Frames.{SameBase, SameBase-trans}
use tende.World.Rules.{Ends, bind-Ends, bind-Ends_weaken, if-Ends}
use tende.World.Queries.{read-Returns, read-Ends}

abbrev pub office : Text → World → Option MerchantStoreRow
office merchant_id w = find (has_code merchant_id head_office_code) w.store.stores

abbrev pub org : Text → World → Option MerchantRow
org merchant_id w = find (λ m. text_eq m.merchant_id merchant_id) w.store.merchants

-- A row that is appended where none has the code is found under it.
find-appended :
    (merchant_id code : Text) (rows : List MerchantStoreRow) (row : MerchantStoreRow)
    → any (has_code merchant_id code) rows ≡ false
    → has_code merchant_id code row ≡ true
    → find (has_code merchant_id code) (rows ++ row ∷ []) ≡ some row
unfolding find
find-appended merchant_id code [] row none_there fits = ground arith
find-appended merchant_id code (r ∷ rows) row none_there fits =
    ground (arith, find-appended merchant_id code rows row)

insert_store-Returns :
    (merchant_id code name country currency : Text) (w : World)
    → Returns
        (λ row u.
          (find (has_code merchant_id code) u.store.stores ≡ some row)
          × (u.store.stores ≡ w.store.stores ++ row ∷ []))
        (insert_store merchant_id code name country currency w)
unfolding insert_store fresh_id set_store
insert_store-Returns merchant_id code name country currency w =
    let P : MerchantStoreRow → World → Type 0 = λ row u.
      (find (has_code merchant_id code) u.store.stores ≡ some row)
      × (u.store.stores ≡ w.store.stores ++ row ∷ []) in
    remote-Returns P _ w λ n e.
      raise_if-Returns P (any (has_code merchant_id code) w.store.stores) (thrown "duplicate key") _
        _
        λ none_there. (
          find-appended merchant_id code w.store.stores _ none_there
              (ground (arith, text_eq_refl merchant_id, text_eq_refl code)),
          refl,
        )

-- What a merchant's head office is after it was asked for: none for a merchant that is not known, or else
-- the one that is found from then on, which was there or is the only row that was added.
abbrev pub HasOffice : Text → World → Option MerchantStoreRow → World → Type 0
HasOffice merchant_id w r u =
    ((r ≡ none) × (org merchant_id w ≡ none) × (u.store.stores ≡ w.store.stores))
    ⊎ ((row : MerchantStoreRow) × (r ≡ some row)
        × (office merchant_id u ≡ some row)
        × ((u.store.stores ≡ w.store.stores) ⊎ (u.store.stores ≡ w.store.stores ++ row ∷ [])))

found_office :
    (merchant_id : Text) (o : Option MerchantStoreRow) (w u : World)
    → o ≡ office merchant_id w
    → u.store.stores ≡ w.store.stores
    → is_some o ≡ true
    → HasOffice merchant_id w o u
found_office merchant_id (some row) w u e same there =
    inr (row, refl, ap (find (has_code merchant_id head_office_code)) same ∙ sym e, inl same)
found_office merchant_id none w u e same there = cc

ensure_for-Returns :
    (merchant_id : Text) (m : Option MerchantRow) (w u : World)
    → m ≡ org merchant_id w
    → SameBase w u
    → Returns (λ r v. HasOffice merchant_id w r v) (ensure_for merchant_id m u)
unfolding ensure_for
ensure_for-Returns merchant_id none w u e same = inl (refl, sym e, ap (λ s. s.stores) same.store)
ensure_for-Returns merchant_id (some m) w u e same =
    let P : Option MerchantStoreRow → World → Type 0 = λ r v. HasOffice merchant_id w r v in
    let kept : u.store.stores ≡ w.store.stores = ap (λ s. s.stores) same.store in
    bind-Returns P (λ o v. (o ≡ office merchant_id u) × SameBase u v) _ _
      (read-Returns (λ v. office merchant_id v) u (λ n. refl))
      λ o v (eo, same_v).
        if-Returns P (is_some o) _ _ v
          (λ there.
            found_office merchant_id o w v
              (eo ∙ ap (find (has_code merchant_id head_office_code)) kept)
              (ap (λ s. s.stores) same_v.store ∙ kept) there)
          (λ none_there.
            bind-Returns P
              (λ row x.
                (find (has_code merchant_id head_office_code) x.store.stores ≡ some row)
                × (x.store.stores ≡ v.store.stores ++ row ∷ []))
              (insert_store merchant_id head_office_code (codes "Head office") m.country_code
                m.currency_code v)
              _
              (insert_store-Returns merchant_id head_office_code (codes "Head office")
                m.country_code m.currency_code v)
              λ row x (ef, es). inr (
                row,
                refl,
                ef,
                inr (es ∙ ap (λ ss. ss ++ row ∷ []) (ap (λ s. s.stores) same_v.store ∙ kept)),
              ))

-- Asking for a merchant's head office, where it succeeds, gives none for a merchant that is not known, and
-- otherwise the row that is found from then on, which was there or is the only one that was added.
pub ensure_head_office_store-Returns :
    (merchant_id : Text) (w : World)
    → Returns (λ r u. HasOffice merchant_id w r u) (ensure_head_office_store merchant_id w)
unfolding ensure_head_office_store find_org
ensure_head_office_store-Returns merchant_id w =
    bind-Returns (λ r u. HasOffice merchant_id w r u)
      (λ m u. (m ≡ org merchant_id w) × SameBase w u) _ (ensure_for merchant_id)
      (read-Returns (λ v. org merchant_id v) w (λ n. refl))
      (λ m u (em, same). ensure_for-Returns merchant_id m w u em same)

-- Once a known merchant has a head office, asking again gives that row, and changes nothing, even where the
-- network fails.
pub ensure_head_office_store-again :
    (merchant_id : Text) (m : MerchantRow) (row : MerchantStoreRow) (w : World)
    → org merchant_id w ≡ some m
    → office merchant_id w ≡ some row
    → Ends
        (λ r u. (r ≡ some row) × SameBase w u)
        (λ u. SameBase w u)
        (ensure_head_office_store merchant_id w)
unfolding ensure_head_office_store find_org ensure_for
ensure_head_office_store-again merchant_id m row w known there =
    let P : Option MerchantStoreRow → World → Type 0 = λ r u. (r ≡ some row) × SameBase w u in
    let E : World → Type 0 = λ u. SameBase w u in
    bind-Ends P E (λ o u. (o ≡ org merchant_id w) × SameBase w u) _ (ensure_for merchant_id)
      (read-Ends (λ v. org merchant_id v) w (λ n. refl))
      λ o u (eo, same).
        subst (λ o. Ends P E (ensure_for merchant_id o u)) (sym (eo ∙ known))
          (bind-Ends_weaken P E (λ r v. (r ≡ office merchant_id u) × SameBase u v)
            (λ v. SameBase u v) (remote (gets (λ v. office merchant_id v)) u) _
            (read-Ends (λ v. office merchant_id v) u (λ n. refl))
            (λ v h. SameBase-trans w u v same h)
            λ r v (er, same_v).
              let present : r ≡ some row =
                er
                ∙ ap (λ s. find (has_code merchant_id head_office_code) s.stores) same.store
                ∙ there in
              if-Ends P E (is_some r) _ _ v (λ _. (present, SameBase-trans w u v same same_v))
                (λ absent. absurd (missing r row present absent)))
  where
    missing :
        (r : Option MerchantStoreRow) (row : MerchantStoreRow)
        → r ≡ some row
        → is_some r ≡ false
        → ⊥
    missing none row e h = cc
    missing (some s) row e h = cc
