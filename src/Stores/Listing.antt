-- ===== src/Stores/Listing.antt =====
-- The listing of stores in server/src/storeService.ts. The rows come as the database sorts them, which is
-- taken to be as the table holds them; the service sorts them again.
use tende.Base.{
  ℕ, Action, Bool, List, Option, Text, [], false, gets, if◌then◌else◌, not, pure, select, text_eq,
  true, ◌&&◌, ◌>>=◌, ◌||◌, ◌∷◌,
}
use tende.Schema.{MerchantStoreRow}
use tende.World.{World, remote}
use tende.Env.{Env, is_empty}
use tende.Stores.{is_head_office, ensure_head_office_store, scope_of}

module _ (env : Env) where
  -- Whether the comparison of two stores is negative.
  unfoldable pub comes_before : MerchantStoreRow → MerchantStoreRow → Bool
  comes_before a b =
      if is_head_office a
      then true
      else if is_head_office b
      then false
      else env.locale_lt a.name b.name
        || (not (env.locale_lt b.name a.name) && env.locale_lt a.store_code b.store_code)

  -- A stable sort.
  unfoldable pub insert_sorted : MerchantStoreRow → List MerchantStoreRow → List MerchantStoreRow
  insert_sorted s [] = s ∷ []
  insert_sorted s (t ∷ ts) =
      let rest = insert_sorted s ts in if comes_before t s then t ∷ rest else s ∷ t ∷ ts

  unfoldable pub sort_stores : List MerchantStoreRow → List MerchantStoreRow
  sort_stores [] = []
  sort_stores (s ∷ ss) = insert_sorted s (sort_stores ss)

  unfoldable pub list_merchant_stores : Text → Option ℕ → Action World (List MerchantStoreRow)
  list_merchant_stores merchant_id member_id = do
    office ← ensure_head_office_store merchant_id
    scope ← scope_of member_id
    rows ← remote (
        gets (λ w.
          select
            (λ s.
              text_eq s.merchant_id merchant_id
              && (s.is_active && (is_empty scope || text_eq s.store_code scope)))
            w.store.stores))
    pure (sort_stores rows)
