-- ===== src/Stores.antt =====
-- server/src/storeService.ts: a merchant's stores, their listing with the head office first, and the
-- countries and currencies in which its products are sold.
pub mod Listing
pub mod Corridors
pub mod HeadOffice
pub mod Order
pub mod Choice
use tende.Base.{
  ℕ, Action, Bool, Option, Text, [], any, codes, gets, http, if◌then◌else◌, is_some, none, not,
  or_else, or_raise, pure, raise_if, some, text_eq, thrown, to_upper, trim, true, ◌&&◌, ◌++◌, ◌==◌,
  ◌>>=◌, ◌>>◌, ◌||◌, ◌∷◌,
}
use mathlib.Core.Option
use tende.Schema.{MerchantStoreRow, MerchantRow, MemberRow}
use tende.World.{World, remote, set_store, fresh_id}
use tende.Env.{Env, is_empty}
use tende.Currency.{currency_for_country}
use tende.Base.Rows.{find, update_where}

abbrev pub head_office_code : Text
head_office_code = codes "HO"

abbrev pub is_head_office : MerchantStoreRow → Bool
is_head_office s = text_eq s.store_code head_office_code

unfoldable pub find_org : Text → Action World (Option MerchantRow)
find_org merchant_id =
    remote (gets (λ w. find (λ m. text_eq m.merchant_id merchant_id) w.store.merchants))

abbrev pub is_store : Text → Text → MerchantStoreRow → Bool
is_store store_id merchant_id s = text_eq s.store_id store_id && text_eq s.merchant_id merchant_id

abbrev pub has_code : Text → Text → MerchantStoreRow → Bool
has_code merchant_id code s = text_eq s.merchant_id merchant_id && text_eq s.store_code code

-- A store's identifier is a number of the model's sequence, written as a text of one code.
abbrev fresh_store : ℕ → Text → Text → Text → Text → Text → MerchantStoreRow
fresh_store id merchant_id code name country currency = record {
  store_id = id ∷ [];
  merchant_id = merchant_id;
  store_code = code;
  name = name;
  country_code = country;
  currency_code = currency;
  is_active = true;
}

-- A merchant's code is unique; a second row of it cannot be inserted.
unfoldable pub insert_store : Text → Text → Text → Text → Text → Action World MerchantStoreRow
insert_store merchant_id code name country currency = remote (do
  rows ← gets (λ w. w.store.stores)
  raise_if (any (has_code merchant_id code) rows) (thrown "duplicate key")
  id ← fresh_id
  let row = fresh_store id merchant_id code name country currency
  set_store (λ s. record s { stores = s.stores ++ row ∷ [] })
  pure row)

-- The head office of a merchant that was found.
unfoldable pub ensure_for : Text → Option MerchantRow → Action World (Option MerchantStoreRow)
ensure_for merchant_id none = pure none
ensure_for merchant_id (some m) = do
  existing ← remote (gets (λ w. find (has_code merchant_id head_office_code) w.store.stores))
  if is_some existing then pure existing else (do
    row ←
        insert_store merchant_id head_office_code (codes "Head office") m.country_code
          m.currency_code
    pure (some row))

unfoldable pub ensure_head_office_store : Text → Action World (Option MerchantStoreRow)
ensure_head_office_store merchant_id = do m ← find_org merchant_id; ensure_for merchant_id m

-- An empty scope is none.
unfoldable pub member_store_scope : ℕ → Action World Text
member_store_scope member_id = do
  row ← remote (gets (λ w. find (λ m. m.id == member_id) w.store.members))
  pure (trim (or_else (Option.bind row (λ m. m.store_scope)) []))

unfoldable pub scope_of : Option ℕ → Action World Text
scope_of none = pure []
scope_of (some member_id) = member_store_scope member_id

unfoldable pub resolve_store_for_merchant : Text → Text → Option ℕ → Action World MerchantStoreRow
resolve_store_for_merchant merchant_id store_id member_id = do
  found ← remote (gets (λ w. find (is_store store_id merchant_id) w.store.stores))
  store ← or_raise found (http 404 "Store not found")
  raise_if (not store.is_active) (http 400 "Store is inactive")
  scope ← scope_of member_id
  raise_if (not (is_empty scope) && not (text_eq scope store.store_code))
      (http 403 "You are not assigned to this store")
  pure store

pub record StoreInput : Type 0 where
  pub store_code : Text
  pub name : Text
  pub country_code : Text
  pub currency_code : Option Text

unfoldable pub create_merchant_store : Text → StoreInput → Action World MerchantStoreRow
create_merchant_store merchant_id input =
    let code = trim input.store_code in
    let name = trim input.name in
    do
      raise_if (is_empty code || is_empty name) (http 400 "storeCode and name required")
      expected ← currency_for_country input.country_code
      let currency = to_upper (or_else input.currency_code expected)
      raise_if (not (text_eq currency expected)) (http 400 "Country uses another currency")
      insert_store merchant_id code name (to_upper input.country_code) currency

pub record StoreChange : Type 0 where
  pub name : Option Text
  pub country_code : Option Text
  pub is_active : Option Bool

-- `input.name?.trim() || null` under `COALESCE`
unfoldable pub new_name : Option Text → Text → Text
new_name given old = let name = trim (or_else given []) in if is_empty name then old else name

unfoldable pub set_store_row : StoreChange → Text → Text → MerchantStoreRow → MerchantStoreRow
set_store_row input country currency s = record s {
  name = new_name input.name s.name;
  country_code = country;
  currency_code = currency;
  is_active = or_else input.is_active s.is_active;
}

-- The country that is given, if any, with its currency.
unfoldable pub new_country : Option Text → MerchantStoreRow → Action World (Text × Text)
new_country given s =
    let country = to_upper (or_else given []) in
    if is_empty country
    then pure (s.country_code, s.currency_code)
    else (do currency ← currency_for_country country; pure (country, currency))

unfoldable pub update_merchant_store : Text → Text → StoreChange → Action World MerchantStoreRow
update_merchant_store merchant_id store_id input = do
  found ← remote (gets (λ w. find (is_store store_id merchant_id) w.store.stores))
  cur ← or_raise found (http 404 "Store not found")
  place ← new_country input.country_code cur
  updated ← remote (do
    set_store (λ s. record s {
      stores =
          update_where (is_store store_id merchant_id) (set_store_row input place.0 place.1)
            s.stores;
    })
    gets (λ w. find (is_store store_id merchant_id) w.store.stores))
  or_raise updated (thrown "undefined")
