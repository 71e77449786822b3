-- ===== src/Stores/Corridors.antt =====
-- The countries and currencies of a merchant's products in server/src/storeService.ts.
use tende.Base.{
  Action, Bool, Error, List, Option, Text, [], false, gets, http, if◌then◌else◌, length, ltb, not,
  or_else, or_raise, pure, raise, raise_if, select, text_eq, to_upper, true, ◌&&◌, ◌==◌, ◌>>=◌,
  ◌>>◌, ◌||◌, ◌∷◌,
}
use tende.Schema.{MerchantStoreRow}
use tende.World.{World, remote}
use tende.Env.{is_empty}
use tende.Stores.{ensure_head_office_store, find_org}
use tende.Base.Rows.{find}

pub record ProductCorridor : Type 0 where
  pub country_code : Text
  pub currency_code : Text

unfoldable pub same_corridor : ProductCorridor → ProductCorridor → Bool
same_corridor a b = text_eq a.country_code b.country_code && text_eq a.currency_code b.currency_code

-- `ORDER BY country_code`, on codes in upper case.
unfoldable pub code_lt : Text → Text → Bool
code_lt s [] = false
code_lt [] (b ∷ t) = true
code_lt (a ∷ s) (b ∷ t) = ltb a b || (a == b && code_lt s t)

-- `SELECT DISTINCT … ORDER BY`: put in place, unless it is there.
unfoldable pub add_corridor : ProductCorridor → List ProductCorridor → List ProductCorridor
add_corridor c [] = c ∷ []
add_corridor c (d ∷ ds) =
    let rest = add_corridor c ds in
    if same_corridor c d
    then d ∷ ds
    else if code_lt c.country_code d.country_code
    then c ∷ d ∷ ds
    else d ∷ rest

unfoldable pub distinct_corridors : List MerchantStoreRow → List ProductCorridor
distinct_corridors [] = []
distinct_corridors (s ∷ ss) =
    add_corridor (record { country_code = s.country_code; currency_code = s.currency_code })
      (distinct_corridors ss)

unfoldable pub or_org : Text → List ProductCorridor → Action World (List ProductCorridor)
or_org merchant_id [] = do
  found ← find_org merchant_id
  m ← or_raise found (http 404 "Merchant not found")
  pure (record { country_code = m.country_code; currency_code = m.currency_code } ∷ [])
or_org merchant_id (c ∷ cs) = pure (c ∷ cs)

unfoldable pub list_product_corridors : Text → Action World (List ProductCorridor)
list_product_corridors merchant_id = do
  office ← ensure_head_office_store merchant_id
  stores ←
      remote
        (gets (λ w. select (λ s. text_eq s.merchant_id merchant_id && s.is_active) w.store.stores))
  or_org merchant_id (distinct_corridors stores)

abbrev pub has_currency : Text → ProductCorridor → Bool
has_currency cur c = text_eq c.currency_code cur

abbrev pub no_currency : Error
no_currency = http 400 "Currency is not available"

-- The country that is given, or the only one.
unfoldable pub choose_corridor : List ProductCorridor → Text → Action World ProductCorridor
choose_corridor [] country = raise no_currency
choose_corridor (c ∷ cs) country =
    if not (is_empty country)
    then or_raise (find (λ d. text_eq d.country_code (to_upper country)) (c ∷ cs))
        (http 400 "No store corridor")
    else (do
      raise_if (ltb 1 (length (c ∷ cs))) (http 400 "Multiple countries use the currency")
      pure c)

unfoldable pub resolve_product_corridor : Text → Text → Option Text → Action World ProductCorridor
resolve_product_corridor merchant_id currency_code country_code = do
  corridors ← list_product_corridors merchant_id
  choose_corridor (select (has_currency (to_upper currency_code)) corridors)
      (or_else country_code [])
