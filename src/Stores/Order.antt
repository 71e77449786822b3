-- ===== src/Stores/Order.antt =====
-- The order in which stores are listed.
use tende.Base.{Bool, List, [], any, arith, false, length, refl, select, true, ◌||◌, ◌∙◌, ◌∷◌, ◌≡◌}
use tende.Schema.{MerchantStoreRow}
use tende.Env.{Env}
use tende.Stores.{is_head_office}
use tende.Stores.Listing.{comes_before, insert_sorted, sort_stores}

-- Whether a list begins with a head office.
abbrev pub leads : List MerchantStoreRow → Bool
leads [] = false
leads (s ∷ ss) = is_head_office s

module _ (env : Env) where
  insert-leads :
      (s : MerchantStoreRow) (ts : List MerchantStoreRow)
      → (is_head_office s || leads ts) ≡ true
      → leads (insert_sorted env s ts) ≡ true
  unfolding insert_sorted comes_before
  insert-leads s [] h = ground arith
  insert-leads s (t ∷ ts) h = ground arith

  -- A list of stores with a head office among them is sorted with a head office first, whatever the order of
  -- the names.
  pub sort_stores-leads :
      (ss : List MerchantStoreRow)
      → any is_head_office ss ≡ true
      → leads (sort_stores env ss) ≡ true
  unfolding sort_stores
  sort_stores-leads [] h = cc
  sort_stores-leads (s ∷ ss) h =
      insert-leads s (sort_stores env ss) (ground (arith, sort_stores-leads ss))

  insert-length :
      (s : MerchantStoreRow) (ts : List MerchantStoreRow) (p : MerchantStoreRow → Bool)
      → length (select p (insert_sorted env s ts)) ≡ length (select p (s ∷ ts))
  unfolding insert_sorted
  insert-length s [] p = refl
  insert-length s (t ∷ ts) p = ground (arith, insert-length s ts p)

  -- Sorting keeps every store as often as it is there: as many satisfy any test after as before.
  pub sort_stores-count :
      (ss : List MerchantStoreRow) (p : MerchantStoreRow → Bool)
      → length (select p (sort_stores env ss)) ≡ length (select p ss)
  unfolding sort_stores
  sort_stores-count [] p = refl
  sort_stores-count (s ∷ ss) p =
      insert-length s (sort_stores env ss) p ∙ ground (arith, sort_stores-count ss p)
