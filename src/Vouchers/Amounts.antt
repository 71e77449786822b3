-- ===== src/Vouchers/Amounts.antt =====
-- A voucher's amount comes back from the database with its decimals, which no BigInt is made of.
use tende.Base.{
  ℕ, Bool, Text, [], any, arith, every, false, if◌then◌else◌, is_digit, none, refl, some, true,
  ◌==◌, ◌∷◌, ◌≡◌, All, Option, any-trim, text_eq, thrown, trim, ◌∙◌, List, ap, not, or_else, sym,
  ◌++◌,
}
use mathlib.Core.Option
use tende.Vouchers.{
  natural, digits_value, signed, big_int, World, Env, ChangeVoucherRow, MerchantRow, load_merchant,
  fresh_id, set_store, is_empty,
}
use tende.Base.Rows.{find, find-All}
use tende.Vouchers.Redeem.{
  pay_voucher, join_merchant, Joined, redeem_change_voucher, find_joined, Redeemed, is_open,
  refuse_expired,
}
use tende.World.Returns.{Fails, or_raise-Returns, bind-Returns, raise_if-Returns, Returns-any}
use tende.World.Frames.{Frame, Within, within, SameBase, remote-Within, pure-Within}
use tende.Vouchers.Issue.{
  insert_voucher, voucher_row, VoucherInput, resolve_store_context, validate_product,
  parse_voucher_amount, prepare_change_voucher, check_price,
}
use tende.World.{fresh_id, set_store, clock}
use tende.World.Queries.{read-Returns}
use tende.Schema.{MerchantStoreRow}
use tende.Stores.{scope_of, member_store_scope, resolve_store_for_merchant}

abbrev pub is_point : ℕ → Bool
is_point c = c == b'.'

abbrev pub has_point : Text → Bool
has_point s = any is_point s

natural-has_point : (s : Text) → has_point s ≡ true → natural s ≡ none
unfolding natural
natural-has_point s h = go (every is_digit s) refl
  where
    not_digits : (s : Text) → has_point s ≡ true → every is_digit s ≡ true → ⊥
    not_digits [] h e = cc
    not_digits (c ∷ s) h e = ground (arith, not_digits s)

    go : (b : Bool) → every is_digit s ≡ b → (if b then some (digits_value 0 s) else none) ≡ none
    go true e = absurd (not_digits s h e)
    go false e = refl

signed-has_point : (s : Text) → has_point s ≡ true → signed s ≡ none
unfolding signed
signed-has_point [] h = cc
signed-has_point (c ∷ s) h = ground (arith, natural-has_point s, natural-has_point (c ∷ s))

big_int-has_point : (s : Text) → has_point s ≡ true → big_int s ≡ none
unfolding big_int
big_int-has_point s h =
    signed-has_point (trim s) (any-trim is_point (λ c space. ground arith) s ∙ h)

-- The amounts of the stored vouchers are texts with a decimal point.
abbrev pub Decimals : World → Type 0
Decimals w = All (λ v. has_point v.amount ≡ true) w.store.change_vouchers

pay_voucher-Fails :
    (env : Env) (j : Joined) (merchant_wallet consumer_wallet : Text) (w : World)
    → has_point j.voucher.amount ≡ true
    → Fails (pay_voucher env j merchant_wallet consumer_wallet w)
unfolding pay_voucher
pay_voucher-Fails env j merchant_wallet consumer_wallet w h =
    or_raise-Returns (λ _ _. ⊥) (big_int j.voucher.amount) (thrown "SyntaxError") w _
      (λ units e. cc (e, big_int-has_point j.voucher.amount h))

joined-has_point :
    (secret_hash : Text) (w : World) (j : Joined)
    → Decimals w
    → Option.bind
        (find (λ v. text_eq v.claim_secret_hash secret_hash) w.store.change_vouchers)
        (join_merchant w.store.merchants)
      ≡ some j
    → has_point j.voucher.amount ≡ true
unfolding join_merchant Option.bind
joined-has_point secret_hash w j all e =
    go (find (λ v. text_eq v.claim_secret_hash secret_hash) w.store.change_vouchers) refl e
  where
    go :
        (o : Option ChangeVoucherRow)
        → find (λ v. text_eq v.claim_secret_hash secret_hash) w.store.change_vouchers ≡ o
        → Option.bind o (join_merchant w.store.merchants) ≡ some j
        → has_point j.voucher.amount ≡ true
    go none eo h = cc
    go (some v) eo h = found (find (λ m. text_eq m.merchant_id v.merchant_id) w.store.merchants) h
      where
        found :
            (m : Option MerchantRow)
            → Option.map (λ m. record { voucher = v; merchant = m }) m ≡ some j
            → has_point j.voucher.amount ≡ true
        found none h = cc
        found (some m) h =
            let same : v.amount ≡ j.voucher.amount =
              ap (λ (o : Option Joined). elim o [ none ↦ v.amount | some x ↦ x.voucher.amount ])
                h in
            sym (ap has_point same)
            ∙ find-All (λ v. has_point v.amount ≡ true)
                (λ v. text_eq v.claim_secret_hash secret_hash) w.store.change_vouchers v all eo

-- Where the stored amounts have a decimal point, no voucher can be redeemed: whatever the secret, no
-- redemption succeeds.
pub redeem_change_voucher-Fails :
    (env : Env) (secret consumer_wallet : Text) (w : World)
    → Decimals w
    → Fails (redeem_change_voucher env secret consumer_wallet w)
unfolding redeem_change_voucher find_joined
redeem_change_voucher-Fails env secret consumer_wallet w all =
    let P : Redeemed → World → Type 0 = λ _ _. ⊥ in
    let joined : World → Option Joined = λ v.
      Option.bind
        (find (λ v. text_eq v.claim_secret_hash (env.hash secret)) v.store.change_vouchers)
        (join_merchant v.store.merchants) in
    bind-Returns P (λ o u. (o ≡ joined w) × SameBase w u) _ _ (read-Returns joined w (λ n. refl))
      λ o u (eo, _). or_raise-Returns P o _ u _ λ j ej.
        raise_if-Returns P (not (is_open j.voucher.status)) _ u _ λ _.
          bind-Returns P (λ _ _. Unit) (clock u) _ (Returns-any _)
            λ now v _.
              bind-Returns P (λ _ _. Unit) (refuse_expired env j.voucher now v) _ (Returns-any _)
                λ _ x _.
                  raise_if-Returns P (is_empty (or_else j.merchant.wallet_address [])) _ x _ λ _.
                    pay_voucher-Fails env j _ consumer_wallet x
                      (joined-has_point (env.hash secret) w j all (sym eo ∙ ej))

-- A step that keeps the decimal points of the stored amounts.
abbrev pub pointed : Frame
pointed = record {
  Rel = λ w w'. Decimals w → Decimals w';
  same = λ w h. h;
  join = λ u v w p q h. q (p h);
  network = λ w n t h. h;
}

All-append :
    (xs : List ChangeVoucherRow) (y : ChangeVoucherRow)
    → All (λ v. has_point v.amount ≡ true) xs
    → has_point y.amount ≡ true
    → All (λ v. has_point v.amount ≡ true) (xs ++ y ∷ [])
All-append [] y all h = (h, tt)
All-append (x ∷ xs) y (p, all) h = (p, All-append xs y all h)

module _ (env : Env) (decimal : (n : ℕ) → has_point (env.numeric_8 n) ≡ true) where
  insert-pointed :
      (p : VoucherInput) (store : MerchantStoreRow) (currency : Text) (units : ℕ) (secret : Text)
      (expires_at : ℕ)
      → Within pointed (insert_voucher env p store currency units secret expires_at)
  unfolding insert_voucher voucher_row fresh_id set_store
  insert-pointed p store currency units secret expires_at =
      remote-Within pointed _
        (record { holds = λ w all. All-append w.store.change_vouchers _ all (decimal units) })

  scope-pointed : (o : Option ℕ) → Within pointed (scope_of o)
  unfolding scope_of member_store_scope
  scope-pointed none = pure-Within pointed []
  scope-pointed (some id) = search within depth 20

  load_merchant-pointed : (id : Text) → Within pointed (load_merchant id)
  unfolding load_merchant
  load_merchant-pointed id = search within depth 20

  store-pointed : (p : VoucherInput) → Within pointed (resolve_store_context env p)
  unfolding resolve_store_context resolve_store_for_merchant
  store-pointed p = search (within, scope-pointed) depth 20

  product-pointed :
      (merchant_id : Text) (id : Option Text) (amount : ℕ) (currency : Text)
      → Within pointed (validate_product env merchant_id id amount currency)
  unfolding validate_product check_price
  product-pointed merchant_id id amount currency = search within depth 20

  amount-pointed :
      (amount currency : Text) → Within pointed (parse_voucher_amount env amount currency)
  unfolding parse_voucher_amount
  amount-pointed amount currency = search within depth 20

  prepare-pointed : (p : VoucherInput) → Within pointed (prepare_change_voucher env p)
  unfolding prepare_change_voucher
  prepare-pointed p =
      search
        (
          within, load_merchant-pointed, store-pointed, amount-pointed, product-pointed,
          insert-pointed,
        )
        depth 30

-- Where the column of amounts gives back a text with a decimal point for every amount, as one of eight
-- decimals does, and the vouchers that are stored have come back so, a voucher that is issued can no more be
-- redeemed than they can: after an issue, however it ends, no redemption succeeds.
pub prepare-redeem-Fails :
    (env : Env) (p : VoucherInput) (secret consumer_wallet : Text) (w : World)
    → ((n : ℕ) → has_point (env.numeric_8 n) ≡ true)
    → Decimals w
    → Fails (redeem_change_voucher env secret consumer_wallet (prepare_change_voucher env p w).1)
prepare-redeem-Fails env p secret consumer_wallet w decimal all =
    redeem_change_voucher-Fails env secret consumer_wallet (prepare_change_voucher env p w).1
      ((prepare-pointed env decimal p).holds w all)
