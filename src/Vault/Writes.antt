-- ===== src/Vault/Writes.antt =====
-- What a credit and a debit of src/Vault.sol write: the one pool that changes, with its exact
-- rounding, where no sum leaves 256 bits.
use tende.Base.{
  ℕ, ◌+◌, ◌≡◌, refl, ◌≢◌, Text, text_eq_iff, arith, inl, inr, Bool, ltb, if◌then◌else◌, pure, raise,
  thrown, ◌%◌, ◌&&◌, ◌*◌, ◌/◌, ◌==◌, ◌^◌, ◌||◌, false, ◌>>=◌, raise_if, true, ◌-◌, ◌≤◌,
}
use tende.Base.Atomic.{Atomic, Reads, bind-Atomic, if-Reads, bind-Reads, raise_if-Reads}
use tende.Base.Assoc.{insert, lookup-insert, at}
use tende.Vault.{
  Pool, Vault, pool, set_pool, convert_to_shares, convert_to_assets, checked, credit_assets,
  debit_assets,
}

pub pool-set_pool :
    (cur other : Text) (p : Pool) (v : Vault)
    → cur ≢ other
    → pool other (set_pool cur p v) ≡ pool other v
unfolding pool set_pool
pool-set_pool cur other p v ne =
    ground (arith, lookup-insert cur other p v.pools, text_eq_iff cur other)

pub pool-set_pool_self : (cur : Text) (p : Pool) (v : Vault) → pool cur (set_pool cur p v) ≡ p
unfolding pool set_pool
pool-set_pool_self cur p v = ground (arith, lookup-insert cur cur p v.pools, text_eq_iff cur cur)

-- `n / d`, rounded up or down.
abbrev pub rounded : ℕ → ℕ → Bool → ℕ
rounded n d round_up = if round_up && ltb 0 (n % d) then n / d + 1 else n / d

-- The shares of `assets` and the assets of `shares`, with no bound on the products.
abbrev pub shares_of : Pool → ℕ → Bool → ℕ
shares_of p amount round_up =
    if p.total_shares == 0 || p.total_assets == 0
    then amount
    else rounded (amount * p.total_shares) p.total_assets round_up

abbrev pub assets_of : Pool → ℕ → Bool → ℕ
assets_of p shares round_up =
    if p.total_shares == 0 then 0 else rounded (shares * p.total_assets) p.total_shares round_up

-- The shares that a debit burns: all of them on a full exit, else rounded up and capped.
abbrev pub burnt : Pool → ℕ → ℕ → ℕ
burnt p user_shares amount =
    let wanted =
      if amount == assets_of p user_shares false then user_shares else shares_of p amount true in
    if ltb user_shares wanted then user_shares else wanted

module _ (v : Vault) where
  checked-Reads : (n : ℕ) → Reads v (λ m. m ≡ n) (checked n)
  unfolding checked
  checked-Reads n =
      if-Reads v (ltb n (2 ^ 256)) (pure n) (raise (thrown "Panic(0x11)"))
        (λ h. inl (n, refl, refl)) (λ h. inr (thrown "Panic(0x11)", refl))

  rounded-Reads :
      (n d : ℕ) (up : Bool)
      → Reads v
          (λ m. m ≡ rounded n d up)
          (do
            product ← checked n
            let q = product / d
            if up && ltb 0 (product % d) then checked (q + 1) else pure q)
  rounded-Reads n d up =
      bind-Reads v (λ m. m ≡ rounded n d up) (checked n) _ (checked-Reads n)
        λ product e. rw e (
          if-Reads v (up && ltb 0 (n % d)) (checked (n / d + 1)) (pure (n / d))
            (λ h. rw h (checked-Reads (n / d + 1))) (λ h. rw h (inl (n / d, refl, refl))))

  pub convert_to_shares-Reads :
      (p : Pool) (amount : ℕ) (up : Bool)
      → Reads v (λ m. m ≡ shares_of p amount up) (convert_to_shares p amount up)
  unfolding convert_to_shares
  convert_to_shares-Reads p amount up =
      if-Reads v (p.total_shares == 0 || p.total_assets == 0) (pure amount) _
        (λ h. rw h (inl (amount, refl, refl)))
        (λ h. rw h (rounded-Reads (amount * p.total_shares) p.total_assets up))

  pub convert_to_assets-Reads :
      (p : Pool) (shares : ℕ) (up : Bool)
      → Reads v (λ m. m ≡ assets_of p shares up) (convert_to_assets p shares up)
  unfolding convert_to_assets
  convert_to_assets-Reads p shares up =
      if-Reads v (p.total_shares == 0) (pure 0) _ (λ h. rw h (inl (0, refl, refl)))
        (λ h. rw h (rounded-Reads (shares * p.total_assets) p.total_shares up))

  -- A credit writes one pool, in which the user has new shares for the amount.
  pub credit_assets_lem :
      (user cur : Text) (amount : ℕ)
      → let p = pool cur v in
        let new = shares_of p amount false in
        Atomic v
          (λ _ v'.
            v'
            ≡ set_pool cur
                (record {
                  shares = insert user (at user p.shares + new) p.shares;
                  total_shares = p.total_shares + new;
                  total_assets = p.total_assets + amount;
                })
                v)
          (credit_assets user cur amount v)
  unfolding credit_assets
  credit_assets_lem user cur amount =
      let p : Pool = pool cur v in
      let new : ℕ = shares_of p amount false in
      bind-Atomic v _ (convert_to_shares p amount false) _ (convert_to_shares-Reads p amount false)
        λ n en. bind-Atomic v _ (checked (at user p.shares + n)) _ (checked-Reads _) λ held eh.
          bind-Atomic v _ (checked (p.total_shares + n)) _ (checked-Reads _) λ ts et.
            bind-Atomic v _ (checked (p.total_assets + amount)) _ (checked-Reads _)
              λ ta ea. rw (eh, et, ea, en)

  -- A debit writes one pool, and only where the user's balance covers the amount.
  pub debit_assets_lem :
      (user cur : Text) (amount : ℕ)
      → let p = pool cur v in
        let held = at user p.shares in
        let burn = burnt p held amount in
        Atomic v
          (λ _ v'.
            (amount ≤ assets_of p held false)
            × (burn ≤ p.total_shares)
            × (amount ≤ p.total_assets)
            × (v'
                ≡ set_pool cur
                    (record {
                      shares = insert user (held - burn) p.shares;
                      total_shares = p.total_shares - burn;
                      total_assets = p.total_assets - amount;
                    })
                    v))
          (debit_assets user cur amount v)
  unfolding debit_assets
  debit_assets_lem user cur amount =
      let p : Pool = pool cur v in
      let held : ℕ = at user p.shares in
      bind-Atomic v _ (convert_to_assets p held false) _ (convert_to_assets-Reads p held false)
        λ bal eb.
          bind-Atomic v _ (raise_if (ltb bal amount) (thrown "InsufficientBalance")) _
            (raise_if-Reads v _ _)
            λ _ enough.
              bind-Atomic v _ (if amount == bal then pure held else convert_to_shares p amount true)
                _
                (if-Reads v {Q = λ w. w ≡ (if amount == bal then held else shares_of p amount true)}
                  (amount == bal) (pure held) _ (λ h. rw h (inl (held, refl, refl)))
                  (λ h. rw h (convert_to_shares-Reads p amount true)))
                λ wanted ew.
                  let same : (if ltb held wanted then held else wanted) ≡ burnt p held amount =
                    rw (ew, eb) in
                  bind-Atomic v _
                    (raise_if
                      (ltb p.total_shares (if ltb held wanted then held else wanted)
                        || ltb p.total_assets amount)
                      (thrown "Panic(0x11)"))
                    _ (raise_if-Reads v _ _)
                    λ _ fits. (ground arith, ground arith, ground arith, rw same)
