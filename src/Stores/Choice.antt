-- ===== src/Stores/Choice.antt =====
-- The corridor that a product is given.
use tende.Base.{
  All, Bool, Bool-cases, List, Text, [], false, inl, inr, select, to_upper, true, ◌∷◌, ◌≡◌, ◌⊎◌,
  Option, arith, length, ltb, not, not-false, or_else, refl, text_eq, text_eq_iff, ap, ok,
}
use mathlib.Core.List.{Memᴰ}
use tende.World.{World}
use tende.World.Returns.{
  Returns, Returns-mono, bind-Returns, or_raise_value, raise_if-Returns, if-Returns, self-Returns,
}
use tende.Env.{is_empty}
use tende.Stores.Corridors.{
  ProductCorridor, choose_corridor, list_product_corridors, resolve_product_corridor, has_currency,
}
use tende.Base.Rows.{find, find-holds, find-All, find-Mem}

select-every : {A : Type 0} (p : A → Bool) (xs : List A) → All (λ x. p x ≡ true) (select p xs)
select-every p [] = tt
select-every p (x ∷ xs) = elim (Bool-cases (p x)) [
  | inl h ↦ rw h (h, select-every p xs)
  | inr h ↦ rw h (select-every p xs)
]

-- One of the list's for the country that is given, or the only one, where none is given.
abbrev pub Chosen : List ProductCorridor → Text → ProductCorridor → Type 0
Chosen cs country c =
    ((is_empty country ≡ false) × (c.country_code ≡ to_upper country) × Memᴰ c cs)
    ⊎ ((is_empty country ≡ true) × (cs ≡ c ∷ []))

choose_corridor-Returns :
    (cur : Text) (cs : List ProductCorridor) (country : Text) (w : World)
    → All (λ c. has_currency cur c ≡ true) cs
    → Returns (λ c u. (c.currency_code ≡ cur) × Chosen cs country c) (choose_corridor cs country w)
unfolding choose_corridor
choose_corridor-Returns cur [] country w all = tt
choose_corridor-Returns cur (c ∷ cs) country w all =
    let P : ProductCorridor → World → Type 0 =
      λ d u. (d.currency_code ≡ cur) × Chosen (c ∷ cs) country d in
    if-Returns P (not (is_empty country)) _ _ w
      (λ given.
        or_raise_value P (find (λ d. text_eq d.country_code (to_upper country)) (c ∷ cs)) _ w
          (λ d found. (
            (text_eq_iff d.currency_code cur).0 (
                find-All (λ d. has_currency cur d ≡ true)
                  (λ d. text_eq d.country_code (to_upper country)) (c ∷ cs) d all found),
            inl (
              ground arith,
              (text_eq_iff d.country_code (to_upper country)).0
                  (find-holds (λ d. text_eq d.country_code (to_upper country)) (c ∷ cs) d found),
              find-Mem (λ d. text_eq d.country_code (to_upper country)) (c ∷ cs) d found,
            ),
          )))
      (λ none_given. raise_if-Returns P (ltb 1 (length (c ∷ cs))) _ w _ (λ one.
        ((text_eq_iff c.currency_code cur).0 all.0, inr (not-false _ none_given, alone cs one))))
  where
    alone : (cs : List ProductCorridor) → ltb 1 (length (c ∷ cs)) ≡ false → c ∷ cs ≡ c ∷ []
    alone [] h = refl
    alone (d ∷ ds) h = absurd (ground arith)

-- A product's corridor, where it is resolved, is one of those that are listed for the merchant: it has the
-- currency that was asked for, in upper case, and the country that was given, or else it is the only one
-- listed with that currency.
pub resolve_product_corridor-Returns :
    (merchant_id currency_code : Text) (country : Option Text) (w : World)
    → Returns
        (λ c u.
          (corridors : List ProductCorridor) × ((list_product_corridors merchant_id w).0
            ≡ ok corridors)
          × (c.currency_code ≡ to_upper currency_code)
          × Chosen
              (select (has_currency (to_upper currency_code)) corridors)
              (or_else country [])
              c)
        (resolve_product_corridor merchant_id currency_code country w)
unfolding resolve_product_corridor
resolve_product_corridor-Returns merchant_id currency_code country w =
    let cur = to_upper currency_code in
    bind-Returns _ (λ cs u. list_product_corridors merchant_id w ≡ (ok cs, u))
      (list_product_corridors merchant_id w) _ (self-Returns (list_product_corridors merchant_id w))
      λ corridors u listed.
        Returns-mono _
          (λ c v.
            (c.currency_code ≡ cur)
            × Chosen (select (has_currency cur) corridors) (or_else country []) c)
          (choose_corridor (select (has_currency cur) corridors) (or_else country []) u)
          (λ c v (same, chosen). (corridors, ap (λ r. r.0) listed, same, chosen))
          (choose_corridor-Returns cur (select (has_currency cur) corridors) (or_else country []) u
            (select-every (has_currency cur) corridors))
