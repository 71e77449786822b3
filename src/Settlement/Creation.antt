-- ===== src/Settlement/Creation.antt =====
-- What a request for a payout is when it has been made.
use tende.Base.{
  ℕ, Bool, List, Text, [], false, if◌then◌else◌, none, not, refl, some, text_eq, ◌&&◌, ◌++◌, ◌||◌,
  ◌∷◌, ◌≡◌, ◌≤◌, Action, ap, arith, pure, subst, sym, ◌∙◌,
}
use tende.World.Frames.{ReadOnly, within, unchanged, store_kept, no_transaction, SameBase}
use tende.Settlement.{
  Member, bank_payout_label, SettlementRequestRow, World, is_org_admin, fresh_id, SettlementStatus,
  set_store, Env, is_empty, meta_of, find_merchant, get_merchant_meta, onchain,
}
use tende.Settlement.Requests.{
  choose_destination, insert_request, create_request, PayoutRequest, request_of, create, conclude,
}
use tende.Settlement.Approval.{paid_onchain, meta-Returns}
use tende.World.Returns.{
  Returns, respond-Returns, raise_if-Returns, bind-Returns, remote-Returns, or_raise-Returns,
  Within-Returns, Returns-both,
}
use tende.World.{fresh_id, set_store}
use tende.Revenue.{get_revenue_config}
use tende.Revenue.Frames.{get_revenue_config-KeepsStore, get_revenue_config-Quiet}

bank_payout_label-ReadOnly : (merchant_id : Text) → ReadOnly (bank_payout_label merchant_id)
unfolding bank_payout_label
bank_payout_label-ReadOnly merchant_id = search within depth 20

choose_destination-ReadOnly :
    (q : PayoutRequest) (is_fiat : Bool) (merchant_id : Text)
    → ReadOnly (choose_destination q is_fiat merchant_id)
unfolding choose_destination
choose_destination-ReadOnly q is_fiat merchant_id =
    search (within, bank_payout_label-ReadOnly) depth 20

-- The row that stands for a request that nobody has executed.
abbrev pub Recorded : Member → List SettlementRequestRow → SettlementRequestRow → World → Type 0
Recorded member rows r u =
    (r.requested_by ≡ member.member_id)
    × (r.merchant_id ≡ member.merchant_id)
    × (r.status
        ≡ (if is_org_admin member then SettlementStatus.approved else SettlementStatus.pending))
    × (r.approved_by ≡ (if is_org_admin member then some member.member_id else none))
    × (u.store.settlement_requests ≡ rows ++ r ∷ [])

insert_request-Returns :
    (env : Env) (member : Member) (q : PayoutRequest) (dest : Text) (fee_bps : ℕ) (w : World)
    → Returns
        (λ r u. Recorded member w.store.settlement_requests r u × (u.chain ≡ w.chain))
        (insert_request env member q dest fee_bps w)
unfolding insert_request request_of fresh_id set_store
insert_request-Returns env member q dest fee_bps w =
    let P : SettlementRequestRow → World → Type 0 =
      λ r u. Recorded member w.store.settlement_requests r u × (u.chain ≡ w.chain) in
    remote-Returns P _ w λ n e.
      or_raise-Returns P (env.numeric_2 q.amount) _ _ _
        λ amount ea. ((refl, refl, refl, refl, refl), refl)

unpaid : (a b : Bool) → (a && b) ≡ false → (a && not (not b)) ≡ false
unpaid a b h = ground arith

conclude_waits :
    (env : Env) (member : Member) (is_fiat : Bool) (r : SettlementRequestRow)
    → (is_org_admin member && not is_fiat) ≡ false
    → conclude env member is_fiat r ≡ pure r
unfolding conclude
conclude_waits env member is_fiat r h = rw h refl

-- A request that is not executed at once, because its asker is not the head office or its merchant is not
-- paid on the chain, is recorded under its asker; the head office's own is approved by the asker, any other
-- waits, and no transaction is sent.
pub create_request-Returns :
    (env : Env) (member : Member) (q : PayoutRequest) (w : World)
    → (is_org_admin member && paid_onchain member.merchant_id w) ≡ false
    → Returns
        (λ r u. Recorded member w.store.settlement_requests r u × (u.chain ≡ w.chain))
        (create_request env member q w)
unfolding create_request create
create_request-Returns env member q w later =
    let P : SettlementRequestRow → World → Type 0 =
      λ r u. Recorded member w.store.settlement_requests r u × (u.chain ≡ w.chain) in
    respond-Returns P (create env member q) w (
      raise_if-Returns P (is_empty q.amount || is_empty q.currency) _ w _ λ _.
        bind-Returns P
          (λ m u. (m ≡ meta_of (find_merchant member.merchant_id w.store.merchants)) × SameBase w u)
          (get_merchant_meta member.merchant_id w) _ (meta-Returns member.merchant_id w)
          λ m u (em, same_u).
            let is_fiat = not (text_eq m.settlement_type onchain) in
            bind-Returns P (λ _ v. SameBase u v) (choose_destination q is_fiat member.merchant_id u)
              _
              (Within-Returns unchanged _ (choose_destination-ReadOnly q is_fiat member.merchant_id)
                u)
              λ dest v same_v.
                bind-Returns P
                  (λ _ x. ((x.store ≡ v.store) × (v.net.now ≤ x.net.now)) × (x.chain ≡ v.chain))
                  (get_revenue_config v) _
                  (Returns-both _ _ (get_revenue_config v)
                    (Within-Returns store_kept get_revenue_config get_revenue_config-KeepsStore v)
                    (Within-Returns no_transaction get_revenue_config get_revenue_config-Quiet v))
                  λ revenue x ((kept, _), same_x).
                    bind-Returns P
                      (λ r y. Recorded member x.store.settlement_requests r y × (y.chain ≡ x.chain))
                      (insert_request env member q dest revenue.settlement_fee_bps x) _
                      (insert_request-Returns env member q dest revenue.settlement_fee_bps x)
                      λ r y (recorded, same_y).
                        subst (λ (k : Action World SettlementRequestRow). Returns P (k y))
                          (sym (
                            conclude_waits env member is_fiat r (
                              unpaid (is_org_admin member) (text_eq m.settlement_type onchain) (
                                ap (λ k. is_org_admin member && text_eq k.settlement_type onchain)
                                  em
                                ∙ later))))
                          (
                            subst (λ s. Recorded member s.settlement_requests r y)
                                (kept ∙ same_v.store ∙ same_u.store) recorded,
                            same_y ∙ same_x ∙ same_v.chain ∙ same_u.chain,
                          ))
