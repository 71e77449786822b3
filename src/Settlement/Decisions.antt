-- ===== src/Settlement/Decisions.antt =====
-- Who can decide a request for a payout, and how often.
use tende.Base.{
  ℕ, List, arith, false, not, refl, some, sym, ◌∙◌, ◌≡◌, Option, Text, [], text_eq_iff, ◌∷◌, Bool,
  text_eq, ◌&&◌, ◌==◌,
}
use tende.Schema.{SettlementRequestRow, SettlementStatus}
use mathlib.Core.List.{Memᴰ}
use tende.World.{World, Store, set_store}
use tende.World.Rules.{Ends, bind-Ends, raise_if-Ends, or_raise-Ends}
use tende.World.Queries.{read-Ends}
use tende.World.Frames.{SameBase, SameBase-refl}
use tende.World.Returns.{
  Returns, bind-Returns, raise_if-Returns, or_raise-Returns, remote-Returns, respond-Ends,
}
use tende.Env.{Env}
use tende.Base.Rows.{find, update_where, find-Mem}
use tende.Settlement.{Member, Role, is_org_admin, require_org_admin}
use tende.Settlement.Requests.{
  reject_request, rejectable, decide, approve, approve_request, find_request, is_pending, not_found,
  not_pending,
}

-- The head office may decide the request, which waits for it.
pub record Decidable (member : Member) (id : ℕ) (rows : List SettlementRequestRow) : Type 0 where
  pub asker : member.role ≡ Role.org_admin
  pub request : SettlementRequestRow
  pub stored : find_request id member.merchant_id rows ≡ some request
  pub waiting : request.status ≡ SettlementStatus.pending

no_decision :
    (member : Member) (rows : List SettlementRequestRow) (id : ℕ) (r : SettlementRequestRow)
    → ¬ Decidable member id rows
    → not (is_org_admin member) ≡ false
    → find_request id member.merchant_id rows ≡ some r
    → not (is_pending r) ≡ false
    → ⊥
no_decision member rows id r refuse admin found waiting =
    refuse (record { asker = ground arith; request = r; stored = found; waiting = ground arith })

-- Where the asker is not the head office, or no request of that number waits for its merchant, an approval
-- is refused and changes nothing.
pub approve_request_refused :
    (env : Env) (member : Member) (id : ℕ) (w : World)
    → ¬ Decidable member id w.store.settlement_requests
    → Ends (λ _ _. ⊥) (λ u. SameBase w u) (approve_request env member id w)
unfolding approve_request approve require_org_admin
approve_request_refused env member id w refuse =
    let P : SettlementRequestRow → World → Type 0 = λ _ _. ⊥ in
    let E : World → Type 0 = λ u. SameBase w u in
    respond-Ends P E (approve env member id) w (
      raise_if-Ends P E (not (is_org_admin member)) _ w _ (SameBase-refl w) λ admin.
        bind-Ends P E
          (λ found u.
            (found ≡ find_request id member.merchant_id w.store.settlement_requests) × SameBase w u)
          _ _
          (read-Ends (λ v. find_request id member.merchant_id v.store.settlement_requests) w
            (λ n. refl))
          λ found u (e, same). or_raise-Ends P E found not_found u _ same λ r er.
            raise_if-Ends P E (not (is_pending r)) not_pending u _ same λ waiting. absurd (
              no_decision member w.store.settlement_requests id r refuse admin (sym e ∙ er)
                waiting))

-- A request of the merchant, of that number, that waits.
abbrev pub waits : ℕ → Text → SettlementRequestRow → Bool
waits id merchant_id r = r.id == id && text_eq r.merchant_id merchant_id && is_pending r

abbrev pub reject_with : Member → ℕ → List SettlementRequestRow → List SettlementRequestRow
reject_with member id rows =
    update_where (waits id member.merchant_id)
      (λ r. record r { status = SettlementStatus.rejected; approved_by = some member.member_id })
      rows

find-rejectable :
    (id : ℕ) (merchant_id : Text) (rows : List SettlementRequestRow) (r : SettlementRequestRow)
    → find (rejectable id merchant_id) rows ≡ some r
    → (r.id ≡ id) × (r.merchant_id ≡ merchant_id) × (r.status ≡ SettlementStatus.pending)
unfolding find
find-rejectable id merchant_id [] r e = cc
find-rejectable id merchant_id (x ∷ xs) r e =
    ground (arith, text_eq_iff x.merchant_id merchant_id, find-rejectable id merchant_id xs r)

-- The row that a rejection found, one of the merchant's under that number that waited, and the answer.
pub record Rejected (member : Member) (id : ℕ) (r : SettlementRequestRow) (w u : World)
    : Type 0 where
  pub asker : member.role ≡ Role.org_admin
  pub request : SettlementRequestRow
  pub stored : Memᴰ request w.store.settlement_requests
  pub number : request.id ≡ id
  pub own : request.merchant_id ≡ member.merchant_id
  pub waiting : request.status ≡ SettlementStatus.pending
  pub answer :
      r ≡ record request { status = SettlementStatus.rejected; approved_by = some member.member_id }
  pub written :
      u.store
      ≡ record w.store { settlement_requests = reject_with member id w.store.settlement_requests }
  pub chain : u.chain ≡ w.chain
  pub memory : u.memory ≡ w.memory

-- A rejection that succeeds was asked by the head office; a request of its merchant with that number was
-- waiting, and is the answer, rejected, with the one who decided. The waiting requests of that number and
-- merchant are marked so in the table, and nothing else has changed.
pub reject_request-Returns :
    (member : Member) (id : ℕ) (w : World)
    → Returns (λ r u. Rejected member id r w u) (reject_request member id w)
unfolding reject_request require_org_admin set_store decide
reject_request-Returns member id w =
    let rows = w.store.settlement_requests in
    let after : Store = record w.store { settlement_requests = reject_with member id rows } in
    let P : SettlementRequestRow → World → Type 0 = λ r u. Rejected member id r w u in
    let Q : Option SettlementRequestRow → World → Type 0 = λ o u.
      (o ≡ find (rejectable id member.merchant_id) rows)
      × (u.store ≡ after)
      × (u.chain ≡ w.chain)
      × (u.memory ≡ w.memory) in
    raise_if-Returns P (not (is_org_admin member)) _ w _ λ admin.
      bind-Returns P Q _ _ (remote-Returns Q _ w (λ n e. (refl, refl, refl, refl)))
        λ o u (eo, es, ec, em). or_raise-Returns P o _ u _ λ r er.
          let (numbered, mine, waits_for) =
            find-rejectable id member.merchant_id rows r (sym eo ∙ er) in
          record {
            asker = ground arith;
            request = r;
            stored = find-Mem (rejectable id member.merchant_id) rows r (sym eo ∙ er);
            number = numbered;
            own = mine;
            waiting = waits_for;
            answer = refl;
            written = es;
            chain = ec;
            memory = em;
          }
