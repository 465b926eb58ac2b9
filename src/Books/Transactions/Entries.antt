-- ===== src/Books/Transactions/Entries.antt =====
-- The double entry: what a capture and a deposit post to the ledger.
use pay_ledger.Prelude.{ℕ, String, ◌≡◌, refl, Option, none, some, List, [], ◌∷◌, true, false, arith}
use pay_ledger.Prelude.Int.{ℤ}
use pay_ledger.Store.Item.{str, num, Item}
use pay_ledger.Store.Key.{
  Key, key_eqb, key_eqb-is_hold, key_eqb-initial, account_pk, merchant_pk, funding_pk,
  initial-merchant_pk, initial-idempotency_pk, initial-account_pk, initial-funding_pk, is_hold,
}
use pay_ledger.Store.Table.{Table, lookup, insert}
use pay_ledger.Store.Transact.{plan, insert_all, always}
use pay_ledger.Store.Transact.Inversion.{plan-Each, put-pass}
use pay_ledger.Domain.{Account, Authorization, Response}
use pay_ledger.Runtime.{Runtime}
use pay_ledger.Utils.{RequestModel}
use pay_ledger.Idempotency.{record_write, idempotency_item_key}
use pay_ledger.Ledger.Accounts.{account_key, deposit_items}
use pay_ledger.Ledger.Merchants.{merchant_key}
use pay_ledger.Ledger.Authorizations.{hold_key}
use pay_ledger.Ledger.Authorizations.Items.{capture_items}
use pay_ledger.Books.Writes.{entry_key, IsAside-entry}
use pay_ledger.Books.Transactions.Effects.{lookup-written}

-- The table has an entry of this transaction, party, amount and type at the key.
abbrev pub IsPosted : Key → (transaction_id party_id : String) → ℤ → String → Table → Type 0
IsPosted k transaction_id party_id amount entry_type t =
    (item : Item) × (lookup k t ≡ some item)
    × (item "transaction_id" ≡ some (str transaction_id))
    × (item "party_id" ≡ some (str party_id))
    × (item "amount" ≡ some (num amount))
    × (item "entry_type" ≡ some (str entry_type))

module _ (now id key : String) where
  merchant_apart :
      (b m : String)
      → key_eqb (entry_key (merchant_pk m) now id "1") (entry_key (account_pk b) now id "0") ≡ false
  merchant_apart b m =
      key_eqb-initial _ _ (omega (arith, initial-merchant_pk m, initial-account_pk b))

  funding_apart :
      (b : String)
      → key_eqb (entry_key funding_pk now id "1") (entry_key (account_pk b) now id "0") ≡ false
  funding_apart b = key_eqb-initial _ _ (omega (arith, initial-funding_pk, initial-account_pk b))

  record_apart_account :
      (b n : String)
      → key_eqb (idempotency_item_key key) (entry_key (account_pk b) now id n) ≡ false
  record_apart_account b n =
      key_eqb-initial _ _ (omega (arith, initial-idempotency_pk key, initial-account_pk b))

  record_apart_merchant :
      (m n : String)
      → key_eqb (idempotency_item_key key) (entry_key (merchant_pk m) now id n) ≡ false
  record_apart_merchant m n =
      key_eqb-initial _ _ (omega (arith, initial-idempotency_pk key, initial-merchant_pk m))

  record_apart_funding :
      (n : String) → key_eqb (idempotency_item_key key) (entry_key funding_pk now id n) ≡ false
  record_apart_funding n =
      key_eqb-initial _ _ (omega (arith, initial-idempotency_pk key, initial-funding_pk))

  hold_apart :
      (pk n : String) (k : Key) → is_hold k ≡ true → key_eqb k (entry_key pk now id n) ≡ false
  hold_apart pk n k h =
      key_eqb-is_hold (entry_key pk now id n) k (IsAside-entry pk now id n).no_hold h

  module _ (rt : Runtime) (t : Table) (response : Response) (at : ℕ) where
    -- A capture that is committed has posted two entries of the hold's amount: a DEBIT of the account
    -- and a CREDIT of the merchant, where the hold's sort key is that of an authorization.
    pub capture_items-IsPosted :
        (a : Authorization) (b : String)
        → is_hold (hold_key b a.sort_key) ≡ true
        → (rows : List (Key × Item))
        → plan (capture_items a b now id (record_write rt key none response at)) t ≡ some rows
        → IsPosted (entry_key (account_pk b) now id "0") id b a.amount "DEBIT" (insert_all rows t)
          × IsPosted
              (entry_key (merchant_pk a.merchant_id) now id "1")
              id
              a.merchant_id
              a.amount
              "CREDIT"
              (insert_all rows t)
    unfolding insert_all
    capture_items-IsPosted a b prefix rows h =
        plan-Each (capture_items a b now id (record_write rt key none response at)) t
          (λ rs.
            IsPosted (entry_key (account_pk b) now id "0") id b a.amount "DEBIT" (insert_all rs t)
            × IsPosted (entry_key (merchant_pk a.merchant_id) now id "1") id a.merchant_id a.amount
                "CREDIT" (insert_all rs t))
          rows h
          λ v p w q e0 p0 e1 p1 c pc r pr.
            let m = a.merchant_id in
            let hk = hold_key b a.sort_key in
            let last : List (Key × Item) = (hk, c) ∷ (idempotency_item_key key, r) ∷ [] in
            let u = insert (merchant_key m) w (insert (account_key b) v t) in
            let zero_key = entry_key (account_pk b) now id "0" in
            let one_key = entry_key (merchant_pk m) now id "1" in
            let i0 = (put-pass _ always t p0).1 in
            let i1 = (put-pass _ always t p1).1 in
            (
              (
                e0,
                lookup-written zero_key e0 ((one_key, e1) ∷ last) u (
                  merchant_apart b m,
                  (hold_apart (account_pk b) "0" hk prefix, (record_apart_account b "0", tt)),
                ),
                rw i0 refl,
                rw i0 refl,
                rw i0 refl,
                rw i0 refl,
              ),
              (
                e1,
                lookup-written one_key e1 last (insert zero_key e0 u)
                    (hold_apart (merchant_pk m) "1" hk prefix, (record_apart_merchant m "1", tt)),
                rw i1 refl,
                rw i1 refl,
                rw i1 refl,
                rw i1 refl,
              ),
            )

    -- A deposit that is committed has posted two entries of its amount: a DEBIT of the account and a
    -- CREDIT of the external funding.
    pub deposit_items-IsPosted :
        (account : Account) (b : String) (amount : ℤ) (request : Option RequestModel)
        (rows : List (Key × Item))
        → plan (deposit_items b account amount now id (record_write rt key request response at)) t
          ≡ some rows
        → IsPosted (entry_key (account_pk b) now id "0") id b amount "DEBIT" (insert_all rows t)
          × IsPosted
              (entry_key funding_pk now id "1")
              id
              "funding"
              amount
              "CREDIT"
              (insert_all rows t)
    unfolding insert_all
    deposit_items-IsPosted account b amount request rows h =
        plan-Each (deposit_items b account amount now id (record_write rt key request response at))
          t
          (λ rs.
            IsPosted (entry_key (account_pk b) now id "0") id b amount "DEBIT" (insert_all rs t)
            × IsPosted (entry_key funding_pk now id "1") id "funding" amount "CREDIT"
                (insert_all rs t))
          rows h
          λ v p e0 p0 e1 p1 r pr.
            let last : List (Key × Item) = (idempotency_item_key key, r) ∷ [] in
            let u = insert (account_key b) v t in
            let zero_key = entry_key (account_pk b) now id "0" in
            let one_key = entry_key funding_pk now id "1" in
            let i0 = (put-pass _ always t p0).1 in
            let i1 = (put-pass _ always t p1).1 in
            (
              (
                e0,
                lookup-written zero_key e0 ((one_key, e1) ∷ last) u
                    (funding_apart b, (record_apart_account b "0", tt)),
                rw i0 refl,
                rw i0 refl,
                rw i0 refl,
                rw i0 refl,
              ),
              (
                e1,
                lookup-written one_key e1 last (insert zero_key e0 u)
                    (record_apart_funding "1", tt),
                rw i1 refl,
                rw i1 refl,
                rw i1 refl,
                rw i1 refl,
              ),
            )
