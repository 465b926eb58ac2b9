-- ===== src/Ledger/Authorizations/Items.antt =====
-- The `TransactItems` of `AuthorizationRepository`, in their order.
use pay_ledger.Prelude.{String, List, [], ◌∷◌}
use pay_ledger.Prelude.Int.{ℤ}
use pay_ledger.Store.Item.{str, num, Item, attributes}
use pay_ledger.Store.Key.{
  Key, ledger_pk_name, ledger_sort_key_name, ledger_gsi1_pk_name, ledger_gsi1_sort_key_name,
  account_pk, merchant_pk, authorization_gsi1_pk, entry_sort_key, entry_gsi1_pk, meta, concat,
}
use pay_ledger.Store.Transact.{
  WriteItem, put, update, always, at_least, equals, constant, plus, minus,
}
use pay_ledger.Domain.{
  Authorization, AuthorizationStatus, pending, captured, voided, expired, status_value,
}
use pay_ledger.Runtime.{Runtime}

abbrev balance_key : String → Key
balance_key account_id = record { pk = account_pk account_id; sk = meta }

-- `SET available_balance = available_balance - :amt`, if it covers the amount.
abbrev pub reserve : String → ℤ → WriteItem
reserve account_id amount =
    update (balance_key account_id) (("available_balance", minus "available_balance" amount) ∷ [])
      (at_least "available_balance" amount)

abbrev pub release : String → ℤ → WriteItem
release account_id amount =
    update (balance_key account_id) (("available_balance", plus "available_balance" amount) ∷ [])
      always

-- The item of a new authorization.
abbrev pub authorization_item : Runtime → Authorization → Item
authorization_item rt a = attributes (
    (ledger_pk_name, str (account_pk a.account_id))
    ∷ (ledger_sort_key_name, str a.sort_key)
    ∷ (ledger_gsi1_pk_name, str (authorization_gsi1_pk a.authorization_id))
    ∷ (ledger_gsi1_sort_key_name, str meta)
    ∷ ("authorization_id", str a.authorization_id)
    ∷ ("merchant_id", str a.merchant_id)
    ∷ ("amount", num a.amount)
    ∷ ("status", str (status_value pending))
    ∷ ("created_at", str (rt.isoformat a.created_at))
    ∷ ("updated_at", str (rt.isoformat a.updated_at))
    ∷ ("expires_at", str (rt.date_isoformat a.expires_at))
    ∷ ("account_id", str a.account_id)
    ∷ [])

abbrev pub put_authorization : Runtime → Authorization → WriteItem
put_authorization rt a = put (authorization_item rt a) always

-- The state change of an authorization, guarded by `#status = :pending`.
abbrev pub close_hold : String → String → AuthorizationStatus → String → WriteItem
close_hold account_id sort_key status now =
    update (record { pk = account_pk account_id; sk = sort_key })
      (("status", constant (str (status_value status))) ∷ ("updated_at", constant (str now)) ∷ [])
      (equals "status" (str (status_value pending)))

-- An entry of the ledger for a captured authorization.
abbrev pub capture_entry :
    Authorization → (pk now transaction_id n party_id party_type entry_type : String) → WriteItem
capture_entry a pk now transaction_id n party_id party_type entry_type =
    put
      (attributes (
        (ledger_pk_name, str pk)
        ∷ (ledger_sort_key_name, str (entry_sort_key now transaction_id n))
        ∷ (ledger_gsi1_pk_name, str (entry_gsi1_pk transaction_id n))
        ∷ (ledger_gsi1_sort_key_name, str (concat ("ENTRY#" ∷ n ∷ [])))
        ∷ ("transaction_id", str transaction_id)
        ∷ ("party_id", str party_id)
        ∷ ("party_type", str party_type)
        ∷ ("amount", num a.amount)
        ∷ ("entry_type", str entry_type)
        ∷ ("created_at", str now)
        ∷ ("source_auth_id", str a.authorization_id)
        ∷ []))
      always

abbrev pub debit_current : String → ℤ → WriteItem
debit_current account_id amount =
    update (balance_key account_id) (("current_balance", minus "current_balance" amount) ∷ [])
      always

abbrev pub credit_payable : String → ℤ → WriteItem
credit_payable merchant_id amount =
    update (record { pk = merchant_pk merchant_id; sk = meta })
      (("payable_balance", plus "payable_balance" amount) ∷ []) always

abbrev pub hold_items : Runtime → Authorization → WriteItem → List WriteItem
hold_items rt a idempotency_write =
    reserve a.account_id a.amount ∷ put_authorization rt a ∷ idempotency_write ∷ []

abbrev pub capture_items :
    Authorization → String → (now transaction_id : String) → WriteItem → List WriteItem
capture_items a account_id now transaction_id idempotency_write =
    debit_current account_id a.amount
    ∷ credit_payable a.merchant_id a.amount
    ∷ capture_entry a (account_pk account_id) now transaction_id "0" account_id "ACCOUNT" "DEBIT"
    ∷ capture_entry a (merchant_pk a.merchant_id) now transaction_id "1" a.merchant_id "MERCHANT"
        "CREDIT"
    ∷ close_hold account_id a.sort_key captured now
    ∷ idempotency_write
    ∷ []

abbrev pub void_items : Authorization → String → String → WriteItem → List WriteItem
void_items a account_id now idempotency_write =
    release account_id a.amount
    ∷ close_hold account_id a.sort_key voided now
    ∷ idempotency_write
    ∷ []

-- The two writes for an expired hold.
abbrev pub expire_items : String → ℤ → String → String → List WriteItem
expire_items account_id amount sort_key now =
    release account_id amount ∷ close_hold account_id sort_key expired now ∷ []
