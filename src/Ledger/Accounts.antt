-- ===== src/Ledger/Accounts.antt =====
-- `AccountRepository` of shared/ledger.py.
pub mod Conflict
use pay_ledger.Prelude.{
  ℕ, zero, suc, String, Option, none, some, List, [], ◌∷◌, false, if◌then◌else◌,
}
use pay_ledger.Prelude.Int.{ℤ, pos, ◌+ℤ◌}
use pay_ledger.Store.Item.{str, num, Item, attributes}
use pay_ledger.Store.Key.{
  Key, ledger_pk_name, ledger_sort_key_name, ledger_gsi1_pk_name, ledger_gsi1_sort_key_name,
  account_pk, funding_pk, entry_sort_key, entry_gsi1_pk, meta, concat,
}
use pay_ledger.Store.Transact.{
  WriteItem, put, update, always, attribute_not_exists, both, equals, constant, Code,
}
use pay_ledger.Domain.{Account, Response}
use pay_ledger.Program.{
  Prog, pure, raise, call, ◌>>=◌, ◌>>◌, catch, get, put_item, received, clock, new_hex, transact,
  or_raise, text_field, number_field, Exception, account_already_exists, account_not_found,
  transaction_canceled, runtime_error,
}
use pay_ledger.Runtime.{Runtime}
use pay_ledger.Utils.{RequestModel}
use pay_ledger.Idempotency.{transact_item, resolve_conflict, check_failed_at}
use pay_ledger.Ledger.Merchants.{or_exists}

abbrev pub account_key : String → Key
account_key account_id = record { pk = account_pk account_id; sk = meta }

abbrev pub read_account : Option Item → Prog (Option Account)
read_account none = pure none
read_account (some item) = do
  account_id ← text_field "account_id" item
  current_balance ← number_field "current_balance" item
  available_balance ← number_field "available_balance" item
  pure (
      some (record {
        account_id = account_id;
        current_balance = current_balance;
        available_balance = available_balance;
      }))

unfoldable pub get_account : String → Prog (Option Account)
get_account account_id = do item ← get (account_key account_id) false; read_account item

abbrev pub account_item : String → Item
account_item account_id = attributes (
    (ledger_pk_name, str (account_pk account_id))
    ∷ (ledger_sort_key_name, str meta)
    ∷ ("account_id", str account_id)
    ∷ ("current_balance", num (pos 0))
    ∷ ("available_balance", num (pos 0))
    ∷ [])

unfoldable pub insert_account : Account → Prog (Unit {0})
insert_account account =
    call (put_item (account_item account.account_id) (attribute_not_exists ledger_pk_name))
      λ r. received r >>= or_exists account_already_exists

-- The compare-and-swap of the balances: it applies if they are still what was read.
abbrev pub balance_swap : String → Account → ℤ → WriteItem
balance_swap account_id account amount =
    update (account_key account_id)
      (("available_balance", constant (num (account.available_balance +ℤ amount)))
        ∷ ("current_balance", constant (num (account.current_balance +ℤ amount)))
        ∷ [])
      (both (equals "available_balance" (num account.available_balance))
        (equals "current_balance" (num account.current_balance)))

-- An entry of the ledger with no authorization behind it.
abbrev pub deposit_entry :
    (pk now transaction_id n party_id party_type : String) → ℤ → String → WriteItem
deposit_entry pk now transaction_id n party_id party_type amount entry_type =
    put
      (attributes (
        (ledger_pk_name, str pk)
        ∷ (ledger_sort_key_name, str (entry_sort_key now transaction_id n))
        ∷ (ledger_gsi1_pk_name, str (entry_gsi1_pk transaction_id n))
        ∷ (ledger_gsi1_sort_key_name, str (concat ("ENTRY#" ∷ n ∷ [])))
        ∷ ("transaction_id", str transaction_id)
        ∷ ("party_id", str party_id)
        ∷ ("party_type", str party_type)
        ∷ ("amount", num amount)
        ∷ ("entry_type", str entry_type)
        ∷ ("created_at", str now)
        ∷ []))
      always

-- The `TransactItems` of a deposit, in their order.
abbrev pub deposit_items :
    String → Account → ℤ → (now transaction_id : String) → WriteItem → List WriteItem
deposit_items account_id account amount now transaction_id idempotency_write =
    balance_swap account_id account amount
    ∷ deposit_entry (account_pk account_id) now transaction_id "0" account_id "ACCOUNT" amount
        "DEBIT"
    ∷ deposit_entry funding_pk now transaction_id "1" "funding" "EXTERNAL" amount "CREDIT"
    ∷ idempotency_write
    ∷ []

module _ (rt : Runtime) where
  abbrev pub replay_or_retry : List Code → Option Response → Prog (Option Response)
  replay_or_retry codes (some response) = pure (some response)
  replay_or_retry codes none =
      if check_failed_at 0 codes then pure none else raise (transaction_canceled codes)

  -- The `except` of `deposit`; `none` is `continue`.
  unfoldable pub deposit_canceled : String → Exception → Prog (Option Response)
  deposit_canceled idempotency_key (transaction_canceled codes) = do
    replay ← resolve_conflict rt idempotency_key codes 3
    replay_or_retry codes replay
  deposit_canceled idempotency_key e = raise e

  abbrev pub deposited : Account → String → ℤ → Account
  deposited account account_id amount = record {
    account_id = account_id;
    current_balance = account.current_balance +ℤ amount;
    available_balance = account.available_balance +ℤ amount;
  }

  -- One round of the loop; `none` goes on to the next.
  unfoldable pub deposit_attempt :
      String → ℤ → String → RequestModel → (Account → Response) → Prog (Option Response)
  unfolding get_account deposit_canceled
  deposit_attempt account_id amount idempotency_key request build_response = do
    found ← get_account account_id
    account ← or_raise found account_not_found
    let response = build_response (deposited account account_id amount)
    hex ← new_hex
    now ← clock
    let transaction_id = concat ("transaction_" ∷ hex ∷ [])
    catch
        (do
          idempotency_write ← transact_item rt idempotency_key (some request) response
          transact (
              deposit_items account_id account amount (rt.isoformat now) transaction_id
                idempotency_write)
          pure (some response))
        (deposit_canceled idempotency_key)

  abbrev pub or_next : Option Response → Prog Response → Prog Response
  or_next (some response) next = pure response
  or_next none next = next

  -- `deposit`, with `max_attempts` rounds left; the count is of the message alone.
  unfoldable pub deposit :
      String → ℤ → String → RequestModel → (Account → Response) → ℕ → Prog Response
  unfolding deposit_attempt
  deposit account_id amount idempotency_key request build_response zero =
      raise (runtime_error (concat ("deposit to account " ∷ account_id ∷ " did not commit" ∷ [])))
  deposit account_id amount idempotency_key request build_response (suc attempts) = do
    done ← deposit_attempt account_id amount idempotency_key request build_response
    or_next done (deposit account_id amount idempotency_key request build_response attempts)
