-- ===== src/Tests/Postings.antt =====
-- The theorems on postings, retries and pages, each at the scenario.
use pay_ledger.Prelude.{◌≡◌, refl, none, some, List, [], ◌∷◌, arith}
use pay_ledger.Prelude.Int.{pos, ◌+ℤ◌, ◌-ℤ◌}
use pay_ledger.Store.Key.{
  key_eqb, account_pk, merchant_pk, idempotency_pk, entry_sort_key, has_prefix, funding_pk,
}
use pay_ledger.Store.Table.{lookup, insert}
use pay_ledger.Store.Transact.{
  WriteItem, plan, reasons, insert_all, verdict, verdict_on, holds, assign_all,
}
use pay_ledger.Program.{pure, transaction_canceled}
use pay_ledger.Program.Service.{returned, run}
use pay_ledger.Utils.{get_model_hash, deposit_request}
use pay_ledger.Idempotency.{record_write}
use pay_ledger.Ledger.Accounts.{deposit_items, deposit_canceled}
use pay_ledger.Ledger.Accounts.Conflict.{deposit_canceled-moved}
use pay_ledger.Ledger.Authorizations.Items.{authorization_item}
use pay_ledger.Ledger.Sweep.{scan_pages}
use pay_ledger.Ledger.Sweep.Pages.{Paged, scan_pages-Paged, page_count, gathered}
use pay_ledger.Books.Writes.{entry_key}
use pay_ledger.Books.Transactions.Entries.{IsPosted, capture_items-IsPosted, deposit_items-IsPosted}
use pay_ledger.Ledger.Accounts.{account_item}
use pay_ledger.Store.Item.{num, assign}
use pay_ledger.Tests.Scenario.{
  runtime, funded, answered, hold, empty_account, with_shop, with_funds, with_hold, with_capture,
  rows_of, deposit_writes, deposit_plan, capture_writes, capture_plan,
}
use pay_ledger.Tests.Service.{service, select}

capture_items-IsPosted_example :
    IsPosted
      (entry_key (account_pk "ann") "2024-01-01T00:00:09" "transaction_2" "0")
      "transaction_2"
      "ann"
      (pos 30)
      "DEBIT"
      with_capture
    × IsPosted
        (entry_key (merchant_pk "shop") "2024-01-01T00:00:09" "transaction_2" "1")
        "transaction_2"
        "shop"
        (pos 30)
        "CREDIT"
        with_capture
unfolding has_prefix
capture_items-IsPosted_example =
    capture_items-IsPosted "2024-01-01T00:00:09" "transaction_2" "k3" runtime with_hold answered 9
      hold "ann" refl (rows_of capture_writes with_hold) capture_plan

deposit_items-IsPosted_example :
    IsPosted
      (entry_key (account_pk "ann") "2024-01-01T00:00:05" "transaction_1" "0")
      "transaction_1"
      "ann"
      (pos 100)
      "DEBIT"
      with_funds
    × IsPosted
        (entry_key funding_pk "2024-01-01T00:00:05" "transaction_1" "1")
        "transaction_1"
        "funding"
        (pos 100)
        "CREDIT"
        with_funds
deposit_items-IsPosted_example =
    deposit_items-IsPosted "2024-01-01T00:00:05" "transaction_1" "k1" runtime with_shop answered 5
      empty_account "ann" (pos 100) (some (deposit_request funded))
      (rows_of deposit_writes with_shop) deposit_plan

-- A second deposit that has read the account before the first was committed.
abbrev late_deposit : List WriteItem
late_deposit =
    deposit_items "ann" empty_account (pos 100) "now" "transaction_9"
      (record_write runtime "k9" (some (deposit_request funded)) answered 9)

deposit_canceled-moved_example :
    (plan late_deposit with_funds ≡ none)
    × (deposit_canceled runtime "k9" (transaction_canceled (reasons late_deposit with_funds))
        ≡ pure none)
unfolding plan rows_of verdict verdict_on holds assign_all insert_all lookup insert key_eqb
    account_pk merchant_pk idempotency_pk entry_sort_key get_model_hash has_prefix ◌+ℤ◌ ◌-ℤ◌
deposit_canceled-moved_example =
    deposit_canceled-moved runtime with_funds "ann" empty_account (pos 100)
      (assign "current_balance" (num (pos 100))
        (assign "available_balance" (num (pos 100)) (account_item "ann")))
      "now" "transaction_9" "k9" (some (deposit_request funded)) answered 9 refl (λ p. cc p.0) refl

abbrev one_page : Paged service "2024-02-01" with_hold none
one_page = Paged.last with_hold none _ refl refl

scan_pages-Paged_example :
    (run service (scan_pages 3 "2024-02-01" none []) with_hold).0
    ≡ returned (authorization_item runtime hold ∷ [])
unfolding plan rows_of verdict verdict_on holds assign_all insert_all lookup insert key_eqb
    account_pk merchant_pk idempotency_pk entry_sort_key get_model_hash has_prefix ◌+ℤ◌ ◌-ℤ◌ select
    page_count gathered
scan_pages-Paged_example = scan_pages-Paged service "2024-02-01" one_page 3 [] (omega arith)
