-- ===== src/Tests/Refusals.antt =====
-- The theorems on refusals, replays and what is read back, each at the scenario.
use pay_ledger.Prelude.{◌≡◌, refl, none, some, [], ◌∷◌, arith, get_elem?}
use pay_ledger.Prelude.Int.{pos, ◌+ℤ◌, ◌-ℤ◌}
use pay_ledger.Store.Item.{str, num, Item, assign}
use pay_ledger.Store.Key.{
  key_eqb, account_pk, merchant_pk, idempotency_pk, entry_sort_key, has_prefix,
}
use pay_ledger.Store.Table.{lookup, insert}
use pay_ledger.Store.Transact.{
  WriteItem, plan, reasons, insert_all, verdict, verdict_on, holds, assign_all,
  conditional_check_failed,
}
use pay_ledger.Errors.{idempotency_key_reuse}
use pay_ledger.Domain.{Authorization}
use pay_ledger.Program
use pay_ledger.Program.{
  pure, transaction_canceled, stored, check_failed, raise, api_error, authorization_not_pending,
}
use pay_ledger.Program.Service.{returned, raised, run}
use pay_ledger.Utils.{authorization_request, deposit_request, get_model_hash}
use pay_ledger.Idempotency.{record_write, record_item, check_replay}
use pay_ledger.Idempotency.Replay.{spent_key-plan, check_replay-same, check_replay-other}
use pay_ledger.Ledger.Accounts.{account_item}
use pay_ledger.Ledger.Authorizations.{read_authorization, insert_canceled}
use pay_ledger.Ledger.Authorizations.Items.{
  authorization_item, hold_items, capture_items, void_items, expire_items, release,
}
use pay_ledger.Ledger.Authorizations.ReadBack.{read_authorization-authorization_item}
use pay_ledger.Ledger.Authorizations.Refusal.{closed_hold-plan, short_hold-plan}
use pay_ledger.Api.Functions.{create_account}
use pay_ledger.Api.SignUp.{create_account-again}
use pay_ledger.Program.Cost.{spent, puts}
use pay_ledger.Tests.Scenario.{
  runtime, requested, funded, answered, hold, opened, with_funds, with_hold, with_capture, rows_of,
}
use pay_ledger.Tests.Service.{service, service-Documented}

abbrev k9_write : WriteItem
k9_write = record_write runtime "k9" none answered 9

closed_hold-plan_example :
    let captures = capture_items hold "ann" "now" "transaction_9" k9_write in
    let voids = void_items hold "ann" "now" k9_write in
    let expires = expire_items "ann" (pos 30) hold.sort_key "now" in
    (plan captures with_capture ≡ none)
    × (get_elem? (reasons captures with_capture) 4 ≡ some conditional_check_failed)
    × (plan voids with_capture ≡ none)
    × (get_elem? (reasons voids with_capture) 1 ≡ some conditional_check_failed)
    × (plan expires with_capture ≡ none)
    × (get_elem? (reasons expires with_capture) 1 ≡ some conditional_check_failed)
unfolding plan rows_of verdict verdict_on holds assign_all insert_all lookup insert key_eqb
    account_pk merchant_pk idempotency_pk entry_sort_key get_model_hash has_prefix ◌+ℤ◌ ◌-ℤ◌
closed_hold-plan_example =
    closed_hold-plan with_capture hold "ann"
      (assign "updated_at" (str "2024-01-01T00:00:09")
        (assign "status" (str "CAPTURED") (authorization_item runtime hold)))
      refl (λ e. cc) "now" "transaction_9" k9_write

abbrev large_hold : Authorization
large_hold = record hold { amount = pos 200 }

short_hold-plan_example :
    (plan (hold_items runtime large_hold k9_write) with_funds ≡ none)
    × (insert_canceled runtime "k9"
          (transaction_canceled (reasons (hold_items runtime large_hold k9_write) with_funds))
        ≡ raise Program.insufficient_funds)
unfolding plan rows_of verdict verdict_on holds assign_all insert_all lookup insert key_eqb
    account_pk merchant_pk idempotency_pk entry_sort_key get_model_hash has_prefix ◌+ℤ◌ ◌-ℤ◌
short_hold-plan_example =
    short_hold-plan runtime with_funds large_hold
      (assign "current_balance" (num (pos 100))
        (assign "available_balance" (num (pos 100)) (account_item "ann")))
      (pos 100) refl refl (λ h. omega (arith, h)) "k9" k9_write

abbrev k2_item : Item
k2_item = record_item runtime "k2" (some (authorization_request requested)) answered 5

abbrev k2_again : WriteItem
k2_again = record_write runtime "k2" none answered 9

spent_key-plan_example :
    (plan (release "ann" (pos 30) ∷ k2_again ∷ []) with_hold ≡ none)
    × (get_elem? (reasons (release "ann" (pos 30) ∷ k2_again ∷ []) with_hold) 1
        ≡ some conditional_check_failed)
unfolding plan rows_of verdict verdict_on holds assign_all insert_all lookup insert key_eqb
    account_pk merchant_pk idempotency_pk entry_sort_key get_model_hash has_prefix ◌+ℤ◌ ◌-ℤ◌
spent_key-plan_example =
    spent_key-plan runtime "k2" none answered 9 with_hold k2_item refl (λ e. cc)
      (release "ann" (pos 30) ∷ []) []

-- The record of the capture, which has no hash.
check_replay-same_example :
    (run service (check_replay runtime "k3" none) with_capture).0 ≡ returned (some answered)
unfolding plan rows_of verdict verdict_on holds assign_all insert_all lookup insert key_eqb
    account_pk merchant_pk idempotency_pk entry_sort_key get_model_hash has_prefix ◌+ℤ◌ ◌-ℤ◌
check_replay-same_example =
    check_replay-same runtime service with_capture "k3" none answered 9 refl refl none (λ m e. cc)

check_replay-other_example :
    (run service (check_replay runtime "k2" (some (deposit_request funded))) with_hold).0
    ≡ raised (
        api_error
          (record { error_class = idempotency_key_reuse; message = "Idempotency key reuse" }))
unfolding plan rows_of verdict verdict_on holds assign_all insert_all lookup insert key_eqb
    account_pk merchant_pk idempotency_pk entry_sort_key get_model_hash has_prefix ◌+ℤ◌ ◌-ℤ◌
check_replay-other_example =
    check_replay-other runtime service with_hold "k2" (some (authorization_request requested))
      answered 5 refl (deposit_request funded) (λ e. cc)

read_authorization-authorization_item_example :
    read_authorization runtime "authorization_1" (authorization_item runtime hold) ≡ pure hold
read_authorization-authorization_item_example =
    read_authorization-authorization_item runtime hold refl refl refl

create_account-again_example :
    ((run service (create_account "ann") opened).0 ≡ returned tt)
    × ((run service (create_account "ann") opened).1 ≡ opened)
    × (spent puts service (create_account "ann") opened ≡ 1)
unfolding holds lookup insert key_eqb account_pk
create_account-again_example =
    create_account-again service service-Documented opened "ann" refl check_failed refl
