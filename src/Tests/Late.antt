-- ===== src/Tests/Late.antt =====
-- Captures and voids that come too late, and what reads back after those in time, at the scenario.
use pay_ledger.Prelude.{◌≡◌, refl, none, some, List, [], ◌∷◌}
use pay_ledger.Prelude.Int.{◌+ℤ◌, ◌-ℤ◌}
use pay_ledger.Store.Item.{Item, str, assign}
use pay_ledger.Store.Key.{
  key_eqb, account_pk, merchant_pk, idempotency_pk, entry_sort_key, entry_gsi1_pk,
  authorization_gsi1_pk, has_prefix,
}
use pay_ledger.Store.Table.{lookup, insert}
use pay_ledger.Store.Transact.{
  WriteItem, plan, reasons, insert_all, verdict, verdict_on, holds, assign_all,
}
use pay_ledger.Domain.{Authorization, captured, voided, status_of}
use pay_ledger.Program.{pure}
use pay_ledger.Program.Service.{run, returned}
use pay_ledger.Idempotency.{record_write}
use pay_ledger.Ledger.Authorizations.{hold_key, read_authorization}
use pay_ledger.Ledger.Authorizations.Items.{authorization_item, void_items}
use pay_ledger.Books.Transactions.ReadBack.{capture_items-ReadsAs, void_items-ReadsAs}
use pay_ledger.Api.Common.{Event, resolve}
use pay_ledger.Api.Authorization.{capture, void}
use pay_ledger.Api.Rejections.{conflict_response, IsFinal, capture-late, void-late}
use pay_ledger.Tests.Scenario.{
  runtime, answered, hold, rows_of, with_hold, with_capture, capture_writes, capture_plan,
}
use pay_ledger.Tests.Service.{select, service, service-Documented}

abbrev request : Event
request = record { body = ""; sub = "ann"; idempotency_key = some "k9" }

abbrev closed_row : Item
closed_row =
    assign "updated_at" (str "2024-01-01T00:00:09")
      (assign "status" (str "CAPTURED") (authorization_item runtime hold))

abbrev closed : Authorization
closed = record hold { status = captured; updated_at = 9 }

capture-late_example :
    ((run service (resolve (capture runtime "authorization_1" request)) with_capture).0
      ≡ returned (conflict_response "authorization_1" "AlreadyCaptured" "captured"))
    × ((run service (resolve (capture runtime "authorization_1" request)) with_capture).1
        ≡ with_capture)
unfolding plan rows_of verdict verdict_on holds assign_all insert_all lookup insert key_eqb
    account_pk merchant_pk idempotency_pk entry_sort_key ◌+ℤ◌ ◌-ℤ◌ select entry_gsi1_pk
    authorization_gsi1_pk status_of reasons
capture-late_example =
    capture-late runtime service service-Documented with_capture request "k9" refl refl refl
      "authorization_1" (closed_row ∷ []) closed refl refl refl captured "AlreadyCaptured"
      "captured"
      (record {
        codes = _;
        cancels = refl;
        key_passes = refl;
        guard_fails = refl;
        item = closed_row;
        shows = refl;
        status_shown = refl;
      })
      IsFinal.is_captured

void-late_example :
    ((run service (resolve (void runtime "authorization_1" request)) with_capture).0
      ≡ returned (conflict_response "authorization_1" "AlreadyCaptured" "captured"))
    × ((run service (resolve (void runtime "authorization_1" request)) with_capture).1
        ≡ with_capture)
unfolding plan rows_of verdict verdict_on holds assign_all insert_all lookup insert key_eqb
    account_pk merchant_pk idempotency_pk entry_sort_key ◌+ℤ◌ ◌-ℤ◌ select entry_gsi1_pk
    authorization_gsi1_pk status_of reasons
void-late_example =
    void-late runtime service service-Documented with_capture request "k9" refl refl refl
      "authorization_1" (closed_row ∷ []) closed refl refl refl captured "AlreadyCaptured"
      "captured"
      (record {
        codes = _;
        cancels = refl;
        key_passes = refl;
        guard_fails = refl;
        item = closed_row;
        shows = refl;
        status_shown = refl;
      })
      IsFinal.is_captured

capture_items-ReadsAs_example :
    (item : Item) × (lookup (hold_key "ann" hold.sort_key) with_capture ≡ some item)
    × (read_authorization runtime "authorization_1" item ≡ pure closed)
unfolding plan rows_of verdict verdict_on holds assign_all insert_all lookup insert key_eqb
    account_pk merchant_pk idempotency_pk entry_sort_key has_prefix ◌+ℤ◌ ◌-ℤ◌
capture_items-ReadsAs_example =
    capture_items-ReadsAs runtime with_hold hold "ann" refl refl refl refl 9 refl "k3" answered 9
      "transaction_2" (rows_of capture_writes with_hold) capture_plan

abbrev void_writes : List WriteItem
void_writes =
    void_items hold "ann" "2024-01-01T00:00:09" (record_write runtime "k4" none answered 9)

void_items-ReadsAs_example :
    (item : Item) × (lookup
        (hold_key "ann" hold.sort_key)
        (insert_all (rows_of void_writes with_hold) with_hold)
      ≡ some item)
    × (read_authorization runtime "authorization_1" item
        ≡ pure (record hold { status = voided; updated_at = 9 }))
unfolding plan rows_of verdict verdict_on holds assign_all insert_all lookup insert key_eqb
    account_pk merchant_pk idempotency_pk entry_sort_key has_prefix ◌+ℤ◌ ◌-ℤ◌
void_items-ReadsAs_example =
    void_items-ReadsAs runtime with_hold hold "ann" refl refl refl refl 9 refl "k4" answered 9
      (rows_of void_writes with_hold) refl
