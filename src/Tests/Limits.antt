-- ===== src/Tests/Limits.antt =====
-- What the functions spend, transactions that go through, and routes that replay or refuse, at the
-- scenario.
use pay_ledger.Prelude.{◌≡◌, ◌≤◌, refl, some, none, ◌≢◌, eq_iff, String, List, [], ◌∷◌}
use pay_ledger.Prelude.Int.{pos, ◌+ℤ◌, ◌-ℤ◌}
use pay_ledger.Store.Item.{num, Item, assign}
use pay_ledger.Store.Key.{
  key_eqb, account_pk, merchant_pk, idempotency_pk, entry_sort_key, entry_gsi1_pk,
  authorization_gsi1_pk,
}
use pay_ledger.Domain.{status_of}
use pay_ledger.Store.Table.{Table, lookup, insert}
use pay_ledger.Store.Transact.{plan, insert_all, verdict, verdict_on, holds, assign_all, reasons}
use pay_ledger.Store.Transact.Progress.{Passes}
use pay_ledger.Program.{pure}
use pay_ledger.Program.Cost.{spent, waited, puts, transactions}
use pay_ledger.Ledger.Accounts.{account_item}
use pay_ledger.Ledger.Merchants.{merchant_item}
use pay_ledger.Ledger.Authorizations.Items.{authorization_item}
use pay_ledger.Api.Common.{Event, resolve}
use pay_ledger.Api.Deposit.{create_deposit}
use pay_ledger.Api.Functions.{create_account}
use pay_ledger.Api.Bounds.{create_account-bounds}
use pay_ledger.Api.Attempts.{create_deposit-bounds}
use pay_ledger.Books.Transactions.Progress.{capture_items-Passes}
use pay_ledger.Ledger.Sweep.{update_expired_holds, expire_all, expire_hold, expire_canceled}
use pay_ledger.Ledger.Sweep.Count.{committed_in, update_expired_holds-counts}
use pay_ledger.Api.Ownership.{foreign-Refuses, not_found_response, IsForeign}
use pay_ledger.Api.Unfit.{missing, IsUnfit, resolve-IsUnfit}
use pay_ledger.Store.Item.{str}
use pay_ledger.Tests.Service.{select, service, service-Documented}
use pay_ledger.Program.Service.{run, returned}
use pay_ledger.Api.Authorization.{capture, void}
use pay_ledger.Api.Replays.{route-Replays, capturing}
use pay_ledger.Tests.Scenario.{
  funded, runtime, answered, hold, shop, rows_of, with_shop, with_hold, with_capture,
  with_hold-IsSound, capture_writes,
}

create_account-bounds_example :
    (spent waited service (create_account "bob") with_shop ≤ 600)
    × (spent puts service (create_account "bob") with_shop ≤ 3)
create_account-bounds_example = create_account-bounds service with_shop "bob"

abbrev request : Event
request = record { body = ""; sub = "ann"; idempotency_key = some "k9" }

create_deposit-bounds_example :
    spent transactions service (resolve (create_deposit runtime request)) with_shop ≤ 5
create_deposit-bounds_example = create_deposit-bounds runtime service with_shop request

abbrev funded_row : Item
funded_row =
    assign "current_balance" (num (pos 100))
      (assign "available_balance" (num (pos 100)) (account_item "ann"))

abbrev held_row : Item
held_row = assign "available_balance" (num (pos 70)) funded_row

capture_items-Passes_example : Passes capture_writes with_hold
unfolding plan rows_of verdict verdict_on holds assign_all insert_all lookup insert key_eqb
    account_pk merchant_pk idempotency_pk entry_sort_key ◌+ℤ◌ ◌-ℤ◌
capture_items-Passes_example =
    capture_items-Passes runtime with_hold "k3" answered 9 refl with_hold-IsSound "ann" held_row
      refl hold "2024-01-01T00:00:09" "transaction_2" (authorization_item runtime hold)
      (merchant_item runtime shop 5) (pos 0) refl refl refl refl

-- The capture once more.
abbrev again : Event
again = record { body = ""; sub = "ann"; idempotency_key = some "k3" }

route-Replays_example :
    ((run service (resolve (capture runtime "authorization_1" again)) with_capture).0
      ≡ returned answered)
    × ((run service (resolve (capture runtime "authorization_1" again)) with_capture).1
        ≡ with_capture)
unfolding plan rows_of verdict verdict_on holds assign_all insert_all lookup insert key_eqb
    account_pk merchant_pk idempotency_pk entry_sort_key ◌+ℤ◌ ◌-ℤ◌
route-Replays_example =
    route-Replays runtime service service-Documented with_capture again "k3" refl refl none answered
      9 refl refl (capture runtime "authorization_1" again) (capturing "authorization_1")

-- A sweep that meets the same hold two times, and releases it once.
abbrev expired : List Item
expired = authorization_item runtime hold ∷ authorization_item runtime hold ∷ []

abbrev swept : Table
swept = (run service (update_expired_holds runtime expired) with_hold).1

update_expired_holds-counts_example :
    committed_in service (update_expired_holds runtime expired) with_hold ≡ 1
unfolding update_expired_holds expire_all expire_hold expire_canceled plan rows_of verdict
    verdict_on holds assign_all insert_all lookup insert key_eqb account_pk merchant_pk
    idempotency_pk entry_sort_key ◌+ℤ◌ ◌-ℤ◌ reasons
update_expired_holds-counts_example =
    update_expired_holds-counts service runtime expired with_hold 1 swept refl

-- The hold of another account, and a key that is new.
abbrev foreign : Event
foreign = record { body = ""; sub = "bob"; idempotency_key = some "k9" }

abbrev bob : String
bob = "bob"

ann-bob : hold.account_id ≢ bob
ann-bob e = let same = (eq_iff hold.account_id bob).1 e in cc

foreign-Refuses_example :
    (((run service (resolve (capture runtime "authorization_1" foreign)) with_hold).0
        ≡ returned (not_found_response "authorization_1"))
      × ((run service (resolve (capture runtime "authorization_1" foreign)) with_hold).1
          ≡ with_hold))
    × (((run service (resolve (void runtime "authorization_1" foreign)) with_hold).0
          ≡ returned (not_found_response "authorization_1"))
        × ((run service (resolve (void runtime "authorization_1" foreign)) with_hold).1
            ≡ with_hold))
unfolding plan rows_of verdict verdict_on holds assign_all insert_all lookup insert key_eqb
    account_pk merchant_pk idempotency_pk entry_sort_key ◌+ℤ◌ ◌-ℤ◌ select entry_gsi1_pk
    authorization_gsi1_pk status_of
foreign-Refuses_example =
    foreign-Refuses runtime service service-Documented with_hold foreign "k9" refl refl refl
      "authorization_1" (authorization_item runtime hold ∷ []) (some hold) refl refl
      (IsForeign.of_another hold ann-bob)

-- A deposit without a key.
abbrev unkeyed : Event
unkeyed = record { body = ""; sub = "ann"; idempotency_key = none }

resolve-IsUnfit_example :
    (message : String) × (resolve (create_deposit runtime unkeyed)
      ≡ pure (record {
        status_code = pos 400;
        body = ("error", str "MissingIdempotencyKey") ∷ ("message", str message) ∷ [];
      }))
resolve-IsUnfit_example =
    resolve-IsUnfit runtime unkeyed (some "MissingIdempotencyKey") (create_deposit runtime unkeyed)
      (IsUnfit.unkeyed_deposit funded refl missing)
