-- ===== src/Tests/Scenario.antt =====
-- A scenario: an account with a deposit, a merchant, and a hold that is captured.
use pay_ledger.Prelude.{
  arith, ◌==◌, String, ◌≡◌, refl, subst, none, some, List, [], ◌∷◌, eqb, if◌then◌else◌,
}
use pay_ledger.Prelude.Int.{ℤ, pos, ◌+ℤ◌, ◌-ℤ◌, ◌≤ℤ◌}
use pay_ledger.Store.Item.{num, Item}
use pay_ledger.Store.Key.{
  Key, key_eqb, account_pk, merchant_pk, idempotency_pk, entry_sort_key, has_prefix,
}
use pay_ledger.Store.Table.{Table, lookup, insert, total}
use pay_ledger.Store.Transact.{WriteItem, plan, insert_all, verdict, verdict_on, holds, assign_all}
use pay_ledger.Domain.{
  Account, Authorization, pending, Response, AuthorizationRequest, DepositRequest, Merchant, Body,
}
use pay_ledger.Runtime.{Runtime, Validated, valid, not_valid, malformed, PositiveAmounts}
use pay_ledger.Utils.{authorization_request, deposit_request}
use pay_ledger.Idempotency.{record_write}
use pay_ledger.Ledger.Accounts.{account_key, account_item, deposit_items}
use pay_ledger.Ledger.Merchants.{merchant_key, merchant_item}
use pay_ledger.Ledger.Authorizations.Items.{authorization_item, hold_items, capture_items}
use pay_ledger.Books.View.{IsPlaced, IsSound, held}
use pay_ledger.Books.Transactions.Open.{open-Advances, merchant-Advances}
use pay_ledger.Books.Transactions.Deposit.{deposit-Advances}
use pay_ledger.Books.Transactions.Hold.{hold-Advances}
use pay_ledger.Books.Transactions.Capture.{capture-Advances}

abbrev pub requested : AuthorizationRequest
requested = record { amount = pos 30; merchant_id = "shop" }

abbrev pub funded : DepositRequest
funded = record { amount = pos 100 }

abbrev pub answered : Response
answered = record { status_code = pos 201; body = ("amount", num (pos 30)) ∷ [] }

-- Two times and a date as texts, and the other way round.
-- A text for each shape of body that is hashed.
abbrev sorted_text : Body → String
sorted_text [] = "{}"
sorted_text (f ∷ []) = "{amount}"
sorted_text (f ∷ g ∷ rest) = "{amount, merchant_id}"

abbrev pub runtime : Runtime
runtime = record {
  isoformat = λ t. if eqb t 5 then "2024-01-01T00:00:05" else "2024-01-01T00:00:09";
  fromisoformat = λ s. if s == "2024-01-01T00:00:05" then some 5 else some 9;
  date_isoformat = λ d. "2024-01-08";
  date_fromisoformat = λ s. some 7;
  dumps = λ b. "{\"amount\": 30}";
  dumps_sorted = sorted_text;
  loads = λ s. some (("amount", num (pos 30)) ∷ []);
  sha256_hexdigest = λ s. s;
  validate_authorization = λ b. valid requested;
  validate_deposit = λ b. valid funded;
  validate_merchant = λ b. valid (record { merchant_name = "Shop"; merchant_id = "shop" });
}

abbrev pub shop : Merchant
shop = record { merchant_id = "shop"; name = "Shop"; payable_balance = pos 0 }

abbrev pub empty_account : Account
empty_account = record { account_id = "ann"; current_balance = pos 0; available_balance = pos 0 }

abbrev pub hold : Authorization
hold = record {
  authorization_id = "authorization_1";
  merchant_id = "shop";
  amount = pos 30;
  created_at = 5;
  updated_at = 5;
  status = pending;
  expires_at = 7;
  account_id = "ann";
  sort_key = "AUTH#2024-01-01T00:00:05#authorization_1";
}

unfoldable pub rows_of : List WriteItem → Table → List (Key × Item)
rows_of ws t = elim (plan ws t) [ none ↦ [] | some rows ↦ rows ]

abbrev pub opened : Table
opened = insert (account_key "ann") (account_item "ann") []

abbrev pub with_shop : Table
with_shop = insert (merchant_key "shop") (merchant_item runtime shop 5) opened

abbrev pub deposit_writes : List WriteItem
deposit_writes =
    deposit_items "ann" empty_account (pos 100) "2024-01-01T00:00:05" "transaction_1"
      (record_write runtime "k1" (some (deposit_request funded)) answered 5)

abbrev pub with_funds : Table
with_funds = insert_all (rows_of deposit_writes with_shop) with_shop

abbrev pub hold_writes : List WriteItem
hold_writes =
    hold_items runtime hold
      (record_write runtime "k2" (some (authorization_request requested)) answered 5)

abbrev pub with_hold : Table
with_hold = insert_all (rows_of hold_writes with_funds) with_funds

abbrev pub capture_writes : List WriteItem
capture_writes =
    capture_items hold "ann" "2024-01-01T00:00:09" "transaction_2"
      (record_write runtime "k3" none answered 9)

abbrev pub with_capture : Table
with_capture = insert_all (rows_of capture_writes with_hold) with_hold

empty-IsSound : IsSound []
unfolding lookup held total
empty-IsSound = record {
  balanced = λ a. refl;
  indexed = λ k item h i. absurd (cc h);
  keyed = λ k item h. absurd (cc h);
}

pub opened-IsSound : IsSound opened
unfolding holds lookup
opened-IsSound = (open-Advances [] "ann" empty-IsSound refl).sound

pub with_shop-IsSound : IsSound with_shop
unfolding holds lookup insert key_eqb account_pk merchant_pk
with_shop-IsSound = (merchant-Advances runtime opened shop 5 opened-IsSound refl).sound

pub deposit_plan : plan deposit_writes with_shop ≡ some (rows_of deposit_writes with_shop)
unfolding plan rows_of verdict verdict_on holds assign_all lookup insert key_eqb account_pk
    merchant_pk idempotency_pk entry_sort_key
deposit_plan = refl

pub with_funds-IsSound : IsSound with_funds
unfolding lookup insert key_eqb account_pk merchant_pk entry_sort_key
with_funds-IsSound =
    (deposit-Advances runtime with_shop with_shop-IsSound "ann" empty_account (pos 100)
      (omega arith) "2024-01-01T00:00:05" "transaction_1" "k1" (some (deposit_request funded))
      answered 5 (rows_of deposit_writes with_shop) deposit_plan (refl, (refl, tt))).sound

pub hold_plan : plan hold_writes with_funds ≡ some (rows_of hold_writes with_funds)
unfolding plan rows_of verdict verdict_on holds assign_all insert_all lookup insert key_eqb
    account_pk merchant_pk idempotency_pk entry_sort_key ◌+ℤ◌ ◌-ℤ◌
hold_plan = refl

pub with_hold-IsSound : IsSound with_hold
unfolding lookup insert insert_all rows_of plan verdict verdict_on holds assign_all key_eqb
    account_pk merchant_pk idempotency_pk entry_sort_key has_prefix ◌+ℤ◌ ◌-ℤ◌
with_hold-IsSound =
    (hold-Advances runtime with_funds hold refl (omega arith) with_funds-IsSound "k2"
      (some (authorization_request requested)) answered 5 (rows_of hold_writes with_funds) hold_plan
      (refl, tt)).sound

pub capture_plan : plan capture_writes with_hold ≡ some (rows_of capture_writes with_hold)
unfolding plan rows_of verdict verdict_on holds assign_all insert_all lookup insert key_eqb
    account_pk merchant_pk idempotency_pk entry_sort_key ◌+ℤ◌ ◌-ℤ◌
capture_plan = refl

pub hold-IsPlaced : IsPlaced "ann" hold.sort_key (pos 30) with_hold
unfolding plan rows_of verdict verdict_on holds assign_all insert_all lookup insert key_eqb
    account_pk merchant_pk idempotency_pk entry_sort_key has_prefix ◌+ℤ◌ ◌-ℤ◌
hold-IsPlaced = record {
  row = authorization_item runtime hold;
  found = refl;
  prefix = refl;
  amount_kept = refl;
  amount_nonneg = omega arith;
}

pub with_capture-IsSound : IsSound with_capture
unfolding lookup insert insert_all rows_of plan verdict verdict_on holds assign_all key_eqb
    account_pk merchant_pk idempotency_pk entry_sort_key ◌+ℤ◌ ◌-ℤ◌
with_capture-IsSound =
    (capture-Advances runtime with_hold with_hold-IsSound hold "ann" hold-IsPlaced
      "2024-01-01T00:00:09" "transaction_2" "k3" answered 9 (rows_of capture_writes with_hold)
      capture_plan (refl, (refl, tt))).sound

abbrev IsPositive : {A : Type 0} → (A → ℤ) → Validated A → Type 0
IsPositive amount (valid r) = pos 1 ≤ℤ amount r
IsPositive amount (not_valid m) = Unit
IsPositive amount malformed = Unit

pub runtime-PositiveAmounts : PositiveAmounts runtime
runtime-PositiveAmounts = record {
  authorization_amount =
      λ body r h. subst (IsPositive (λ (x : AuthorizationRequest). x.amount)) h (omega arith);
  deposit_amount =
      λ body r h. subst (IsPositive (λ (x : DepositRequest). x.amount)) h (omega arith);
}
