-- ===== src/Tests/Instances.antt =====
-- The theorems, each at the scenario.
use pay_ledger.Prelude.{ℕ, zero, suc, ◌≡◌, refl, sym, subst, none, some, List, [], ◌∷◌, arith}
use pay_ledger.Prelude.Int.{pos, ◌+ℤ◌, ◌-ℤ◌}
use pay_ledger.Books.Writes.{entry_key}
use pay_ledger.Store.Item.{attributes}
use pay_ledger.Store.Key.{
  ledger_pk_name, ledger_sort_key_name, ledger_gsi1_pk_name, ledger_gsi1_sort_key_name,
  entry_gsi1_pk,
}
use pay_ledger.Store.Item.{str, num, Item, assign}
use pay_ledger.Store.Key.{
  Key, key_eqb, account_pk, merchant_pk, idempotency_pk, entry_sort_key, entry_gsi1_pk,
  authorization_gsi1_pk, has_prefix,
}
use pay_ledger.Store.Table.{Table, lookup, insert, total}
use pay_ledger.Store.Transact.{WriteItem, plan, insert_all, verdict, verdict_on, holds, assign_all}
use pay_ledger.Domain.{captured, voided, status_of}
use pay_ledger.Program.{Prog, call}
use pay_ledger.Api.Common.{Event}
use pay_ledger.Ledger.Accounts.{account_key, account_item}
use pay_ledger.Ledger.Merchants.{merchant_key}
use pay_ledger.Ledger.Authorizations.{hold_key}
use pay_ledger.Books.View.{held, hold_weight, pending_amount, BalancedAt, IsSound, Evolves}
use pay_ledger.Books.Change.{Evolves-refl}
use pay_ledger.System.Serve.{InOrder}
use pay_ledger.System.Pool.{Config, Run, Step, HasFreshIds, post_capture, post_void, handler}
use pay_ledger.System.Pool.Reachable.{
  reachable-BalancedAt, reachable-Moves, reachable-worth, reachable-postings, terminal_stays,
}
use pay_ledger.Books.Abstraction.{book}
use pay_ledger.Books.Money.{worth}
use pay_ledger.Books.Postings.{postings}
use pay_ledger.Books.Spec.{Moves as BookMoves}
use pay_ledger.Idempotency.{record_write}
use pay_ledger.Utils.{authorization_request, deposit_request}
use pay_ledger.Ledger.Authorizations.Items.{authorization_item, void_items, expire_items}
use pay_ledger.Books.Advance.{Advances}
use pay_ledger.Books.Transactions.Hold.{hold-Advances}
use pay_ledger.Books.Transactions.Deposit.{deposit-Advances}
use pay_ledger.Books.Transactions.Capture.{capture-Advances}
use pay_ledger.Books.Transactions.Release.{void-Advances, expire-Advances}
use pay_ledger.Books.Transactions.Effects.{Moves, Closes, capture_items-Moves, void_items-Moves}
use pay_ledger.Tests.Scenario.{
  requested, funded, answered, hold-IsPlaced, hold_plan, capture_plan, deposit_plan, with_funds,
  with_shop, with_funds-IsSound, with_shop-IsSound, hold_writes, deposit_writes, empty_account,
  runtime, runtime-PositiveAmounts, hold, with_hold, with_hold-IsSound, with_capture,
  capture_writes, rows_of,
}
use pay_ledger.Tests.Service.{select, service, service-Documented}
use pay_ledger.Api.Common.{resolve}
use pay_ledger.Api.Authorization.{capture, build_authorization_response}
use pay_ledger.Idempotency.{require_key, check_replay, get_record, transact_item}
use pay_ledger.Ledger.Authorizations.{get_authorization, capture_authorization}
use pay_ledger.Utils.{get_model_hash}

abbrev At : Type 0
At = Config service runtime

-- The first handler goes on by some calls.
abbrev extend :
    {c : At} (s : Table) (ps : List (Prog (Unit {0})))
    → Run service runtime c (record { state = s; working = ps })
    → (c' : At) × Run service runtime c c'
extend s (call r k ∷ ps) run = (_, Run.next run (Step.serve s [] ps r k))
extend s ps run = (_, run)

unfoldable walk :
    {c c' : At} → ℕ → Run service runtime c c' → (c'' : At) × Run service runtime c c''
walk zero run = (_, run)
walk (suc n) run = let (c, further) = walk n run in extend c.state c.working further

abbrev request : Event
request = record { body = ""; sub = "ann"; idempotency_key = some "k3" }

abbrev begin : At
begin = record { state = with_hold; working = [] }

abbrev arrived : Run service runtime begin (record {
  state = with_hold;
  working = handler runtime (post_capture "authorization_1" request) ∷ [];
})
arrived =
    Run.next (Run.start begin) (Step.arrive (post_capture "authorization_1" request) with_hold [])

with_hold-InOrder : InOrder service with_hold
with_hold-InOrder = record {
  sound = with_hold-IsSound;
  history = λ t e.
      subst (λ u. IsSound u × Evolves u with_hold) (sym e)
        (with_hold-IsSound, Evolves-refl with_hold);
}

six_calls_fresh : HasFreshIds service runtime (walk 6 arrived).1
unfolding walk handler resolve capture require_key check_replay get_record get_authorization select
    capture_authorization transact_item holds plan verdict verdict_on assign_all insert_all rows_of
    lookup insert key_eqb account_pk merchant_pk idempotency_pk entry_sort_key entry_gsi1_pk
    authorization_gsi1_pk status_of build_authorization_response get_model_hash ◌+ℤ◌ ◌-ℤ◌
six_calls_fresh = ((((((tt, tt), tt), tt), tt), tt), (refl, (refl, tt)))

-- The account, its current balance and what is held at the end of the six calls.
six_calls_books :
    (lookup (account_key "ann") (walk 6 arrived).0.state
      ≡ some (
          assign "current_balance" (num (pos 70)) (
            assign "available_balance" (num (pos 70)) (
              assign "current_balance"
                (num (pos 100))
                (assign "available_balance" (num (pos 100)) (account_item "ann"))))))
    × (held "ann" (walk 6 arrived).0.state ≡ pos 0)
unfolding walk handler resolve capture require_key check_replay get_record get_authorization select
    capture_authorization transact_item holds plan verdict verdict_on assign_all insert_all rows_of
    lookup insert key_eqb account_pk merchant_pk idempotency_pk entry_sort_key entry_gsi1_pk
    authorization_gsi1_pk status_of build_authorization_response get_model_hash ◌+ℤ◌ ◌-ℤ◌ held total
    hold_weight pending_amount has_prefix
six_calls_books = (refl, refl)

reachable-BalancedAt_example :
    BalancedAt
      (lookup (account_key "ann") (walk 6 arrived).0.state)
      (held "ann" (walk 6 arrived).0.state)
reachable-BalancedAt_example =
    reachable-BalancedAt service runtime service-Documented runtime-PositiveAmounts with_hold
      with_hold-InOrder (walk 6 arrived).1 six_calls_fresh "ann"

reachable-Moves_example : BookMoves (book with_hold) (book (walk 6 arrived).0.state)
reachable-Moves_example =
    reachable-Moves service runtime service-Documented runtime-PositiveAmounts with_hold
      with_hold-InOrder (walk 6 arrived).1 six_calls_fresh

reachable-worth_example : worth (walk 6 arrived).0.state ≡ worth with_hold
reachable-worth_example =
    reachable-worth service runtime service-Documented runtime-PositiveAmounts with_hold
      with_hold-InOrder (walk 6 arrived).1 six_calls_fresh

reachable-postings_example : postings (walk 6 arrived).0.state ≡ postings with_hold
reachable-postings_example =
    reachable-postings service runtime service-Documented runtime-PositiveAmounts with_hold
      with_hold-InOrder (walk 6 arrived).1 six_calls_fresh

-- The first entry of the deposit.
abbrev ann_entry : Key
ann_entry = entry_key (account_pk "ann") "2024-01-01T00:00:05" "transaction_1" "0"

abbrev ann_entry_row : Item
ann_entry_row = attributes (
    (ledger_pk_name, str (account_pk "ann"))
    ∷ (ledger_sort_key_name, str (entry_sort_key "2024-01-01T00:00:05" "transaction_1" "0"))
    ∷ (ledger_gsi1_pk_name, str (entry_gsi1_pk "transaction_1" "0"))
    ∷ (ledger_gsi1_sort_key_name, str "ENTRY#0")
    ∷ ("transaction_id", str "transaction_1")
    ∷ ("party_id", str "ann")
    ∷ ("party_type", str "ACCOUNT")
    ∷ ("amount", num (pos 100))
    ∷ ("entry_type", str "DEBIT")
    ∷ ("created_at", str "2024-01-01T00:00:05")
    ∷ [])

abbrev ann_hold : Key
ann_hold = hold_key "ann" hold.sort_key

abbrev closed_row : Item
closed_row =
    assign "updated_at" (str "2024-01-01T00:00:09")
      (assign "status" (str "CAPTURED") (authorization_item runtime hold))

arrived_again : Run service runtime (walk 6 arrived).0 (record {
  state = (walk 6 arrived).0.state;
  working = handler runtime (post_void "authorization_1" request) ∷ (walk 6 arrived).0.working;
})
arrived_again = Run.next (Run.start _) (Step.arrive (post_void "authorization_1" request) _ _)

arrived_again_fresh : HasFreshIds service runtime arrived_again
unfolding arrived_again
arrived_again_fresh = tt

captured_at_end : lookup ann_hold (walk 6 arrived).0.state ≡ some closed_row
unfolding walk handler resolve capture require_key check_replay get_record get_authorization select
    capture_authorization transact_item holds plan verdict verdict_on assign_all insert_all rows_of
    lookup insert key_eqb account_pk merchant_pk idempotency_pk entry_sort_key entry_gsi1_pk
    authorization_gsi1_pk status_of build_authorization_response get_model_hash has_prefix ◌+ℤ◌ ◌-ℤ◌
captured_at_end = refl

terminal_stays_example :
    (new : Item) × (lookup ann_hold (walk 6 arrived).0.state ≡ some new)
    × (new "status" ≡ closed_row "status")
    × (new "amount" ≡ closed_row "amount")
unfolding plan rows_of verdict verdict_on holds assign_all insert_all lookup insert key_eqb
    account_pk merchant_pk idempotency_pk entry_sort_key get_model_hash has_prefix ◌+ℤ◌ ◌-ℤ◌
terminal_stays_example =
    terminal_stays service runtime service-Documented runtime-PositiveAmounts with_hold
      with_hold-InOrder (walk 6 arrived).1 arrived_again six_calls_fresh arrived_again_fresh
      ann_hold closed_row refl captured_at_end (λ e. cc)

hold-Advances_example : Advances with_funds with_hold
unfolding plan rows_of verdict verdict_on holds assign_all insert_all lookup insert key_eqb
    account_pk merchant_pk idempotency_pk entry_sort_key get_model_hash has_prefix ◌+ℤ◌ ◌-ℤ◌
hold-Advances_example =
    hold-Advances runtime with_funds hold refl (omega arith) with_funds-IsSound "k2"
      (some (authorization_request requested)) answered 5 (rows_of hold_writes with_funds) hold_plan
      (refl, tt)

deposit-Advances_example : Advances with_shop with_funds
unfolding plan rows_of verdict verdict_on holds assign_all insert_all lookup insert key_eqb
    account_pk merchant_pk idempotency_pk entry_sort_key get_model_hash has_prefix ◌+ℤ◌ ◌-ℤ◌
deposit-Advances_example =
    deposit-Advances runtime with_shop with_shop-IsSound "ann" empty_account (pos 100) (omega arith)
      "2024-01-01T00:00:05" "transaction_1" "k1" (some (deposit_request funded)) answered 5
      (rows_of deposit_writes with_shop) deposit_plan (refl, (refl, tt))

capture-Advances_example : Advances with_hold with_capture
unfolding plan rows_of verdict verdict_on holds assign_all insert_all lookup insert key_eqb
    account_pk merchant_pk idempotency_pk entry_sort_key get_model_hash has_prefix ◌+ℤ◌ ◌-ℤ◌
capture-Advances_example =
    capture-Advances runtime with_hold with_hold-IsSound hold "ann" hold-IsPlaced
      "2024-01-01T00:00:09" "transaction_2" "k3" answered 9 (rows_of capture_writes with_hold)
      capture_plan (refl, (refl, tt))

abbrev void_writes : List WriteItem
void_writes =
    void_items hold "ann" "2024-01-01T00:00:09" (record_write runtime "k4" none answered 9)

void_plan : plan void_writes with_hold ≡ some (rows_of void_writes with_hold)
unfolding plan rows_of verdict verdict_on holds assign_all insert_all lookup insert key_eqb
    account_pk merchant_pk idempotency_pk entry_sort_key get_model_hash has_prefix ◌+ℤ◌ ◌-ℤ◌
void_plan = refl

void-Advances_example : Advances with_hold (insert_all (rows_of void_writes with_hold) with_hold)
void-Advances_example =
    void-Advances runtime with_hold with_hold-IsSound hold "ann" hold-IsPlaced "2024-01-01T00:00:09"
      "k4" answered 9 (rows_of void_writes with_hold) void_plan

abbrev expire_writes : List WriteItem
expire_writes = expire_items "ann" (pos 30) hold.sort_key "2024-01-01T00:00:09"

expire_plan : plan expire_writes with_hold ≡ some (rows_of expire_writes with_hold)
unfolding plan rows_of verdict verdict_on holds assign_all insert_all lookup insert key_eqb
    account_pk merchant_pk idempotency_pk entry_sort_key get_model_hash has_prefix ◌+ℤ◌ ◌-ℤ◌
expire_plan = refl

expire-Advances_example :
    Advances with_hold (insert_all (rows_of expire_writes with_hold) with_hold)
expire-Advances_example =
    expire-Advances with_hold with_hold-IsSound "ann" hold.sort_key (pos 30) hold-IsPlaced
      "2024-01-01T00:00:09" (rows_of expire_writes with_hold) expire_plan

capture_items-Moves_example :
    Moves (account_key "ann") "current_balance" (λ n. n -ℤ pos 30) with_hold with_capture
    × Moves (merchant_key "shop") "payable_balance" (λ n. n +ℤ pos 30) with_hold with_capture
    × Closes ann_hold captured "2024-01-01T00:00:09" with_hold with_capture
unfolding has_prefix
capture_items-Moves_example =
    capture_items-Moves runtime with_hold hold "ann" refl "2024-01-01T00:00:09" "k3" answered 9
      "transaction_2" (rows_of capture_writes with_hold) capture_plan

void_items-Moves_example :
    Moves
      (account_key "ann")
      "available_balance"
      (λ n. n +ℤ pos 30)
      with_hold
      (insert_all (rows_of void_writes with_hold) with_hold)
    × Closes ann_hold voided "2024-01-01T00:00:09" with_hold
        (insert_all (rows_of void_writes with_hold) with_hold)
unfolding has_prefix
void_items-Moves_example =
    void_items-Moves runtime with_hold hold "ann" refl "2024-01-01T00:00:09" "k4" answered 9
      (rows_of void_writes with_hold) void_plan
