-- ===== src/Ledger/Authorizations.antt =====
-- `AuthorizationRepository` of shared/ledger.py: placing, reading, capturing and voiding a hold.
pub mod Items
pub mod ReadBack
pub mod Refusal
use pay_ledger.Prelude.{ℕ, ◌+◌, String, Option, none, some, List, [], ◌∷◌, true, if◌then◌else◌}
use pay_ledger.Prelude.Int.{ℤ, pos}
use pay_ledger.Store.Item.{Item}
use pay_ledger.Store.Key.{
  Key, ledger_sort_key_name, account_pk, authorization_gsi1_pk, authorization_sort_key, meta,
  concat,
}
use pay_ledger.Store.Transact.{Code}
use pay_ledger.Domain.{
  Authorization, AuthorizationStatus, pending, captured, voided, status_of, Response,
}
use pay_ledger.Program.{
  Prog, pure, raise, ◌>>=◌, ◌>>◌, catch, get, query, clock, date_today, new_hex, transact, or_raise,
  text_field, number_field, Exception, insufficient_funds, authorization_not_pending,
  transaction_canceled, value_error,
}
use pay_ledger.Runtime.{Runtime}
use pay_ledger.Utils.{RequestModel}
use pay_ledger.Idempotency.{transact_item, resolve_conflict, check_failed_at}
use Items.{hold_items, capture_items, void_items}

-- The key of an authorization in its account's partition.
abbrev pub hold_key : String → String → Key
hold_key account_id sort_key = record { pk = account_pk account_id; sk = sort_key }

abbrev pub read_status_item : Option Item → Prog (Option AuthorizationStatus)
read_status_item none = pure none
read_status_item (some item) = do
  text ← text_field "status" item
  status ← or_raise (status_of text) value_error
  pure (some status)

-- `_read_status`, a strongly consistent read.
unfoldable pub read_status : String → String → Prog (Option AuthorizationStatus)
read_status account_id sort_key = do
  item ← get (hold_key account_id sort_key) true
  read_status_item item

module _ (rt : Runtime) where
  -- The hold that `insert_authorization` makes, of a time, a date and a fresh id.
  abbrev pub new_authorization :
      (account_id merchant_id : String) → ℤ → (now today : ℕ) → String → Authorization
  new_authorization account_id merchant_id amount now today authorization_id = record {
    authorization_id = authorization_id;
    merchant_id = merchant_id;
    amount = amount;
    created_at = now;
    updated_at = now;
    status = pending;
    expires_at = today + 7;
    account_id = account_id;
    sort_key = authorization_sort_key (rt.isoformat now) authorization_id;
  }

  abbrev pub replay_or_raise : List Code → Option Response → Prog Response
  replay_or_raise codes (some response) = pure response
  replay_or_raise codes none = raise (transaction_canceled codes)

  -- The `except` of `insert_authorization`: the balance guard first, then the idempotency record.
  unfoldable pub insert_canceled : String → Exception → Prog Response
  insert_canceled idempotency_key (transaction_canceled codes) =
      if check_failed_at 0 codes
      then raise insufficient_funds
      else do replay ← resolve_conflict rt idempotency_key codes 2; replay_or_raise codes replay
  insert_canceled idempotency_key e = raise e

  unfoldable pub insert_authorization :
      (account_id merchant_id : String)
      → ℤ
      → String
      → RequestModel
      → (Authorization → Response)
      → Prog Response
  unfolding insert_canceled
  insert_authorization account_id merchant_id amount idempotency_key request build_response = do
    now ← clock
    today ← date_today
    hex ← new_hex
    let authorization_id = concat ("authorization_" ∷ hex ∷ [])
    let authorization = new_authorization account_id merchant_id amount now today authorization_id
    let response = build_response authorization
    catch
        (do
          idempotency_write ← transact_item rt idempotency_key (some request) response
          transact (hold_items rt authorization idempotency_write)
          pure response)
        (insert_canceled idempotency_key)

  -- The entity of an item of the index.
  abbrev pub read_authorization : String → Item → Prog Authorization
  read_authorization authorization_id item = do
    merchant_id ← text_field "merchant_id" item
    amount ← number_field "amount" item
    created_text ← text_field "created_at" item
    created_at ← or_raise (rt.fromisoformat created_text) value_error
    updated_text ← text_field "updated_at" item
    updated_at ← or_raise (rt.fromisoformat updated_text) value_error
    expires_text ← text_field "expires_at" item
    expires_at ← or_raise (rt.date_fromisoformat expires_text) value_error
    status_text ← text_field "status" item
    status ← or_raise (status_of status_text) value_error
    sort_key ← text_field ledger_sort_key_name item
    account_id ← text_field "account_id" item
    pure (record {
      authorization_id = authorization_id;
      merchant_id = merchant_id;
      amount = amount;
      created_at = created_at;
      updated_at = updated_at;
      status = status;
      expires_at = expires_at;
      account_id = account_id;
      sort_key = sort_key;
    })

  abbrev pub first_authorization : String → List Item → Prog (Option Authorization)
  first_authorization authorization_id [] = pure none
  first_authorization authorization_id (item ∷ rest) = do
    authorization ← read_authorization authorization_id item
    pure (some authorization)

  unfoldable pub get_authorization : String → Prog (Option Authorization)
  get_authorization authorization_id = do
    items ← query (authorization_gsi1_pk authorization_id) meta
    first_authorization authorization_id items

  -- Which exception the guard's failure is: the terminal status that a read shows, or, where no
  -- status explains it, the cancellation itself.
  abbrev pub rejected : List Code → Option AuthorizationStatus → Prog Response
  rejected codes none = raise (transaction_canceled codes)
  rejected codes (some pending) = raise (transaction_canceled codes)
  rejected codes (some status) = raise (authorization_not_pending status)

  abbrev pub replay_or_reject :
      Authorization → String → ℕ → List Code → Option Response → Prog Response
  replay_or_reject authorization account_id guard_index codes (some response) = pure response
  replay_or_reject authorization account_id guard_index codes none =
      if check_failed_at guard_index codes
      then (do status ← read_status account_id authorization.sort_key; rejected codes status)
      else raise (transaction_canceled codes)

  -- The `except` of `capture_authorization` and of `void_authorization`, which differ in the
  -- positions of the idempotency record and of the guard.
  unfoldable pub terminal_canceled :
      Authorization → String → String → (item_index guard_index : ℕ) → Exception → Prog Response
  unfolding read_status
  terminal_canceled authorization account_id idempotency_key item_index guard_index
        (transaction_canceled codes) =
      do
        replay ← resolve_conflict rt idempotency_key codes item_index
        replay_or_reject authorization account_id guard_index codes replay
  terminal_canceled authorization account_id idempotency_key item_index guard_index e = raise e

  unfoldable pub capture_authorization :
      Authorization → String → String → (Authorization → ℤ → Response) → Prog Response
  unfolding terminal_canceled
  capture_authorization authorization account_id idempotency_key build_response = do
    hex ← new_hex
    now ← clock
    let transaction_id = concat ("transaction_" ∷ hex ∷ [])
    let response =
        build_response (record authorization { status = captured; updated_at = now }) (pos 200)
    idempotency_write ← transact_item rt idempotency_key none response
    catch
        (do
          transact (
              capture_items authorization account_id (rt.isoformat now) transaction_id
                idempotency_write)
          pure response)
        (terminal_canceled authorization account_id idempotency_key 5 4)

  unfoldable pub void_authorization :
      Authorization → String → String → (Authorization → ℤ → Response) → Prog Response
  unfolding terminal_canceled
  void_authorization authorization account_id idempotency_key build_response = do
    now ← clock
    let response =
        build_response (record authorization { status = voided; updated_at = now }) (pos 200)
    idempotency_write ← transact_item rt idempotency_key none response
    catch
        (do
          transact (void_items authorization account_id (rt.isoformat now) idempotency_write)
          pure response)
        (terminal_canceled authorization account_id idempotency_key 2 1)
