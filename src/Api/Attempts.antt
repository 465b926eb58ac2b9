-- ===== src/Api/Attempts.antt =====
-- How many transactions a deposit sends.
use pay_ledger.Prelude.{
  ℕ, zero, suc, ◌+◌, ◌≤◌, String, Option, none, some, Bool, true, false, if◌then◌else◌, ◌==◌, List,
  [], ◌∷◌, arith,
}
use pay_ledger.Prelude.Int.{ℤ}
use pay_ledger.Store.Item.{Item, as_text, as_number}
use pay_ledger.Store.Key.{Key, concat}
use pay_ledger.Store.Transact.{WriteItem, Code, Outcome, committed, cancelled}
use pay_ledger.Domain.{Account, Response}
use pay_ledger.Program.{
  Reply, reply, lost, Prog, pure, ◌>>=◌, ◌>>◌, received, get, transact, or_cancel, Exception,
  transaction_canceled, account_not_found, validation_error, api_error,
}
use pay_ledger.Program.Service.{DynamoDb}
use pay_ledger.Program.Cost.{
  transactions, spent, Within, spent-Within, Within-le, Within-bind, Within-catch, Within-or_raise,
}
use pay_ledger.Runtime.{Runtime, Validated, valid, not_valid, malformed}
use pay_ledger.Utils.{RequestModel, deposit_request}
use pay_ledger.Idempotency.{
  IdempotencyRecord, idempotency_item_key, read_record, get_record, require_key, check_replay,
  resolve_conflict, stored_response, check_failed_at, replay_unless_reused, replay_winner,
  hash_differs, transact_item,
}
use pay_ledger.Ledger.Accounts.{
  account_key, get_account, read_account, replay_or_retry, deposit_canceled, deposit_attempt,
  or_next, deposit, deposit_items,
}
use pay_ledger.Api.Common.{Event, validated, to_response, resolve}
use pay_ledger.Api.Authorization.{or_proceed}
use pay_ledger.Api.Deposit.{build_response, deposit_failed, create_deposit}

-- A program that sends at most n transactions.
abbrev Sends : {A : Type 0} → ℕ → Prog A → Type 0
Sends n m = Within transactions n m

received-Sends : {A : Type 0} (x : Reply A) → Sends 0 (received x)
received-Sends (reply a) = tt
received-Sends (lost f) = tt

get-Sends : (k : Key) (consistent : Bool) → Sends 0 (get k consistent)
get-Sends k consistent = (0, omega arith, received-Sends)

-- Programs that only read.
silent :
    {A B : Type 0} (m : Prog A) (f : A → Prog B)
    → Sends 0 m
    → ((a : A) → Sends 0 (f a))
    → Sends 0 (m >>= f)
silent m f w g = Within-bind transactions 0 0 m f w g

read_record-Sends : (key : String) (o : Option Item) → Sends 0 (read_record key o)
read_record-Sends key none = tt
read_record-Sends key (some item) = Within-or_raise transactions 0 (item "request_hash") _ _ λ h.
    Within-or_raise transactions 0 (as_number (item "status_code")) _ _
      λ c. Within-or_raise transactions 0 (as_text (item "response_snapshot")) _ _ λ r. tt

get_record-Sends : (key : String) → Sends 0 (get_record key)
unfolding get_record
get_record-Sends key =
    silent (get (idempotency_item_key key) false) (read_record key)
      (get-Sends (idempotency_item_key key) false) (read_record-Sends key)

read_account-Sends : (o : Option Item) → Sends 0 (read_account o)
read_account-Sends none = tt
read_account-Sends (some item) =
    Within-or_raise transactions 0 (as_text (item "account_id")) _ _ λ m.
      Within-or_raise transactions 0 (as_number (item "current_balance")) _ _
        λ n. Within-or_raise transactions 0 (as_number (item "available_balance")) _ _ λ p. tt

get_account-Sends : (a : String) → Sends 0 (get_account a)
unfolding get_account
get_account-Sends a =
    silent (get (account_key a) false) read_account (get-Sends (account_key a) false)
      read_account-Sends

if-Sends :
    {A : Type 0} (n : ℕ) (b : Bool) (x y : Prog A)
    → Sends n x
    → Sends n y
    → Sends n (if b then x else y)
if-Sends n true x y wx wy = wx
if-Sends n false x y wx wy = wy

module _ (rt : Runtime) where
  some_response-Sends :
      (r : IdempotencyRecord) → Sends 0 (stored_response rt r >>= λ response. pure (some response))
  some_response-Sends r =
      silent (stored_response rt r) _
        (Within-or_raise transactions 0 (rt.loads r.response_snapshot) _ _ (λ b. tt))
        (λ response. tt)

  replay_unless_reused-Sends :
      (request : Option RequestModel) (o : Option IdempotencyRecord)
      → Sends 0 (replay_unless_reused rt request o)
  replay_unless_reused-Sends request none = tt
  replay_unless_reused-Sends request (some r) =
      if-Sends 0 (hash_differs rt request r.request_hash) _ _ tt (some_response-Sends r)

  check_replay-Sends :
      (key : String) (request : Option RequestModel) → Sends 0 (check_replay rt key request)
  unfolding check_replay
  check_replay-Sends key request =
      silent (get_record key) (replay_unless_reused rt request) (get_record-Sends key)
        (replay_unless_reused-Sends request)

  replay_winner-Sends : (o : Option IdempotencyRecord) → Sends 0 (replay_winner rt o)
  replay_winner-Sends none = tt
  replay_winner-Sends (some r) = some_response-Sends r

  resolve_conflict-Sends :
      (key : String) (codes : List Code) (i : ℕ) → Sends 0 (resolve_conflict rt key codes i)
  unfolding resolve_conflict
  resolve_conflict-Sends key codes i =
      if-Sends 0 (check_failed_at i codes) _ _
        (silent (get_record key) (replay_winner rt) (get_record-Sends key) replay_winner-Sends) tt

  replay_or_retry-Sends :
      (codes : List Code) (o : Option Response) → Sends 0 (replay_or_retry rt codes o)
  replay_or_retry-Sends codes (some response) = tt
  replay_or_retry-Sends codes none = if-Sends 0 (check_failed_at 0 codes) _ _ tt tt

  deposit_canceled-Sends : (key : String) (e : Exception) → Sends 0 (deposit_canceled rt key e)
  unfolding deposit_canceled
  deposit_canceled-Sends key (transaction_canceled codes) =
      silent (resolve_conflict rt key codes 3) (replay_or_retry rt codes)
        (resolve_conflict-Sends key codes 3) (replay_or_retry-Sends codes)
  deposit_canceled-Sends key _ = tt

  -- Sending a transaction, and then ending with a value.
  transact-Sends : {A : Type 0} (ws : List WriteItem) (a : A) → Sends 1 (transact ws >> pure a)
  transact-Sends ws a = (0, omega arith, after)
    where
      after : (x : Reply Outcome) → Sends 0 ((received x >>= or_cancel) >> pure a)
      after (reply committed) = tt
      after (reply (cancelled codes)) = tt
      after (lost f) = tt

  transact_item-Sends :
      (key : String) (request : Option RequestModel) (response : Response)
      → Sends 0 (transact_item rt key request response)
  unfolding transact_item
  transact_item-Sends key request response = (0, omega arith, λ now. tt)

  deposit_attempt-Sends :
      (account_id : String) (amount : ℤ) (key : String) (request : RequestModel)
      (build : Account → Response)
      → Sends 1 (deposit_attempt rt account_id amount key request build)
  unfolding deposit_attempt
  deposit_attempt-Sends account_id amount key request build =
      Within-bind transactions 0 1 (get_account account_id) _ (get_account-Sends account_id)
        λ found. Within-or_raise transactions 1 found account_not_found _ λ account. (
          1,
          omega arith,
          λ hex. (
            1,
            omega arith,
            λ now.
                Within-catch transactions 1 0 _ (deposit_canceled rt key)
                  (Within-bind transactions 0 1 (transact_item rt key (some request) _) _
                    (transact_item-Sends key (some request) _)
                    (λ w.
                      transact-Sends
                        (deposit_items account_id account amount (rt.isoformat now)
                          (concat ("transaction_" ∷ hex ∷ [])) w)
                        _))
                  (deposit_canceled-Sends key),
          ),
        )

  or_next-Sends :
      (n : ℕ) (done : Option Response) (rest : Prog Response)
      → Sends n rest
      → Sends n (or_next rt done rest)
  or_next-Sends n (some response) rest w = tt
  or_next-Sends n none rest w = w

  -- One transaction for each round.
  deposit-Sends :
      (account_id : String) (amount : ℤ) (key : String) (request : RequestModel)
      (build : Account → Response) (attempts : ℕ)
      → Sends attempts (deposit rt account_id amount key request build attempts)
  unfolding deposit
  deposit-Sends account_id amount key request build zero = tt
  deposit-Sends account_id amount key request build (suc attempts) =
      Within-le transactions (1 + attempts) (suc attempts)
        (deposit rt account_id amount key request build (suc attempts)) (omega arith)
        (Within-bind transactions 1 attempts
          (deposit_attempt rt account_id amount key request build)
          (λ done. or_next rt done (deposit rt account_id amount key request build attempts))
          (deposit_attempt-Sends account_id amount key request build)
          λ done.
            or_next-Sends attempts done _
              (deposit-Sends account_id amount key request build attempts))

  to_response-Sends : (e : Exception) → Sends 0 (to_response e)
  to_response-Sends (validation_error m) = tt
  to_response-Sends (api_error e) = tt
  to_response-Sends _ = tt

  deposit_failed-Sends : (b : String) (e : Exception) → Sends 0 (deposit_failed b e)
  unfolding deposit_failed
  deposit_failed-Sends b account_not_found = tt
  deposit_failed-Sends b _ = tt

  validated-Sends : {A : Type 0} (v : Validated A) → Sends 0 (validated v)
  validated-Sends (valid a) = tt
  validated-Sends (not_valid m) = tt
  validated-Sends malformed = tt

  require_key-Sends : (key : Option String) → Sends 0 (require_key key)
  unfolding require_key
  require_key-Sends none = tt
  require_key-Sends (some k) = if-Sends 0 (k == "") _ _ tt tt

  or_proceed-Sends :
      (n : ℕ) (o : Option Response) (rest : Prog Response)
      → Sends n rest
      → Sends n (or_proceed o rest)
  or_proceed-Sends n (some response) rest w = tt
  or_proceed-Sends n none rest w = w

  create_deposit-Sends : (event : Event) → Sends 5 (resolve (create_deposit rt event))
  unfolding create_deposit resolve
  create_deposit-Sends event =
      Within-catch transactions 5 0 (create_deposit rt event) to_response
        (Within-bind transactions 0 5 (validated (rt.validate_deposit event.body)) _
          (validated-Sends (rt.validate_deposit event.body))
          λ request.
            Within-bind transactions 0 5 (require_key event.idempotency_key) _
              (require_key-Sends event.idempotency_key)
              λ key.
                Within-bind transactions 0 5 (check_replay rt key (some (deposit_request request)))
                  _ (check_replay-Sends key (some (deposit_request request)))
                  λ replay. or_proceed-Sends 5 replay _ (
                    Within-catch transactions 5 0 _ (deposit_failed event.sub)
                      (deposit-Sends event.sub request.amount key (deposit_request request)
                        build_response 5)
                      (deposit_failed-Sends event.sub)))
        to_response-Sends

  -- A deposit sends at most five transactions, whatever DynamoDB answers and whatever others write
  -- meanwhile.
  pub create_deposit-bounds :
      (d : DynamoDb) (s : d.State) (event : Event)
      → spent transactions d (resolve (create_deposit rt event)) s ≤ 5
  create_deposit-bounds d s event =
      spent-Within transactions d 5 (resolve (create_deposit rt event)) s
        (create_deposit-Sends event)
