-- ===== src/Api/Authorization.antt =====
-- src/lambdas/authorization_service/handler.py, a definition for each route.
use pay_ledger.Prelude.{String, Option, none, some, [], ◌∷◌, ◌==◌, if◌then◌else◌}
use pay_ledger.Prelude.Int.{ℤ, pos}
use pay_ledger.Store.Item.{Value, str, num}
use pay_ledger.Store.Key.{concat}
use pay_ledger.Errors.{
  ErrorClass, unknown_merchant, merchant_already_exists, insufficient_funds,
  authorization_not_found, authorization_already_captured, authorization_already_voided,
  authorization_expired, authorization_reversed,
}
use pay_ledger.Domain.{
  Authorization, AuthorizationStatus, pending, captured, voided, expired, reversed, status_value,
  status_lower, Response, Merchant, Body,
}
use pay_ledger.Program
use pay_ledger.Program.{
  Prog, pure, raise, ◌>>=◌, ◌>>◌, catch, Exception, authorization_not_pending, runtime_error,
  or_raise, key_error,
}
use pay_ledger.Runtime.{Runtime}
use pay_ledger.Utils.{authorization_request}
use pay_ledger.Idempotency.{require_key, check_replay}
use pay_ledger.Ledger.Merchants.{get_merchant, insert_merchant}
use pay_ledger.Ledger.Authorizations.{
  insert_authorization, get_authorization, capture_authorization, void_authorization,
}
use pay_ledger.Api.Common.{Event, validated, api}

-- `_TERMINAL_STATUS_ERRORS`
unfoldable pub terminal_status_errors : AuthorizationStatus → Option ErrorClass
terminal_status_errors pending = none
terminal_status_errors captured = some authorization_already_captured
terminal_status_errors voided = some authorization_already_voided
terminal_status_errors expired = some authorization_expired
terminal_status_errors reversed = some authorization_reversed

abbrev pub raise_class : String → AuthorizationStatus → Option ErrorClass → Prog Response
raise_class authorization_id status (some c) =
    api c (concat ("authorization " ∷ authorization_id ∷ " is " ∷ status_lower status ∷ []))
raise_class authorization_id status none = raise (
    runtime_error (
      concat (
        "authorization "
        ∷ authorization_id
        ∷ " is "
        ∷ status_value status
        ∷ ", which is not a terminal state"
        ∷ [])))

-- `raise _terminal_status_error(authorization_id, status)`
unfoldable pub terminal_status_error : String → AuthorizationStatus → Prog Response
unfolding terminal_status_errors
terminal_status_error authorization_id status =
    raise_class authorization_id status (terminal_status_errors status)

-- The replay, if there is one, or the rest of the route.
abbrev pub or_proceed : Option Response → Prog Response → Prog Response
or_proceed (some response) proceed = pure response
or_proceed none proceed = proceed

-- `body[name]`
abbrev pub body_value : String → Body → Option Value
body_value name [] = none
body_value name ((field, value) ∷ body) = if field == name then some value else body_value name body

-- `response.body["authorization_id"]`, which the log of the route reads: a replayed response without
-- an id is a KeyError.
abbrev pub with_authorization_id : Response → Prog Response
with_authorization_id response = do
  authorization_id ←
      or_raise (body_value "authorization_id" response.body) (key_error "authorization_id")
  pure response

module _ (rt : Runtime) where
  unfoldable pub build_authorization_response : Authorization → ℤ → Response
  build_authorization_response a status_code = record {
    status_code = status_code;
    body =
        ("authorization_id", str a.authorization_id)
        ∷ ("status", str (status_value a.status))
        ∷ ("amount", num a.amount)
        ∷ ("merchant_id", str a.merchant_id)
        ∷ ("expires_at", str (rt.date_isoformat a.expires_at))
        ∷ ("created_at", str (rt.isoformat a.created_at))
        ∷ ("updated_at", str (rt.isoformat a.updated_at))
        ∷ [];
  }

  -- `except domain.InsufficientFunds`
  unfoldable pub hold_failed : String → Exception → Prog Response
  hold_failed account_id Program.insufficient_funds =
      api insufficient_funds (concat ("Account " ∷ account_id ∷ " does not have enough funds" ∷ []))
  hold_failed account_id e = raise e

  abbrev pub known_merchant : String → Option Merchant → Prog Merchant
  known_merchant merchant_id (some merchant) = pure merchant
  known_merchant merchant_id none =
      api unknown_merchant (concat ("Merchant " ∷ merchant_id ∷ " not found" ∷ []))

  unfoldable pub create_authorization : Event → Prog Response
  unfolding hold_failed
  create_authorization event = do
    request ← validated (rt.validate_authorization event.body)
    let account_id = event.sub
    idempotency_key ← require_key event.idempotency_key
    replay ← check_replay rt idempotency_key (some (authorization_request request))
    or_proceed replay do
      found ← get_merchant request.merchant_id
      known_merchant request.merchant_id found
      response ←
          catch
            (insert_authorization rt account_id request.merchant_id request.amount idempotency_key
              (authorization_request request) (λ a. build_authorization_response a (pos 201)))
            (hold_failed account_id)
      with_authorization_id response

  -- The authorization that was read, if it belongs to the caller.
  abbrev pub owned : String → String → Option Authorization → Prog Authorization
  owned authorization_id account_id none =
      api authorization_not_found (concat ("authorization " ∷ authorization_id ∷ " not found" ∷ []))
  owned authorization_id account_id (some a) =
      if a.account_id == account_id
      then pure a
      else api authorization_not_found
          (concat ("authorization " ∷ authorization_id ∷ " not found" ∷ []))

  -- `except domain.AuthorizationNotPending`
  unfoldable pub not_pending : String → Exception → Prog Response
  unfolding terminal_status_error
  not_pending authorization_id (authorization_not_pending status) =
      terminal_status_error authorization_id status
  not_pending authorization_id e = raise e

  unfoldable pub capture : String → Event → Prog Response
  unfolding not_pending
  capture authorization_id event = do
    let account_id = event.sub
    idempotency_key ← require_key event.idempotency_key
    replay ← check_replay rt idempotency_key none
    or_proceed replay do
      found ← get_authorization rt authorization_id
      authorization ← owned authorization_id account_id found
      catch
          (capture_authorization rt authorization account_id idempotency_key
            build_authorization_response)
          (not_pending authorization_id)

  unfoldable pub void : String → Event → Prog Response
  unfolding not_pending
  void authorization_id event = do
    let account_id = event.sub
    idempotency_key ← require_key event.idempotency_key
    replay ← check_replay rt idempotency_key none
    or_proceed replay do
      found ← get_authorization rt authorization_id
      authorization ← owned authorization_id account_id found
      catch
          (void_authorization rt authorization account_id idempotency_key
            build_authorization_response)
          (not_pending authorization_id)

  -- `except domain.MerchantAlreadyExists`
  unfoldable pub merchant_exists : Exception → Prog (Unit {0})
  merchant_exists Program.merchant_already_exists =
      api merchant_already_exists "Merchant already exists"
  merchant_exists e = raise e

  unfoldable pub create_merchant : Event → Prog Response
  unfolding merchant_exists
  create_merchant event = do
    request ← validated (rt.validate_merchant event.body)
    let merchant : Merchant = record {
      merchant_id = request.merchant_id;
      name = request.merchant_name;
      payable_balance = pos 0;
    }
    catch (insert_merchant rt merchant) merchant_exists
    pure (record {
      status_code = pos 201;
      body =
          ("merchant_name", str merchant.name)
          ∷ ("merchant_id", str merchant.merchant_id)
          ∷ ("payable_balance", num merchant.payable_balance)
          ∷ [];
    })
