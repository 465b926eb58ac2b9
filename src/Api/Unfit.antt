-- ===== src/Api/Unfit.antt =====
-- Requests that a route refuses before it calls any service.
use pay_ledger.Prelude.{String, ◌≡◌, refl, Option, map, none, some, List, [], ◌∷◌}
use pay_ledger.Prelude.Int.{pos}
use pay_ledger.Store.Item.{str}
use pay_ledger.Errors.{status_code, code, missing_idempotency_key}
use pay_ledger.Domain.{ErrorDetails, AuthorizationRequest, DepositRequest, Response}
use pay_ledger.Program.{Prog, pure, raise, api_error, value_error}
use pay_ledger.Runtime.{Runtime, valid, not_valid, malformed}
use pay_ledger.Utils.{error_body}
use pay_ledger.Idempotency.{require_key}
use pay_ledger.Api.Common.{
  Event, join, error_text, resolve, handle_validation_error, handle_api_error,
}
use pay_ledger.Api.Authorization.{create_authorization, create_merchant, capture, void}
use pay_ledger.Api.Deposit.{create_deposit}

-- The header is missing, or it is empty.
pub data HasNoKey : Option String → Type 0 where
  missing : HasNoKey none
  empty : HasNoKey (some "")

require_key-none :
    (o : Option String)
    → HasNoKey o
    → require_key o
      ≡ raise (
          api_error
            (record { error_class = missing_idempotency_key; message = "Missing idempotency key" }))
unfolding require_key
require_key-none none missing = refl
require_key-none (some _) empty = refl

abbrev no_key : String
no_key = "Missing idempotency key"

module _ (rt : Runtime) (event : Event) where
  -- A route that refuses the event, and the code that it answers: a route that needs a key has none,
  -- and its body, if it reads one, is valid; or the body is JSON that does not validate. Over a body
  -- that is not JSON there is no code.
  pub data IsUnfit : Option String → Prog Response → Type 0 where
    unkeyed_capture :
        (id : String)
        → HasNoKey event.idempotency_key
        → IsUnfit (some "MissingIdempotencyKey") (capture rt id event)
    unkeyed_void :
        (id : String)
        → HasNoKey event.idempotency_key
        → IsUnfit (some "MissingIdempotencyKey") (void rt id event)
    unkeyed_authorization :
        (r : AuthorizationRequest)
        → rt.validate_authorization event.body ≡ valid r
        → HasNoKey event.idempotency_key
        → IsUnfit (some "MissingIdempotencyKey") (create_authorization rt event)
    unkeyed_deposit :
        (r : DepositRequest)
        → rt.validate_deposit event.body ≡ valid r
        → HasNoKey event.idempotency_key
        → IsUnfit (some "MissingIdempotencyKey") (create_deposit rt event)
    invalid_authorization :
        (errors : List ErrorDetails)
        → rt.validate_authorization event.body ≡ not_valid errors
        → IsUnfit (some "InvalidRequest") (create_authorization rt event)
    invalid_deposit :
        (errors : List ErrorDetails)
        → rt.validate_deposit event.body ≡ not_valid errors
        → IsUnfit (some "InvalidRequest") (create_deposit rt event)
    invalid_merchant :
        (errors : List ErrorDetails)
        → rt.validate_merchant event.body ≡ not_valid errors
        → IsUnfit (some "InvalidRequest") (create_merchant rt event)
    not_json_authorization :
        rt.validate_authorization event.body ≡ malformed
        → IsUnfit none (create_authorization rt event)
    not_json_deposit :
        rt.validate_deposit event.body ≡ malformed → IsUnfit none (create_deposit rt event)
    not_json_merchant :
        rt.validate_merchant event.body ≡ malformed → IsUnfit none (create_merchant rt event)

  -- 400 with the code, or the ValueError of the JSON decoder, which no exception handler takes; in
  -- both cases with no call.
  abbrev pub Refused : Option String → Prog Response → Type 0
  Refused (some c) route =
      (message : String) × (resolve route
        ≡ pure (record {
          status_code = pos 400;
          body = ("error", str c) ∷ ("message", str message) ∷ [];
        }))
  Refused none route = resolve route ≡ raise value_error

  -- A capture or a void without an idempotency key, and a hold or a deposit with a valid body but
  -- without one, are answered with 400 MissingIdempotencyKey; a hold, a deposit or a merchant whose
  -- body is JSON that does not validate is answered with 400 InvalidRequest; and one whose body is not
  -- JSON ends with a ValueError that no exception handler takes. None of these makes a call.
  pub resolve-IsUnfit :
      (o : Option String) (route : Prog Response) → IsUnfit o route → Refused o route
  unfolding resolve capture void create_authorization create_deposit create_merchant
      handle_validation_error handle_api_error status_code code error_body
  resolve-IsUnfit _ _ (unkeyed_capture id n) = (no_key, rw (require_key-none _ n) refl)
  resolve-IsUnfit _ _ (unkeyed_void id n) = (no_key, rw (require_key-none _ n) refl)
  resolve-IsUnfit _ _ (unkeyed_authorization r v n) = (no_key, rw (v, require_key-none _ n) refl)
  resolve-IsUnfit _ _ (unkeyed_deposit r v n) = (no_key, rw (v, require_key-none _ n) refl)
  resolve-IsUnfit _ _ (invalid_authorization errors v) =
      (join "; " (map error_text errors), rw v refl)
  resolve-IsUnfit _ _ (invalid_deposit errors v) = (join "; " (map error_text errors), rw v refl)
  resolve-IsUnfit _ _ (invalid_merchant errors v) = (join "; " (map error_text errors), rw v refl)
  resolve-IsUnfit _ _ (not_json_authorization v) = rw v refl
  resolve-IsUnfit _ _ (not_json_deposit v) = rw v refl
  resolve-IsUnfit _ _ (not_json_merchant v) = rw v refl
