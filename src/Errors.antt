-- ===== src/Errors.antt =====
-- shared/errors.py: the errors that handlers raise, with their status and code. A class that
-- does not set an attribute inherits it from its base.
use pay_ledger.Prelude.{String}
use pay_ledger.Prelude.Int.{ℤ, pos}

pub data ErrorClass : Type 0 where
  base_error bad_request not_found conflict : ErrorClass
  unknown_merchant merchant_already_exists insufficient_funds : ErrorClass
  authorization_not_found authorization_already_captured authorization_already_voided : ErrorClass
  authorization_expired authorization_reversed : ErrorClass
  missing_idempotency_key idempotency_key_reuse : ErrorClass

unfoldable pub status_code : ErrorClass → ℤ
status_code base_error = pos 500
status_code bad_request = pos 400
status_code not_found = pos 404
status_code conflict = pos 409
status_code unknown_merchant = pos 400
status_code merchant_already_exists = pos 400
status_code insufficient_funds = pos 409
status_code authorization_not_found = pos 404
status_code authorization_already_captured = pos 409
status_code authorization_already_voided = pos 409
status_code authorization_expired = pos 409
status_code authorization_reversed = pos 409
status_code missing_idempotency_key = pos 400
status_code idempotency_key_reuse = pos 422

unfoldable pub code : ErrorClass → String
code base_error = "InternalServerError"
code bad_request = "BadRequest"
code not_found = "NotFound"
code conflict = "Conflict"
code unknown_merchant = "UnknownMerchant"
code merchant_already_exists = "MerchantAlreadyExists"
code insufficient_funds = "InsufficientFunds"
code authorization_not_found = "AuthorizationNotFound"
code authorization_already_captured = "AlreadyCaptured"
code authorization_already_voided = "AlreadyVoided"
code authorization_expired = "AuthorizationExpired"
code authorization_reversed = "AuthorizationReversed"
code missing_idempotency_key = "MissingIdempotencyKey"
code idempotency_key_reuse = "IdempotencyKeyReuse"

pub record ApiError : Type 0 where
  pub error_class : ErrorClass
  pub message : String
