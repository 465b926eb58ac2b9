-- ===== src/Utils.antt =====
-- shared/utils.py: the hash of a request and the body of an error.
pub mod Decimals
pub mod Requests
use pay_ledger.Prelude.{String, [], ◌∷◌}
use pay_ledger.Store.Item.{str, num}
use pay_ledger.Errors.{ApiError, code}
use pay_ledger.Domain.{Body, AuthorizationRequest, DepositRequest}
use pay_ledger.Runtime.{Runtime}

-- The models whose hash is taken.
pub data RequestModel : Type 0 where
  authorization_request : AuthorizationRequest → RequestModel
  deposit_request : DepositRequest → RequestModel

-- `model.model_dump(mode="json")`: the fields, by name.
abbrev pub model_dump : RequestModel → Body
model_dump (authorization_request r) =
    ("amount", num r.amount) ∷ ("merchant_id", str r.merchant_id) ∷ []
model_dump (deposit_request r) = ("amount", num r.amount) ∷ []

unfoldable pub get_model_hash : Runtime → RequestModel → String
get_model_hash rt model = rt.sha256_hexdigest (rt.dumps_sorted (model_dump model))

unfoldable pub error_body : ApiError → Body
unfolding code
error_body e = ("error", str (code e.error_class)) ∷ ("message", str e.message) ∷ []
