-- ===== src/Runtime.antt =====
-- What the program takes from Python's library and from pydantic, as functions that it is given:
-- ISO 8601 formatting of times and dates, JSON, SHA-256, and the validation of request bodies.
use pay_ledger.Prelude.{ℕ, String, ◌≡◌, Option, none, some, List, ◌==◌, if◌then◌else◌}
use pay_ledger.Prelude.Int.{pos, ◌≤ℤ◌}
use pay_ledger.Domain.{ErrorDetails, Body, AuthorizationRequest, DepositRequest, MerchantRequest}

-- `value or other`, where `value` is a text or None: the empty text is false.
abbrev pub or_else : {A : Type 0} → Option String → (String → A) → A → A
or_else none keep other = other
or_else (some text) keep other = if text == "" then other else keep text

-- `mapping.get(name, default)`, of what the mapping has
abbrev pub get_or : Option String → String → String
get_or none default = default
get_or (some value) default = value

-- `Model.model_validate(event.json_body)`: the model, a `ValidationError` with its errors, or
-- a body that is no JSON.
pub data Validated (A : Type 0) : Type 0 where
  valid : A → Validated A
  not_valid : List ErrorDetails → Validated A
  malformed : Validated A

pub record Runtime : Type 0 where
  pub isoformat : ℕ → String
  pub fromisoformat : String → Option ℕ
  pub date_isoformat : ℕ → String
  pub date_fromisoformat : String → Option ℕ
  pub dumps : Body → String
  pub dumps_sorted : Body → String
  pub loads : String → Option Body
  pub sha256_hexdigest : String → String
  pub validate_authorization : String → Validated AuthorizationRequest
  pub validate_deposit : String → Validated DepositRequest
  pub validate_merchant : String → Validated MerchantRequest

-- `amount: int = Field(gt=0)`
pub record PositiveAmounts (rt : Runtime) : Type 0 where
  pub authorization_amount :
      (body : String) (r : AuthorizationRequest)
      → rt.validate_authorization body ≡ valid r
      → pos 1 ≤ℤ r.amount
  pub deposit_amount :
      (body : String) (r : DepositRequest) → rt.validate_deposit body ≡ valid r → pos 1 ≤ℤ r.amount
