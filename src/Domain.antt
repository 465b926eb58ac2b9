-- ===== src/Domain.antt =====
-- shared/domain.py: the entities, the states of an authorization, and the exceptions; with the
-- request and response schemas of the handlers.
use pay_ledger.Prelude.{ℕ, String, ◌≡◌, refl, Option, none, some, List, Bool, ◌==◌, if◌then◌else◌}
use pay_ledger.Prelude.Int.{ℤ, leb_ℤ}
use pay_ledger.Store.Item.{Value}

pub record Merchant : Type 0 where
  pub merchant_id : String
  pub name : String
  pub payable_balance : ℤ

pub record Account : Type 0 where
  pub account_id : String
  pub current_balance : ℤ
  pub available_balance : ℤ

unfoldable pub has_sufficient_funds : Account → ℤ → Bool
has_sufficient_funds account amount = leb_ℤ amount account.available_balance

pub data AuthorizationStatus : Type 0 where
  pending captured voided expired reversed : AuthorizationStatus

-- `status.value`
abbrev pub status_value : AuthorizationStatus → String
status_value pending = "PENDING"
status_value captured = "CAPTURED"
status_value voided = "VOIDED"
status_value expired = "EXPIRED"
status_value reversed = "REVERSED"

-- `status.value.lower()`
abbrev pub status_lower : AuthorizationStatus → String
status_lower pending = "pending"
status_lower captured = "captured"
status_lower voided = "voided"
status_lower expired = "expired"
status_lower reversed = "reversed"

-- `AuthorizationStatus(text)`; `none` is a `ValueError`.
unfoldable pub status_of : String → Option AuthorizationStatus
status_of s =
    if s == "PENDING"
    then some pending
    else if s == "CAPTURED"
    then some captured
    else if s == "VOIDED"
    then some voided
    else if s == "EXPIRED"
    then some expired
    else if s == "REVERSED"
    then some reversed
    else none

-- Times are counted in microseconds and dates in days.
pub record Authorization : Type 0 where
  pub authorization_id : String
  pub merchant_id : String
  pub amount : ℤ
  pub created_at : ℕ
  pub updated_at : ℕ
  pub status : AuthorizationStatus
  pub expires_at : ℕ
  pub account_id : String
  pub sort_key : String

-- The name and the value of a status determine one another.
pub status_of-status_value : (s : AuthorizationStatus) → status_of (status_value s) ≡ some s
unfolding status_of
status_of-status_value pending = refl
status_of-status_value captured = refl
status_of-status_value voided = refl
status_of-status_value expired = refl
status_of-status_value reversed = refl

-- A JSON object, and a response of a handler (its content type is always JSON).
abbrev pub Body : Type 0
Body = List (String × Value)

pub record Response : Type 0 where
  pub status_code : ℤ
  pub body : Body

-- One of `ValidationError.errors()`: the texts of its location, and its message.
pub record ErrorDetails : Type 0 where
  pub loc : List String
  pub msg : String

pub record AuthorizationRequest : Type 0 where
  pub amount : ℤ
  pub merchant_id : String

pub record DepositRequest : Type 0 where
  pub amount : ℤ

pub record MerchantRequest : Type 0 where
  pub merchant_name : String
  pub merchant_id : String
