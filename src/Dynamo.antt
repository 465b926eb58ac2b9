-- ===== src/Dynamo.antt =====
-- shared/dynamo.py, the constructors of the repositories, and the functions of the handlers that
-- keep a repository for later invocations.
pub mod Cached
use pay_ledger.Prelude.{
  ℕ, String, Option, none, some, List, [], ◌∷◌, Bool, true, false, ◌&&◌, ◌==◌, if◌then◌else◌,
}
use pay_ledger.Runtime.{or_else, get_or}
use pay_ledger.Program.{Prog, raise, pure, runtime_error}
use pay_ledger.Store.Key.{concat}

-- `os.environ`
abbrev pub Environ : Type 0
Environ = String → Option String

-- What `_resource` is called with.
pub record Target : Type 0 where
  pub endpoint_url : Option String
  pub region_name : String

unfoldable pub target : Environ → Target
target environ = record {
  endpoint_url = or_else (environ "DYNAMODB_ENDPOINT_URL") some none;
  region_name =
      or_else (environ "AWS_REGION") (λ region. region)
        (get_or (environ "AWS_DEFAULT_REGION") "us-east-1");
}

abbrev pub same_endpoint : Option String → Option String → Bool
same_endpoint none none = true
same_endpoint (some a) (some b) = a == b
same_endpoint _ _ = false

abbrev pub same_target : Target → Target → Bool
same_target a b = same_endpoint a.endpoint_url b.endpoint_url && (a.region_name == b.region_name)

-- The arguments of `boto3.resource`, after the name of the service.
pub record ResourceArguments : Type 0 where
  pub target : Target
  pub max_attempts : ℕ
  pub mode : String

abbrev pub resource_arguments : Target → ResourceArguments
resource_arguments t = record { target = t; max_attempts = 5; mode = "standard" }

-- LEDGER_TABLE_NAME
abbrev pub ledger_table_name : String
ledger_table_name = "payledger-ledger-table"

unfoldable pub required_env : Environ → String → Prog String
required_env environ name = or_else (environ name) pure (
    raise (runtime_error (concat ("required environment variable '" ∷ name ∷ "' is not set" ∷ []))))

-- `resource.Table(name)`: the table has the client of its resource.
pub record BotoTable (R : Type 0) : Type 0 where
  pub resource : R
  pub name : String

-- The attributes of MerchantRepository and of IdempotencyRepository.
pub record TableRepository (R : Type 0) : Type 0 where
  pub table : BotoTable R

-- Those of AccountRepository and of AuthorizationRepository. The transactions of these go through
-- the client of `dynamodb`.
pub record LedgerRepository (R : Type 0) : Type 0 where
  pub table_name : String
  pub table : BotoTable R
  pub dynamodb : R
  pub idempotency_repository : TableRepository R

abbrev pub found : {R : Type 0} → Target → List (Target × R) → Option R
found t [] = none
found t ((u, r) ∷ rest) = if same_target u t then some r else found t rest

-- The cache of `_resource`, with what else the process has.
pub record Process (W R : Type 0) : Type 0 where
  pub resources : List (Target × R)
  pub world : W

-- `boto3.resource` makes an object out of its arguments and of what else the process has, W, or
-- raises.
module _ {W R : Type 0} (boto3_resource : ResourceArguments → W → Option R × W) where
  -- What makes an object, or raises.
  abbrev pub Making : Type 0 → Type 0
  Making A = Process W R → Option A × Process W R

  abbrev pub go_on :
      {A B : Type 0} → (A → Making B) → Option A × Process W R → Option B × Process W R
  go_on f (none, p) = (none, p)
  go_on f (some a, p) = f a p

  infixl 5 ◌>>=◌
  abbrev pub ◌>>=◌ : {A B : Type 0} → Making A → (A → Making B) → Making B
  (m >>= f) p = go_on f (m p)

  abbrev pub made : {A : Type 0} → A → Making A
  made a p = (some a, p)

  -- An exception is not kept.
  abbrev pub keep : Target → List (Target × R) → Option R × W → Option R × Process W R
  keep t resources (none, w) = (none, record { resources = resources; world = w })
  keep t resources (some r, w) = (some r, record { resources = (t, r) ∷ resources; world = w })

  abbrev pub looked_up : Target → Process W R → Option R → Option R × Process W R
  looked_up t p (some r) = (some r, p)
  looked_up t p none = keep t p.resources (boto3_resource (resource_arguments t) p.world)

  -- `_resource`, under `functools.cache`
  unfoldable pub resource : Target → Making R
  resource t p = looked_up t p (found t p.resources)

  unfoldable pub get_table : Environ → String → Making (BotoTable R)
  get_table environ name = do
    r ← resource (target environ)
    made (record { resource = r; name = name })

  unfoldable pub get_dynamodb_resource : Environ → Making R
  get_dynamodb_resource environ = resource (target environ)

  unfoldable pub merchant_repository : Environ → Making (TableRepository R)
  merchant_repository environ = do
    table ← get_table environ ledger_table_name
    made (record { table = table })

  unfoldable pub idempotency_repository_at : Environ → String → Making (TableRepository R)
  idempotency_repository_at environ table_name = do
    table ← get_table environ table_name
    made (record { table = table })

  unfoldable pub ledger_repository : Environ → String → Making (LedgerRepository R)
  ledger_repository environ table_name = do
    table ← get_table environ table_name
    dynamodb ← get_dynamodb_resource environ
    idempotency_repository ← idempotency_repository_at environ table_name
    made (record {
      table_name = table_name;
      table = table;
      dynamodb = dynamodb;
      idempotency_repository = idempotency_repository;
    })

  -- `AccountRepository()`
  unfoldable pub account_repository : Environ → Making (LedgerRepository R)
  account_repository environ = ledger_repository environ ledger_table_name

  -- `AuthorizationRepository()`
  unfoldable pub authorization_repository : Environ → Making (LedgerRepository R)
  authorization_repository environ = ledger_repository environ ledger_table_name

  -- `functools.cache` of a function without arguments: what it keeps, and the process.
  abbrev pub kept_now : {A : Type 0} → Option A × Process W R → Option A × Option A × Process W R
  kept_now (made, p) = (made, made, p)

  abbrev pub once :
      {A : Type 0} → Making A → Option A → Process W R → Option A × Option A × Process W R
  once make (some a) p = (some a, some a, p)
  once make none p = kept_now (make p)

  -- `_get_merchant_repository()` and the like, each with its own cache.
  abbrev pub get_merchant_repository :
      Environ
      → Option (TableRepository R)
      → Process W R
      → Option (TableRepository R) × Option (TableRepository R) × Process W R
  get_merchant_repository environ = once (merchant_repository environ)

  abbrev pub get_authorization_repository :
      Environ
      → Option (LedgerRepository R)
      → Process W R
      → Option (LedgerRepository R) × Option (LedgerRepository R) × Process W R
  get_authorization_repository environ = once (authorization_repository environ)

  abbrev pub get_idempotency_repository :
      Environ
      → Option (TableRepository R)
      → Process W R
      → Option (TableRepository R) × Option (TableRepository R) × Process W R
  get_idempotency_repository environ = once (idempotency_repository_at environ ledger_table_name)

  abbrev pub get_account_repository :
      Environ
      → Option (LedgerRepository R)
      → Process W R
      → Option (LedgerRepository R) × Option (LedgerRepository R) × Process W R
  get_account_repository environ = once (account_repository environ)
