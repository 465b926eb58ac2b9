-- ===== src/Program.antt =====
-- What a handler does: calls of the services it depends on, one after another, each going on with
-- the answer; it ends with a value or an exception. Python's statements are `do` blocks, and
-- `try`/`except` is `catch`.
pub mod Service
pub mod Cost
pub mod Runs
use pay_ledger.Prelude.{ℕ, String, Option, none, some, List, Bool}
use pay_ledger.Prelude.Int.{ℤ}
use pay_ledger.Store.Item.{Item, as_text, as_number}
use pay_ledger.Store.Key.{Key}
use pay_ledger.Store.Transact.{Condition, WriteItem, Code, Outcome, committed, cancelled}
use pay_ledger.Errors.{ApiError}
use pay_ledger.Domain.{AuthorizationStatus, ErrorDetails}

-- Why a call of DynamoDB fails as a whole: it cannot be reached, or it refuses with some other code.
pub data Fault : Type 0 where
  unreachable : Fault
  refused : String → Fault

pub data Reply (A : Type 0) : Type 0 where
  reply : A → Reply A
  lost : Fault → Reply A

pub data PutOutcome : Type 0 where
  stored check_failed : PutOutcome

-- One page of a scan, with `LastEvaluatedKey`.
pub record Page : Type 0 where
  pub items : List Item
  pub last_evaluated_key : Option Key

-- `get_item` says whether the read is strongly consistent. `scan_expired` is the filtered scan of
-- `EXPIRED_GSI` at a status, a date and a start key. The rest is the clock, `uuid4().hex` and
-- `time.sleep`, in milliseconds.
pub data Request : Type 0 where
  get_item : Key → Bool → Request
  put_item : Item → Condition → Request
  transact_write_items : List WriteItem → Request
  query_gsi1 : String → String → Request
  scan_expired : String → String → Option Key → Request
  utc_now today epoch_seconds uuid4_hex : Request
  sleep : ℕ → Request

abbrev pub Answer : Request → Type 0
Answer (get_item k consistent) = Reply (Option Item)
Answer (put_item item c) = Reply PutOutcome
Answer (transact_write_items ws) = Reply Outcome
Answer (query_gsi1 pk sk) = Reply (List Item)
Answer (scan_expired status date start) = Reply Page
Answer utc_now = ℕ
Answer today = ℕ
Answer epoch_seconds = ℕ
Answer uuid4_hex = String
Answer (sleep ms) = Unit

-- The exceptions of shared/domain.py, `ApiError`, and those of Python, pydantic and boto3 that can
-- reach a handler. `out_of_fuel` is the model's own: a scan had more pages than the bound.
pub data Exception : Type 0 where
  api_error : ApiError → Exception
  merchant_already_exists account_already_exists insufficient_funds account_not_found : Exception
  authorization_not_pending : AuthorizationStatus → Exception
  transaction_canceled : List Code → Exception
  connection_error : Exception
  client_error : String → Exception
  validation_error : List ErrorDetails → Exception
  runtime_error : String → Exception
  assertion_error value_error out_of_fuel : Exception
  key_error : String → Exception

pub data Prog (A : Type 0) : Type 0 where
  pure : A → Prog A
  raise : Exception → Prog A
  call : (r : Request) → (Answer r → Prog A) → Prog A

infixl 5 ◌>>=◌ ◌>>◌
abbrev pub ◌>>=◌ : {A B : Type 0} → Prog A → (A → Prog B) → Prog B
pure a >>= f = f a
raise e >>= f = raise e
call r k >>= f = call r (λ x. k x >>= f)

abbrev pub ◌>>◌ : {A B : Type 0} → Prog A → Prog B → Prog B
m >> k = m >>= λ _. k

-- `try: m except …: handler`; the handler raises again what it does not name.
abbrev pub catch : {A : Type 0} → Prog A → (Exception → Prog A) → Prog A
catch (pure a) h = pure a
catch (raise e) h = h e
catch (call r k) h = call r (λ x. catch (k x) h)

abbrev pub or_raise : {A : Type 0} → Option A → Exception → Prog A
or_raise none e = raise e
or_raise (some a) e = pure a

abbrev pub fault_error : Fault → Exception
fault_error unreachable = connection_error
fault_error (refused code) = client_error code

abbrev pub received : {A : Type 0} → Reply A → Prog A
received (reply a) = pure a
received (lost f) = raise (fault_error f)

abbrev pub get : Key → Bool → Prog (Option Item)
get k consistent = call (get_item k consistent) received

abbrev pub query : String → String → Prog (List Item)
query pk sk = call (query_gsi1 pk sk) received

abbrev pub scan : String → String → Option Key → Prog Page
scan status date start = call (scan_expired status date start) received

abbrev pub or_cancel : Outcome → Prog (Unit {0})
or_cancel committed = pure tt
or_cancel (cancelled codes) = raise (transaction_canceled codes)

abbrev pub transact : List WriteItem → Prog (Unit {0})
transact ws = call (transact_write_items ws) λ r. received r >>= or_cancel

abbrev pub clock : Prog ℕ
clock = call utc_now pure

abbrev pub date_today : Prog ℕ
date_today = call today pure

abbrev pub seconds : Prog ℕ
seconds = call epoch_seconds pure

abbrev pub new_hex : Prog String
new_hex = call uuid4_hex pure

-- `item[name]`, of a text and of a number.
abbrev pub text_field : String → Item → Prog String
text_field name item = or_raise (as_text (item name)) (key_error name)

abbrev pub number_field : String → Item → Prog ℤ
number_field name item = or_raise (as_number (item name)) (key_error name)
