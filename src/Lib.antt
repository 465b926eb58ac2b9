-- ===== src/Lib.antt =====
-- PayLedger: a payments ledger of Lambda handlers over one DynamoDB table.
--
-- The program and the files that model it (paths from the repository's root):
--
-- src/layers/shared/table.py and the keys that the repositories build: Store/Key. The table itself,
--   condition and update expressions, and the plan of a TransactWriteItems call: Store/Table,
--   Store/Transact. A plan is none where a condition fails, and `reasons` has a code per position.
-- src/layers/shared/domain.py, errors.py, utils.py: Domain, Errors, Utils (with Utils/Decimals for the
--   encoding of numbers and Utils/Requests for the parts of a request).
-- src/layers/shared/dynamo.py, the constructors of the repositories, and the cached functions of the
--   handlers that call these: Dynamo.
-- src/layers/shared/idempotency.py: Idempotency (`get` is get_record, the rest has its own names).
-- src/layers/shared/ledger.py: Ledger/Merchants, Ledger/Accounts, Ledger/Authorizations (whose
--   transactions are in Ledger/Authorizations/Items), and Ledger/Sweep.
-- src/lambdas: Api/Authorization, Api/Deposit and Api/Functions (create_account and
--   expired_hold_sweeper), a definition for each route or handler.
-- infra/scripts/build_shared_layer.py: Infra/SharedLayer.
--
-- A handler is a program of type Prog (Program): calls of DynamoDB, of the clock and of uuid4, each
-- going on with the answer, ending in a value or an exception. `catch` is try/except. The functions
-- that the repositories receive as arguments (build_response) are arguments here too.
--
-- Parameters. Runtime has what Python and pydantic give: isoformat and its inverse, JSON, SHA-256 and
-- the validation of bodies. DynamoDb has an abstract state and an answer for each request; its
-- documented behaviour is the record Documented (Program/Service): a transaction writes all or
-- nothing, a failed condition is reported at its position, a lost reply leaves open what happened, and
-- reads and indexes may be late. PositiveAmounts says that the validated amounts are at least 1.
-- boto3.resource, the library functions of utils.py (Library), and uv with SHA-256 (Tools) are
-- arguments of Dynamo, Utils/Requests and Infra/SharedLayer.
--
-- The books (Books/View): for every account available_balance + (the sum of its pending holds) =
-- current_balance, and available_balance is not negative. Books/Transactions has each transaction of
-- the program; System/Safe defines the programs that only make requests that keep the books, whatever
-- they are answered and whatever others write meanwhile; System/Reads to System/Routes go through the
-- parts of the handlers and the routes with that definition. System/Pool is the deployed service: any
-- number of handlers, started at any time, whose calls are served one at a time in any order, and which
-- may stop at any call.
--
-- Books/Spec is the abstract ledger: a balance for each account and an amount for each pending hold,
-- which change by opening, depositing, placing, capturing and releasing alone. Books/Abstraction reads
-- it off a table. Books/Money and Books/Postings are sums over the table: the money, and the debits less
-- the credits.
--
-- Numbers. Amounts and balances are whole numbers with a sign (Prelude/Int), without DynamoDB's limit
-- of 38 digits. Times are microseconds and dates are days, as natural numbers. An attribute of
-- another type than the code casts it to counts as missing. The deposit loop has the code's five
-- attempts and the account insertion its three. scan_pages has a bound on the pages of one scan, and
-- ends with the model's own exception out_of_fuel where a scan has more (Ledger/Sweep/Pages). What the
-- sweep counts is in Ledger/Sweep/Count.
--
-- Not modelled: the expiry of idempotency records by TTL (infra/dynamodb.tf deletes a record after the
-- 24 hours of its ttl attribute; the runs of System/Pool have no such deletion, so they speak of keys
-- within that time), logging and tracing, the dispatch by path and Terraform. Documented has no
-- cancellation that mixes a failed condition with a conflict, and no PutItem that is stored but, on a
-- retry by the SDK, answered as refused. The body of an event is a text. What pydantic requires of a
-- request (amount > 0, no further fields) is left to the parameter Runtime. The message of the
-- RuntimeError of deposit is without the number of attempts. That uuid4 does not repeat an id is a
-- hypothesis on a run (HasFreshIds).
pub mod Prelude
pub mod Store
pub mod Errors
pub mod Domain
pub mod Program
pub mod Runtime
pub mod Utils
pub mod Idempotency
pub mod Ledger
pub mod Api
pub mod Books
pub mod System
pub mod Dynamo
pub mod Infra
pub mod Tests
