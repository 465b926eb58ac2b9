-- ===== src/Idempotency.antt =====
-- shared/idempotency.py: the record of a completed request, the replay of its response, and the
-- write that stores it in the transaction of the request.
pub mod Replay
use pay_ledger.Prelude.{
  ℕ, ◌+◌, ◌*◌, String, Option, none, some, List, [], ◌∷◌, Bool, true, false, ◌==◌, not, get_elem?,
  if◌then◌else◌,
}
use pay_ledger.Prelude.Int.{ℤ, pos}
use pay_ledger.Store.Item.{Value, str, num, null, Item, attributes}
use pay_ledger.Store.Key.{Key, ledger_pk_name, ledger_sort_key_name, idempotency_pk, meta}
use pay_ledger.Store.Transact.{
  WriteItem, put, attribute_not_exists, value_eqb, Code, conditional_check_failed,
}
use pay_ledger.Errors.{missing_idempotency_key, idempotency_key_reuse}
use pay_ledger.Domain.{Response}
use pay_ledger.Program.{
  Prog, pure, raise, ◌>>=◌, get, or_raise, text_field, number_field, seconds, key_error, api_error,
  value_error, assertion_error,
}
use pay_ledger.Runtime.{Runtime}
use pay_ledger.Utils.{RequestModel, get_model_hash}

abbrev pub default_ttl_seconds : ℕ
default_ttl_seconds = 24 * 60 * 60

-- The hash is `None` for a request without a body.
pub record IdempotencyRecord : Type 0 where
  pub idempotency_key : String
  pub request_hash : Value
  pub status_code : ℤ
  pub response_snapshot : String

abbrev pub idempotency_item_key : String → Key
idempotency_item_key key = record { pk = idempotency_pk key; sk = meta }

abbrev pub read_record : String → Option Item → Prog (Option IdempotencyRecord)
read_record key none = pure none
read_record key (some item) = do
  request_hash ← or_raise (item "request_hash") (key_error "request_hash")
  status_code ← number_field "status_code" item
  response_snapshot ← text_field "response_snapshot" item
  pure (
      some (record {
        idempotency_key = key;
        request_hash = request_hash;
        status_code = status_code;
        response_snapshot = response_snapshot;
      }))

-- `IdempotencyRepository.get`, an eventually consistent read.
unfoldable pub get_record : String → Prog (Option IdempotencyRecord)
get_record key = do item ← get (idempotency_item_key key) false; read_record key item

-- `require_key`, at the value of the header; an empty header counts as none.
unfoldable pub require_key : Option String → Prog String
require_key none = raise (
    api_error
      (record { error_class = missing_idempotency_key; message = "Missing idempotency key" }))
require_key (some key) =
    if key == ""
    then raise (
        api_error
          (record { error_class = missing_idempotency_key; message = "Missing idempotency key" }))
    else pure key

module _ (rt : Runtime) where
  -- `request and record.request_hash != get_model_hash(request)`
  abbrev pub hash_differs : Option RequestModel → Value → Bool
  hash_differs none h = false
  hash_differs (some request) h = not (value_eqb h (str (get_model_hash rt request)))

  -- The stored response, with its status.
  abbrev pub stored_response : IdempotencyRecord → Prog Response
  stored_response r = do
    body ← or_raise (rt.loads r.response_snapshot) value_error
    pure (record { status_code = r.status_code; body = body })

  abbrev pub replay_unless_reused :
      Option RequestModel → Option IdempotencyRecord → Prog (Option Response)
  replay_unless_reused request none = pure none
  replay_unless_reused request (some r) =
      if hash_differs request r.request_hash
      then raise (
          api_error
            (record { error_class = idempotency_key_reuse; message = "Idempotency key reuse" }))
      else do response ← stored_response r; pure (some response)

  unfoldable pub check_replay : String → Option RequestModel → Prog (Option Response)
  unfolding get_record
  check_replay key request = do r ← get_record key; replay_unless_reused request r

  abbrev pub hash_value : Option RequestModel → Value
  hash_value none = null
  hash_value (some request) = str (get_model_hash rt request)

  -- The item of an `IDEM#` record, at the time of the call.
  abbrev pub record_item : String → Option RequestModel → Response → ℕ → Item
  record_item key request response now = attributes (
      (ledger_pk_name, str (idempotency_pk key))
      ∷ (ledger_sort_key_name, str meta)
      ∷ ("idempotency_key", str key)
      ∷ ("request_hash", hash_value request)
      ∷ ("status_code", num response.status_code)
      ∷ ("response_snapshot", str (rt.dumps response.body))
      ∷ ("ttl", num (pos (now + default_ttl_seconds)))
      ∷ [])

  abbrev pub record_write : String → Option RequestModel → Response → ℕ → WriteItem
  record_write key request response now =
      put (record_item key request response now) (attribute_not_exists ledger_pk_name)

  unfoldable pub transact_item : String → Option RequestModel → Response → Prog WriteItem
  transact_item key request response = do
    now ← seconds
    pure (record_write key request response now)

-- `len(reasons) > i and reasons[i].get("Code") == "ConditionalCheckFailed"`
abbrev is_conditional : Option Code → Bool
is_conditional (some conditional_check_failed) = true
is_conditional _ = false

abbrev pub check_failed_at : ℕ → List Code → Bool
check_failed_at i codes = is_conditional (get_elem? codes i)

module _ (rt : Runtime) where
  -- The `assert` that the record of the winner is there.
  abbrev pub replay_winner : Option IdempotencyRecord → Prog (Option Response)
  replay_winner none = raise assertion_error
  replay_winner (some r) = do response ← stored_response rt r; pure (some response)

  unfoldable pub resolve_conflict : String → List Code → ℕ → Prog (Option Response)
  unfolding get_record
  resolve_conflict key codes item_index =
      if check_failed_at item_index codes
      then (do r ← get_record key; replay_winner r)
      else pure none
