-- ===== src/Idempotency/Replay.antt =====
-- What an idempotency record does: it replays its response, it shows the reuse of its key, and it
-- refuses every further transaction with the key.
use pay_ledger.Prelude.{
  ℕ, String, ◌≡◌, ◌≢◌, refl, ap, Option, none, some, List, ◌∷◌, ◌++◌, false, arith, get_elem?,
  length, inl, inr, Bool-cases, Option-cases, eq_refl,
}
use pay_ledger.Store.Item.{str, Item}
use pay_ledger.Store.Key.{ledger_pk_name}
use pay_ledger.Store.Table.{Table, lookup}
use pay_ledger.Store.Transact.{
  WriteItem, plan, reasons, verdict, verdict_on, condition_failed, conditional_check_failed, holds,
  attribute_not_exists, value_eqb,
}
use pay_ledger.Store.Transact.Inversion.{value_eqb-eq}
use pay_ledger.Store.Transact.Refusal.{refused-plan}
use pay_ledger.Errors.{idempotency_key_reuse}
use pay_ledger.Domain.{Response}
use pay_ledger.Program.{◌>>=◌, received, get_item, Reply, reply, api_error}
use pay_ledger.Program.Service.{DynamoDb, Result, returned, raised, run}
use pay_ledger.Runtime.{Runtime}
use pay_ledger.Utils.{RequestModel, get_model_hash}
use pay_ledger.Idempotency.{
  idempotency_item_key, record_item, record_write, check_replay, get_record, read_record,
  hash_value, replay_unless_reused,
}

present :
    (name : String) (item : Item)
    → item name ≢ none
    → holds (attribute_not_exists name) (some item) ≡ false
unfolding holds
present name item there = elim (Option-cases (item name)) [
  | inl e ↦ absurd (there e)
  | inr (v, e) ↦ ground arith
]

-- A record that is there fails the condition of the write.
spent_verdict :
    (rt : Runtime) (key : String) (request : Option RequestModel) (response : Response) (at : ℕ)
    (t : Table) (item : Item)
    → lookup (idempotency_item_key key) t ≡ some item
    → item ledger_pk_name ≢ none
    → verdict (record_write rt key request response at) t ≡ condition_failed
unfolding verdict verdict_on
spent_verdict rt key request response at t item found keyed =
    rw (found, present ledger_pk_name item keyed) refl

module _ (rt : Runtime) (key : String) (request : Option RequestModel) (response : Response)
    (at : ℕ) (t : Table) (item : Item) (found : lookup (idempotency_item_key key) t ≡ some item)
    (keyed : item ledger_pk_name ≢ none) where
  -- While the table has an item for an idempotency key, with its partition key, every transaction
  -- that carries a record for the key, at whatever position, writes nothing, and its cancellation
  -- reports that position.
  pub spent_key-plan :
      (before after : List WriteItem)
      → let ws = before ++ record_write rt key request response at ∷ after in
        (plan ws t ≡ none)
        × (get_elem? (reasons ws t) (length before) ≡ some conditional_check_failed)
  spent_key-plan before after =
      refused-plan before _ after t (spent_verdict rt key request response at t item found keyed)

-- Where the read of a key shows the record of a request; that of a capture or a void is none.
module _ (rt : Runtime) (d : DynamoDb) (s : d.State) (key : String) (stored : Option RequestModel)
    (response : Response) (at : ℕ)
    (read : (d.answer (get_item (idempotency_item_key key) false) s).0
      ≡ reply (some (record_item rt key stored response at))) where
  answered :
      (request : Option RequestModel) (x : Reply (Option Item)) (s' : d.State)
      (wanted : Result (Option Response) × d.State)
      → x ≡ reply (some (record_item rt key stored response at))
      → (run d
          (replay_unless_reused rt request (
            some (record {
              idempotency_key = key;
              request_hash = hash_value rt stored;
              status_code = response.status_code;
              response_snapshot = rt.dumps response.body;
            })))
          s')
        ≡ wanted
      → run d ((received x >>= read_record key) >>= replay_unless_reused rt request) s' ≡ wanted
  answered request x s' wanted e h = rw e h

  pub check_replay-run :
      rt.loads (rt.dumps response.body) ≡ some response.body
      → (request : Option RequestModel)
      → ((m : RequestModel) → request ≡ some m → hash_value rt stored ≡ str (get_model_hash rt m))
      → run d (check_replay rt key request) s
        ≡ (returned (some response), (d.answer (get_item (idempotency_item_key key) false) s).1)
  unfolding check_replay get_record
  check_replay-run parses request same = answered request _ _ _ read (after request same)
    where
      after :
          (request : Option RequestModel)
          → ((m : RequestModel)
              → request ≡ some m
              → hash_value rt stored ≡ str (get_model_hash rt m))
          → run d
              (replay_unless_reused rt request (
                some (record {
                  idempotency_key = key;
                  request_hash = hash_value rt stored;
                  status_code = response.status_code;
                  response_snapshot = rt.dumps response.body;
                })))
              (d.answer (get_item (idempotency_item_key key) false) s).1
            ≡ (returned (some response), (d.answer (get_item (idempotency_item_key key) false) s).1)
      after none same = rw (parses) refl
      after (some m) same = rw (same m refl, eq_refl (get_model_hash rt m), parses) refl

  -- Where the read of a key shows the record that a request has stored, a capture or a void (which
  -- store no hash) included, and JSON gives the stored body back: a request whose hash is the stored
  -- one, and any capture or void, is answered with the stored response, status and body.
  pub check_replay-same :
      rt.loads (rt.dumps response.body) ≡ some response.body
      → (request : Option RequestModel)
      → ((m : RequestModel) → request ≡ some m → hash_value rt stored ≡ str (get_model_hash rt m))
      → (run d (check_replay rt key request) s).0 ≡ returned (some response)
  check_replay-same parses request same = ap (λ x. x.0) (check_replay-run parses request same)

  -- Where the read of a key shows the record that a request has stored, a request whose hash is not
  -- the stored one is refused: the key is reused. The record of a capture or a void stores no hash, and
  -- every request with a hash is refused over it.
  pub check_replay-other :
      (request : RequestModel)
      → hash_value rt stored ≢ str (get_model_hash rt request)
      → (run d (check_replay rt key (some request)) s).0
        ≡ raised (
            api_error
              (record { error_class = idempotency_key_reuse; message = "Idempotency key reuse" }))
  unfolding check_replay get_record
  check_replay-other request other =
      ap (λ x. x.0)
        (answered (some request) _ _
          (
            raised (
                api_error (record {
                  error_class = idempotency_key_reuse;
                  message = "Idempotency key reuse";
                })),
            (d.answer (get_item (idempotency_item_key key) false) s).1,
          )
          read
          (elim (Bool-cases (value_eqb (hash_value rt stored) (str (get_model_hash rt request)))) [
            | inl e ↦ absurd (other (value_eqb-eq _ _ e))
            | inr e ↦ rw e refl
          ]))
