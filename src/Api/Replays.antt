-- ===== src/Api/Replays.antt =====
-- A route that is called again with a key that has a record.
use pay_ledger.Prelude.{String, ◌≡◌, refl, ap, ◌∙◌, some_inj, Option, none, some, false, ◌==◌}
use pay_ledger.Store.Item.{str}
use pay_ledger.Domain.{Response}
use pay_ledger.Program.{get_item, reply, Prog, pure, ◌>>=◌}
use pay_ledger.Program.Service.{DynamoDb, Documented, returned, run}
use pay_ledger.Program.Runs.{run-bind, run-catch}
use pay_ledger.Runtime.{Runtime, valid}
use pay_ledger.Utils.{RequestModel, get_model_hash, authorization_request, deposit_request}
use pay_ledger.Domain.{AuthorizationRequest, DepositRequest}
use pay_ledger.Idempotency.{
  record_item, hash_value, idempotency_item_key, require_key, check_replay,
}
use pay_ledger.Idempotency.Replay.{check_replay-run}
use pay_ledger.Api.Common.{Event, resolve}
use pay_ledger.Api.Authorization.{or_proceed, create_authorization, capture, void}
use pay_ledger.Api.Deposit.{create_deposit}

module _ (rt : Runtime) (d : DynamoDb) (laws : Documented d) (s : d.State) (event : Event)
    (key : String) (keyed : event.idempotency_key ≡ some key) (full : (key == "") ≡ false)
    (stored : Option RequestModel) (response : Response) (at : _)
    (read : (d.answer (get_item (idempotency_item_key key) false) s).0
      ≡ reply (some (record_item rt key stored response at)))
    (parses : rt.loads (rt.dumps response.body) ≡ some response.body) where
  require_key-full : require_key event.idempotency_key ≡ pure key
  unfolding require_key
  require_key-full = rw (keyed, full) refl

  -- What is left of a route from the idempotency key on.
  replayed :
      (request : Option RequestModel) (rest : String → Prog Response)
      → ((m : RequestModel) → request ≡ some m → hash_value rt stored ≡ str (get_model_hash rt m))
      → run d
          (require_key event.idempotency_key >>= λ k.
            check_replay rt k request >>= λ replay. or_proceed replay (rest k))
          s
        ≡ (returned response, (d.answer (get_item (idempotency_item_key key) false) s).1)
  replayed request rest same = rw require_key-full (
      run-bind d (check_replay rt key request) _ s
        (check_replay-run rt d s key stored response at read parses request same))

  -- The route is answered with the stored response, and the table is as it was.
  abbrev pub Replays : Prog Response → Type 0
  Replays route =
      ((run d (resolve route) s).0 ≡ returned response)
      × (d.table (run d (resolve route) s).1 ≡ d.table s)

  resolve-Replays :
      (route : Prog Response)
      → run d route s
        ≡ (returned response, (d.answer (get_item (idempotency_item_key key) false) s).1)
      → Replays route
  unfolding resolve
  resolve-Replays route h =
      let ends = run-catch d route _ s h in
      (
        ap (λ x. x.0) ends,
        ap (λ x. d.table x.1) ends
            ∙ laws.read_keeps (get_item (idempotency_item_key key) false) s tt,
      )

  -- A route for which the event asks what the stored request has asked: a capture or a void, whose
  -- requests are not compared, or a hold or a deposit, whose valid request has the stored hash.
  pub data Repeats : Prog Response → Type 0 where
    capturing : (id : String) → Repeats (capture rt id event)
    voiding : (id : String) → Repeats (void rt id event)
    authorizing :
        (r : AuthorizationRequest)
        → rt.validate_authorization event.body ≡ valid r
        → hash_value rt stored ≡ str (get_model_hash rt (authorization_request r))
        → Repeats (create_authorization rt event)
    depositing :
        (r : DepositRequest)
        → rt.validate_deposit event.body ≡ valid r
        → hash_value rt stored ≡ str (get_model_hash rt (deposit_request r))
        → Repeats (create_deposit rt event)

  -- Where the read of the idempotency key of the event shows the record that a request has stored, a
  -- capture or a void (which store no hash) included, and JSON gives the stored body back: a route
  -- that repeats the request is answered with the stored response, and the table is as it was.
  pub route-Replays : (route : Prog Response) → Repeats route → Replays route
  unfolding capture void create_authorization create_deposit
  route-Replays route (capturing id) =
      resolve-Replays (capture rt id event) (replayed none _ (λ m e. cc))
  route-Replays route (voiding id) =
      resolve-Replays (void rt id event) (replayed none _ (λ m e. cc))
  route-Replays route (authorizing r v same) = resolve-Replays (create_authorization rt event) (
      rw v (
        replayed (some (authorization_request r)) _
          (λ m e. same ∙ ap (λ x. str (get_model_hash rt x)) (some_inj e))))
  route-Replays route (depositing r v same) = resolve-Replays (create_deposit rt event) (
      rw v (
        replayed (some (deposit_request r)) _
          (λ m e. same ∙ ap (λ x. str (get_model_hash rt x)) (some_inj e))))
