-- ===== src/Api/Entry.antt =====
-- What a capture and a void share, up to the check of the owner.
use pay_ledger.Prelude.{String, ◌≡◌, refl, ◌∙◌, Option, none, some, List, false, ◌==◌}
use pay_ledger.Store.Item.{Item}
use pay_ledger.Store.Key.{authorization_gsi1_pk, meta}
use pay_ledger.Domain.{Authorization, Response}
use pay_ledger.Program.{get_item, query_gsi1, Reply, reply, Prog, pure, ◌>>=◌, received}
use pay_ledger.Program.Service.{DynamoDb, Documented, returned, run}
use pay_ledger.Runtime.{Runtime}
use pay_ledger.Idempotency.{
  idempotency_item_key, require_key, get_record, read_record, replay_unless_reused, check_replay,
}
use pay_ledger.Ledger.Authorizations.{first_authorization, get_authorization}
use pay_ledger.Api.Common.{Event}
use pay_ledger.Api.Authorization.{or_proceed}
use pay_ledger.Program.Runs.{run-bind}

module _ (rt : Runtime) (d : DynamoDb) where
  checked :
      (key : String) (x : Reply (Option Item)) (s : d.State)
      → x ≡ reply none
      → run d ((received x >>= read_record key) >>= replay_unless_reused rt none) s
        ≡ (returned none, s)
  checked key x s h = rw h refl

  check_replay-none :
      (key : String) (s : d.State)
      → (d.answer (get_item (idempotency_item_key key) false) s).0 ≡ reply none
      → run d (check_replay rt key none) s
        ≡ (returned none, (d.answer (get_item (idempotency_item_key key) false) s).1)
  unfolding check_replay get_record
  check_replay-none key s read = checked key _ _ read

  got :
      (id : String) (x : Reply (List Item)) (s : d.State) (items : List Item)
      (found : Option Authorization)
      → x ≡ reply items
      → first_authorization rt id items ≡ pure found
      → run d (received x >>= first_authorization rt id) s ≡ (returned found, s)
  got id x s items found h reads = rw (h, reads) refl

  get_authorization-run :
      (id : String) (s : d.State) (items : List Item) (found : Option Authorization)
      → (d.answer (query_gsi1 (authorization_gsi1_pk id) meta) s).0 ≡ reply items
      → first_authorization rt id items ≡ pure found
      → run d (get_authorization rt id) s
        ≡ (returned found, (d.answer (query_gsi1 (authorization_gsi1_pk id) meta) s).1)
  unfolding get_authorization
  get_authorization-run id s items found query reads = got id _ _ items found query reads

-- The state after the read of the key, and the one after the query of the authorization.
abbrev pub after_key : (d : DynamoDb) → d.State → String → d.State
after_key d s key = (d.answer (get_item (idempotency_item_key key) false) s).1

abbrev pub after_query : (d : DynamoDb) → d.State → String → String → d.State
after_query d s key id =
    (d.answer (query_gsi1 (authorization_gsi1_pk id) meta) (after_key d s key)).1

-- An event with a key that has no record, and the authorization that the service finds at an id.
module _ (rt : Runtime) (d : DynamoDb) (laws : Documented d) (s : d.State) (event : Event)
    (key : String) (keyed : event.idempotency_key ≡ some key) (full : (key == "") ≡ false)
    (unused : (d.answer (get_item (idempotency_item_key key) false) s).0 ≡ reply none) where
  pub after_query-kept : (id : String) → d.table (after_query d s key id) ≡ d.table s
  after_query-kept id =
      laws.read_keeps (query_gsi1 (authorization_gsi1_pk id) meta) (after_key d s key) tt
      ∙ laws.read_keeps (get_item (idempotency_item_key key) false) s tt

  require_key-full : require_key event.idempotency_key ≡ pure key
  unfolding require_key
  require_key-full = rw (keyed, full) refl

  -- The route goes on with what the query shows.
  pub entry-run :
      (id : String) (items : List Item) (found : Option Authorization)
      → (d.answer (query_gsi1 (authorization_gsi1_pk id) meta) (after_key d s key)).0 ≡ reply items
      → first_authorization rt id items ≡ pure found
      → (act : String → Option Authorization → Prog Response)
      → run d
          (require_key event.idempotency_key >>= λ k. check_replay rt k none >>= λ replay.
            or_proceed replay (get_authorization rt id >>= act k))
          s
        ≡ run d (act key found) (after_query d s key id)
  entry-run id items found query reads act = rw require_key-full (
      run-bind d (check_replay rt key none) _ s (check_replay-none rt d key s unused)
      ∙ run-bind d (get_authorization rt id) _ (after_key d s key)
          (get_authorization-run rt d id (after_key d s key) items found query reads))
