-- ===== src/Api/Rejections.antt =====
-- What a caller is told of an authorization that is no longer pending.
use pay_ledger.Prelude.{
  ℕ, String, ◌≡◌, refl, ap, ◌∙◌, Option, none, some, List, [], ◌∷◌, true, false, ◌==◌, eq_refl,
}
use pay_ledger.Prelude.Int.{pos}
use pay_ledger.Store.Item.{Item, str}
use pay_ledger.Store.Key.{Key, authorization_gsi1_pk, meta, concat}
use pay_ledger.Store.Table.{Table}
use pay_ledger.Store.Transact.{WriteItem, Code, Outcome, cancelled}
use pay_ledger.Errors.{status_code, code}
use pay_ledger.Domain.{
  Authorization, AuthorizationStatus, captured, voided, expired, reversed, status_value,
  status_of-status_value, Response,
}
use pay_ledger.Utils.{error_body}
use pay_ledger.Program.{
  get_item, query_gsi1, transact_write_items, utc_now, epoch_seconds, uuid4_hex, Reply, reply, Prog,
  pure, raise, ◌>>=◌, ◌>>◌, catch, received, or_cancel, authorization_not_pending,
}
use pay_ledger.Program.Service
use pay_ledger.Program.Service.{DynamoDb, Documented, TransactServed, returned, raised, run}
use pay_ledger.Program.Runs.{run-caught, run-handled}
use pay_ledger.Runtime.{Runtime}
use pay_ledger.Idempotency.{
  idempotency_item_key, record_write, resolve_conflict, transact_item, check_failed_at,
}
use pay_ledger.Ledger.Authorizations.{
  hold_key, first_authorization, read_status, read_status_item, rejected, terminal_canceled,
  capture_authorization, void_authorization,
}
use pay_ledger.Ledger.Authorizations.Items.{capture_items, void_items}
use pay_ledger.Api.Common.{Event, resolve, handle_api_error}
use pay_ledger.Api.Authorization.{
  terminal_status_errors, terminal_status_error, not_pending, owned, capture, void,
  build_authorization_response,
}
use pay_ledger.Api.Entry.{after_key, after_query, after_query-kept, entry-run}

-- A status that is final, the code that docs/design/04-api.md gives it, and its name in a message.
pub data IsFinal : AuthorizationStatus → String → String → Type 0 where
  is_captured : IsFinal captured "AlreadyCaptured" "captured"
  is_voided : IsFinal voided "AlreadyVoided" "voided"
  is_expired : IsFinal expired "AuthorizationExpired" "expired"
  is_reversed : IsFinal reversed "AuthorizationReversed" "reversed"

-- The answer for an authorization that is no longer pending.
abbrev pub conflict_response : (id c word : String) → Response
conflict_response id c word = record {
  status_code = pos 409;
  body =
      ("error", str c)
      ∷ ("message", str (concat ("authorization " ∷ id ∷ " is " ∷ word ∷ [])))
      ∷ [];
}

-- The transaction is cancelled where its condition at `guard` fails and the one at `record` does
-- not, and a read of the authorization then shows a status.
pub record IsLate (d : DynamoDb) (s : d.State) (ws : List WriteItem) (record_index guard : ℕ)
    (k : Key) (status : AuthorizationStatus) : Type 0 where
  pub codes : List Code
  pub cancels : (d.answer (transact_write_items ws) s).0 ≡ reply (cancelled codes)
  pub key_passes : check_failed_at record_index codes ≡ false
  pub guard_fails : check_failed_at guard codes ≡ true
  pub item : Item
  pub shows :
      (d.answer (get_item k true) (d.answer (transact_write_items ws) s).1).0 ≡ reply (some item)
  pub status_shown : item "status" ≡ some (str (status_value status))

rejected-final :
    (rt : Runtime) (codes : List Code) (status : AuthorizationStatus) (c word : String)
    → IsFinal status c word
    → rejected rt codes (some status) ≡ raise (authorization_not_pending status)
rejected-final rt codes _ _ _ is_captured = refl
rejected-final rt codes _ _ _ is_voided = refl
rejected-final rt codes _ _ _ is_expired = refl
rejected-final rt codes _ _ _ is_reversed = refl

not_pending-final :
    (rt : Runtime) (id : String) (status : AuthorizationStatus) (c word : String)
    → IsFinal status c word
    → resolve (not_pending rt id (authorization_not_pending status))
      ≡ pure (conflict_response id c word)
unfolding resolve not_pending terminal_status_error terminal_status_errors handle_api_error
    error_body status_code code
not_pending-final rt id _ _ _ is_captured = refl
not_pending-final rt id _ _ _ is_voided = refl
not_pending-final rt id _ _ _ is_expired = refl
not_pending-final rt id _ _ _ is_reversed = refl

module _ (rt : Runtime) (d : DynamoDb) where
  shown :
      (codes : List Code) (x : Reply (Option Item)) (s : d.State) (item : Item)
      (status : AuthorizationStatus) (c word : String)
      → x ≡ reply (some item)
      → item "status" ≡ some (str (status_value status))
      → IsFinal status c word
      → run d ((received x >>= read_status_item) >>= rejected rt codes) s
        ≡ (raised (authorization_not_pending status), s)
  shown codes x s item status c word e f final =
      rw (e, f, status_of-status_value status, rejected-final rt codes status c word final) refl

  -- The `except` of a capture or a void that comes too late.
  cancelled-run :
      (x : Reply Outcome) (s : d.State) (response : Response) (a : Authorization)
      (account_id key : String) (record_index guard : ℕ) (codes : List Code) (item : Item)
      (status : AuthorizationStatus) (c word : String)
      → x ≡ reply (cancelled codes)
      → check_failed_at record_index codes ≡ false
      → check_failed_at guard codes ≡ true
      → (d.answer (get_item (hold_key account_id a.sort_key) true) s).0 ≡ reply (some item)
      → item "status" ≡ some (str (status_value status))
      → IsFinal status c word
      → run d
          (catch
            ((received x >>= or_cancel) >> pure response)
            (terminal_canceled rt a account_id key record_index guard))
          s
        ≡ (
          raised (authorization_not_pending status),
          (d.answer (get_item (hold_key account_id a.sort_key) true) s).1,
        )
  unfolding terminal_canceled resolve_conflict read_status
  cancelled-run x s response a account_id key record_index guard codes item status c word e p q r f
        final =
      rw (e, p, q) (shown codes _ _ item status c word r f final)

  -- A cancelled transaction leaves the table as it was.
  cancelled-kept :
      (ws : List WriteItem) (t u : Table) (x : Reply Outcome) (codes : List Code)
      → TransactServed ws t u x
      → x ≡ reply (cancelled codes)
      → u ≡ t
  cancelled-kept ws t u x codes (Service.TransactServed.done rows p e a) h = absurd (cc (a, h))
  cancelled-kept ws t u x codes (Service.TransactServed.refused p e a) h = e
  cancelled-kept ws t u x codes (Service.TransactServed.disturbed cs p e a) h = e
  cancelled-kept ws t u x codes (Service.TransactServed.lost_before f e a) h = e
  cancelled-kept ws t u x codes (Service.TransactServed.lost_after f rows p e a) h =
      absurd (cc (a, h))

-- An event with a key that has no record, and the caller's authorization that the query of the id
-- shows.
module _ (rt : Runtime) (d : DynamoDb) (laws : Documented d) (s : d.State) (event : Event)
    (key : String) (keyed : event.idempotency_key ≡ some key) (full : (key == "") ≡ false)
    (unused : (d.answer (get_item (idempotency_item_key key) false) s).0 ≡ reply none) (id : String)
    (items : List Item) (a : Authorization)
    (query : (d.answer (query_gsi1 (authorization_gsi1_pk id) meta) (after_key d s key)).0
      ≡ reply items)
    (reads : first_authorization rt id items ≡ pure (some a)) (own : a.account_id ≡ event.sub) where
  -- A time and the seconds, as the transaction that closes the authorization has them.
  abbrev time : d.State → ℕ
  time u = (d.answer utc_now u).0

  abbrev stamp : d.State → ℕ
  stamp u = (d.answer epoch_seconds (d.answer utc_now u).1).0

  abbrev ready : d.State → d.State
  ready u = (d.answer epoch_seconds (d.answer utc_now u).1).1

  abbrev with_id : d.State
  with_id = (d.answer uuid4_hex (after_query d s key id)).1

  abbrev captures : List WriteItem
  captures =
      capture_items a event.sub (rt.isoformat (time with_id))
        (concat ("transaction_" ∷ (d.answer uuid4_hex (after_query d s key id)).0 ∷ []))
        (record_write rt key none
          (build_authorization_response rt
            (record a { status = captured; updated_at = time with_id }) (pos 200))
          (stamp with_id))

  abbrev voids : List WriteItem
  voids =
      let u = after_query d s key id in
      void_items a event.sub (rt.isoformat (time u)) (
        record_write rt key none
          (build_authorization_response rt (record a { status = voided; updated_at = time u })
            (pos 200))
          (stamp u))

  -- The answer is the conflict, and the table is as it was.
  abbrev Conflicts : Prog Response → (c word : String) → Type 0
  Conflicts route c word =
      ((run d (resolve route) s).0 ≡ returned (conflict_response id c word))
      × (d.table (run d (resolve route) s).1 ≡ d.table s)

  owned-own : owned rt id event.sub (some a) ≡ pure a
  owned-own = rw (own, eq_refl event.sub) refl

  ready-kept : (u : d.State) → d.table (ready u) ≡ d.table u
  ready-kept u =
      laws.read_keeps epoch_seconds (d.answer utc_now u).1 tt ∙ laws.read_keeps utc_now u tt

  -- The state after the transaction and the read of the authorization.
  abbrev after_read : List WriteItem → d.State → d.State
  after_read ws u =
      (d.answer (get_item (hold_key event.sub a.sort_key) true)
        (d.answer (transact_write_items ws) u).1).1

  after_read-kept :
      (ws : List WriteItem) (u : d.State) (codes : List Code)
      → (d.answer (transact_write_items ws) u).0 ≡ reply (cancelled codes)
      → d.table (after_read ws u) ≡ d.table u
  after_read-kept ws u codes cancels =
      laws.read_keeps (get_item (hold_key event.sub a.sort_key) true) _ tt
      ∙ cancelled-kept rt d ws (d.table u) _ _ codes (laws.transact_served ws u) cancels

  conflicts :
      (route : Prog Response) (status : AuthorizationStatus) (c word : String) (end : d.State)
      → IsFinal status c word
      → run d (resolve route) s
        ≡ run d (resolve (not_pending rt id (authorization_not_pending status))) end
      → d.table end ≡ d.table s
      → Conflicts route c word
  conflicts route status c word end final h kept =
      let ends = h ∙ ap (λ m. run d m end) (not_pending-final rt id status c word final) in
      (ap (λ x. x.0) ends, ap (λ x. d.table x.1) ends ∙ kept)

  -- Where DynamoDB answers as documented and the caller captures an authorization of his own with a new
  -- key, but the transaction is cancelled at the guard of the authorization (position 4) and not at
  -- the record (position 5), and a read of the authorization then shows a final status: he is
  -- answered with 409, the code that the design document gives this status and a message that names
  -- the authorization and the status, and the table is as it was.
  pub capture-late :
      (status : AuthorizationStatus) (c word : String)
      → IsLate d (ready with_id) captures 5 4 (hold_key event.sub a.sort_key) status
      → IsFinal status c word
      → Conflicts (capture rt id event) c word
  unfolding capture capture_authorization transact_item resolve
  capture-late status c word late final =
      conflicts (capture rt id event) status c word (after_read captures (ready with_id)) final
        (run-handled d (capture rt id event) (not_pending rt id (authorization_not_pending status))
          _ s _
          (entry-run rt d laws s event key keyed full unused id items (some a) query reads _
            ∙ rw owned-own (
                run-caught d
                  (capture_authorization rt a event.sub key (build_authorization_response rt))
                  (not_pending rt id) (after_query d s key id)
                  (cancelled-run rt d _ _ _ a event.sub key 5 4 late.codes late.item status c word
                    late.cancels late.key_passes late.guard_fails late.shows late.status_shown
                    final))))
        (after_read-kept captures (ready with_id) late.codes late.cancels
          ∙ ready-kept with_id
          ∙ laws.read_keeps uuid4_hex (after_query d s key id) tt
          ∙ after_query-kept rt d laws s event key keyed full unused id)

  -- Where DynamoDB answers as documented and the caller voids an authorization of his own with a new
  -- key, but the transaction is cancelled at the guard of the authorization (position 1) and not at
  -- the record (position 2), and a read of the authorization then shows a final status: he is
  -- answered with 409, the code that the design document gives this status and a message that names
  -- the authorization and the status, and the table is as it was.
  pub void-late :
      (status : AuthorizationStatus) (c word : String)
      → IsLate d (ready (after_query d s key id)) voids 2 1 (hold_key event.sub a.sort_key) status
      → IsFinal status c word
      → Conflicts (void rt id event) c word
  unfolding void void_authorization transact_item resolve
  void-late status c word late final =
      let u = after_query d s key id in
      conflicts (void rt id event) status c word (after_read voids (ready u)) final
        (run-handled d (void rt id event) (not_pending rt id (authorization_not_pending status)) _ s
          _
          (entry-run rt d laws s event key keyed full unused id items (some a) query reads _
            ∙ rw owned-own (
                run-caught d
                  (void_authorization rt a event.sub key (build_authorization_response rt))
                  (not_pending rt id) u
                  (cancelled-run rt d _ _ _ a event.sub key 2 1 late.codes late.item status c word
                    late.cancels late.key_passes late.guard_fails late.shows late.status_shown
                    final))))
        (after_read-kept voids (ready u) late.codes late.cancels
          ∙ ready-kept u
          ∙ after_query-kept rt d laws s event key keyed full unused id)
