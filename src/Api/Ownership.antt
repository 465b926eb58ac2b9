-- ===== src/Api/Ownership.antt =====
-- A capture or a void of an authorization that is not the caller's.
use pay_ledger.Prelude.{
  String, ◌≡◌, ◌≢◌, refl, ap, ◌∙◌, Option, none, some, List, [], ◌∷◌, false, ◌==◌, eq_iff,
  Bool-cases, inl, inr,
}
use pay_ledger.Prelude.Int.{pos}
use pay_ledger.Store.Item.{Item, str}
use pay_ledger.Store.Key.{authorization_gsi1_pk, meta, concat}
use pay_ledger.Errors.{ApiError, authorization_not_found, status_code, code}
use pay_ledger.Domain.{Authorization, Response}
use pay_ledger.Program.{get_item, query_gsi1, reply, Prog, pure, raise, api_error}
use pay_ledger.Program.Service.{DynamoDb, Documented, returned, raised, run}
use pay_ledger.Runtime.{Runtime}
use pay_ledger.Utils.{error_body}
use pay_ledger.Idempotency.{idempotency_item_key}
use pay_ledger.Ledger.Authorizations.{first_authorization}
use pay_ledger.Api.Common.{Event, resolve, handle_api_error}
use pay_ledger.Api.Authorization.{owned, capture, void}
use pay_ledger.Program.Runs.{run-caught}
use pay_ledger.Api.Entry.{after_key, after_query, after_query-kept, entry-run}

-- No authorization, or one of another account.
pub data IsForeign (sub : String) : Option Authorization → Type 0 where
  missing : IsForeign sub none
  of_another : (a : Authorization) → a.account_id ≢ sub → IsForeign sub (some a)

-- The answer for an authorization that is not found.
unfoldable pub not_found_response : String → Response
not_found_response id = record {
  status_code = pos 404;
  body =
      ("error", str "AuthorizationNotFound")
      ∷ ("message", str (concat ("authorization " ∷ id ∷ " not found" ∷ [])))
      ∷ [];
}

abbrev not_found_error : String → ApiError
not_found_error id = record {
  error_class = authorization_not_found;
  message = concat ("authorization " ∷ id ∷ " not found" ∷ []);
}

owned-foreign :
    (rt : Runtime) (id sub : String) (found : Option Authorization)
    → IsForeign sub found
    → owned rt id sub found ≡ raise (api_error (not_found_error id))
owned-foreign rt id sub none missing = refl
owned-foreign rt id sub (some a) (of_another _ other) = elim (Bool-cases (a.account_id == sub)) [
  | inl same ↦ absurd (other ((eq_iff a.account_id sub).0 same))
  | inr differs ↦ rw differs refl
]

-- An event with a key that has no record, and the authorization that the service finds at an id.
module _ (rt : Runtime) (d : DynamoDb) (laws : Documented d) (s : d.State) (event : Event)
    (key : String) (keyed : event.idempotency_key ≡ some key) (full : (key == "") ≡ false)
    (unused : (d.answer (get_item (idempotency_item_key key) false) s).0 ≡ reply none) where
  -- The answer is the one for an authorization that is not found, and the table is as it was.
  abbrev pub Refuses : String → Prog Response → Type 0
  Refuses id route =
      ((run d (resolve route) s).0 ≡ returned (not_found_response id))
      × (d.table (run d (resolve route) s).1 ≡ d.table s)

  refuses :
      (id : String) (route : Prog Response)
      → run d route s ≡ (raised (api_error (not_found_error id)), after_query d s key id)
      → Refuses id route
  unfolding resolve handle_api_error error_body status_code code not_found_response
  refuses id route h =
      let ends = run-caught d route _ s h in
      (
        ap (λ x. x.0) ends,
        ap (λ x. d.table x.1) ends ∙ after_query-kept rt d laws s event key keyed full unused id,
      )

  -- Where the key of the event has no record and the query of the id shows no authorization, or one
  -- of another account than the caller's, a capture and a void of it are answered alike, with 404
  -- and a message that names the id alone, and the table is as it was.
  pub foreign-Refuses :
      (id : String) (items : List Item) (found : Option Authorization)
      → (d.answer (query_gsi1 (authorization_gsi1_pk id) meta) (after_key d s key)).0 ≡ reply items
      → first_authorization rt id items ≡ pure found
      → IsForeign event.sub found
      → Refuses id (capture rt id event) × Refuses id (void rt id event)
  unfolding capture void
  foreign-Refuses id items found query reads foreign = (
    refuses id (capture rt id event) (
        entry-run rt d laws s event key keyed full unused id items found query reads _
        ∙ rw (owned-foreign rt id event.sub found foreign) refl),
    refuses id (void rt id event) (
        entry-run rt d laws s event key keyed full unused id items found query reads _
        ∙ rw (owned-foreign rt id event.sub found foreign) refl),
  )
