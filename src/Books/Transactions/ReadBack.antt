-- ===== src/Books/Transactions/ReadBack.antt =====
-- What `get_authorization` makes of a hold after the transaction that has closed it.
use pay_ledger.Prelude.{ℕ, String, ◌≡◌, sym, ◌∙◌, ap, none, some, some_inj, List, true}
use pay_ledger.Store.Item.{str, Item, assign}
use pay_ledger.Store.Key.{Key, is_hold}
use pay_ledger.Store.Table.{Table, lookup}
use pay_ledger.Store.Transact.{plan, insert_all}
use pay_ledger.Domain.{Authorization, AuthorizationStatus, captured, voided, status_value, Response}
use pay_ledger.Program.{pure}
use pay_ledger.Runtime.{Runtime}
use pay_ledger.Idempotency.{record_write}
use pay_ledger.Ledger.Authorizations.{hold_key, read_authorization}
use pay_ledger.Ledger.Authorizations.Items.{authorization_item, capture_items, void_items}
use pay_ledger.Ledger.Authorizations.ReadBack.{read_authorization-closed}
use pay_ledger.Books.Transactions.Effects.{Closes, capture_items-Moves, void_items-Moves}

-- The table has the item of a new hold, whose times and date parse back from their texts, and it is
-- closed at a time that parses back as well.
module _ (rt : Runtime) (t : Table) (a : Authorization) (b : String)
    (prefix : is_hold (hold_key b a.sort_key) ≡ true)
    (found : lookup (hold_key b a.sort_key) t ≡ some (authorization_item rt a))
    (created : rt.fromisoformat (rt.isoformat a.created_at) ≡ some a.created_at)
    (expires : rt.date_fromisoformat (rt.date_isoformat a.expires_at) ≡ some a.expires_at) (now : ℕ)
    (closed : rt.fromisoformat (rt.isoformat now) ≡ some now) (key : String) (response : Response)
    (at : ℕ) where
  -- In the table, the authorization reads as it was, but for the status and the time.
  abbrev pub ReadsAs : AuthorizationStatus → Table → Type 0
  ReadsAs status u =
      (item : Item) × (lookup (hold_key b a.sort_key) u ≡ some item)
      × (read_authorization rt a.authorization_id item
          ≡ pure (record a { status = status; updated_at = now }))

  Closes-ReadsAs :
      (status : AuthorizationStatus) (u : Table)
      → Closes (hold_key b a.sort_key) status (rt.isoformat now) t u
      → ReadsAs status u
  Closes-ReadsAs status u (old, was, pending, written) =
      let same = some_inj (sym was ∙ found) in
      (
        _,
        written,
        ap
              (λ x. read_authorization rt a.authorization_id (
                assign "updated_at" (str (rt.isoformat now))
                  (assign "status" (str (status_value status)) x)))
              same
            ∙ read_authorization-closed rt a created expires status now closed,
      )

  -- Where the table has the item of a new hold, with the sort key of an authorization, and its times
  -- and its date, and the time of the capture, parse back from their texts: after a capture of it that is committed, its row reads back
  -- as the same authorization, with the status CAPTURED and the time of the capture.
  pub capture_items-ReadsAs :
      (id : String) (rows : List (Key × Item))
      → plan (capture_items a b (rt.isoformat now) id (record_write rt key none response at)) t
        ≡ some rows
      → ReadsAs captured (insert_all rows t)
  capture_items-ReadsAs id rows h =
      Closes-ReadsAs captured (insert_all rows t)
        (capture_items-Moves rt t a b prefix (rt.isoformat now) key response at id rows h).2

  -- Where the table has the item of a new hold, with the sort key of an authorization, and its times
  -- and its date, and the time of the void, parse back from their texts: after a void of it that is committed, its row reads back as the same
  -- authorization, with the status VOIDED and the time of the void.
  pub void_items-ReadsAs :
      (rows : List (Key × Item))
      → plan (void_items a b (rt.isoformat now) (record_write rt key none response at)) t
        ≡ some rows
      → ReadsAs voided (insert_all rows t)
  void_items-ReadsAs rows h =
      Closes-ReadsAs voided (insert_all rows t)
        (void_items-Moves rt t a b prefix (rt.isoformat now) key response at rows h).1
