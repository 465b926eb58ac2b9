-- ===== src/Books/Transactions/Capture.antt =====
-- The transaction of `AuthorizationRepository.capture_authorization`.
use pay_ledger.Prelude.{ℕ, String, ◌≡◌, refl, ◌∙◌, none, some, List, [], ◌∷◌, sym, subst}
use pay_ledger.Prelude.Int.{pos, ◌+ℤ◌, ◌-ℤ◌, int_laws, parts_of_eq}
use pay_ledger.Store.Item.{num, Item}
use pay_ledger.Store.Key.{Key, account_pk, merchant_pk}
use pay_ledger.Store.Table.{Table}
use pay_ledger.Store.Transact.{WriteItem, plan, insert_all, always}
use pay_ledger.Store.Transact.Inversion.{plan-Each, plus-pass, minus-pass, num_inj}
use pay_ledger.Domain.{Authorization, captured, Response}
use pay_ledger.Runtime.{Runtime}
use pay_ledger.Idempotency.{record_write, idempotency_item_key}
use pay_ledger.Ledger.Accounts.{account_key}
use pay_ledger.Ledger.Merchants.{merchant_key}
use pay_ledger.Ledger.Authorizations.{hold_key}
use pay_ledger.Ledger.Authorizations.Items.{capture_items}
use pay_ledger.Books.View.{IsSound, BalancedAt, held, IsPlaced}
use pay_ledger.Books.Writes.{
  IsFresh, entry_key, entry_not_meta, IsAside-entry, IsAside-merchant, IsAside-idempotency,
  Change-account, Change-merchant, Change-put, Change-idempotency, KeepsIdentity-current,
  KeepsIdentity-payable,
}
use pay_ledger.Books.Conserved.Transfers.{IsOther-hold, IsOther-idempotency}
use pay_ledger.Books.Conserved.Entries.{Conserves-captured, Says-put}
use pay_ledger.Books.Moves.{capture-MovesHold}
use pay_ledger.Books.Advance.{Advances, advance_settle, sound_rows}
use pay_ledger.Books.Transactions.Close.{close_lem}

module _ (rt : Runtime) (t : Table) (sound : IsSound t) (a : Authorization) (b : String)
    (placed : IsPlaced b a.sort_key a.amount t) (now id key : String) (response : Response)
    (at : ℕ) where
  abbrev items : List WriteItem
  items = capture_items a b now id (record_write rt key none response at)

  -- A capture that is committed on a sound table, of an authorization that is placed with this
  -- amount, with fresh entries: the table stays sound (every account balanced and not overdrawn,
  -- indexed rows authorizations), its rows evolve (entries and records stay, holds only leave
  -- PENDING), and its book makes a move of the abstract ledger.
  pub capture-Advances :
      (rows : List (Key × Item))
      → plan (capture_items a b now id (record_write rt key none response at)) t ≡ some rows
      → IsFresh (capture_items a b now id (record_write rt key none response at)) t
      → Advances t (insert_all rows t)
  capture-Advances rows h fresh =
      plan-Each items t (λ rs. Advances t (insert_all rs t)) rows h
        λ v p w q e0 p0 e1 p1 c pc r pr.
          let (old, m, found, read, guard, written) =
            minus-pass (account_key b) "current_balance" a.amount always t p in
          let (mold, n, mfound, mread, mguard, mwritten) =
            plus-pass (merchant_key a.merchant_id) "payable_balance" a.amount always t q in
          let closed = close_lem t b a.sort_key a.amount placed captured now refl pc in
          let books : BalancedAt (some old) (held b t) =
            subst (λ o. BalancedAt o (held b t)) found (sound.balanced b) in
          let same = num_inj (sym read ∙ books.3) in
          advance_settle t sound b v books.0 (m -ℤ a.amount) (rw written books.2) (rw written refl)
            books.5
            ((merchant_key a.merchant_id, w)
              ∷ (entry_key (account_pk b) now id "0", e0)
              ∷ (entry_key (merchant_pk a.merchant_id) now id "1", e1)
              ∷ [])
            (hold_key b a.sort_key) c ((idempotency_item_key key, r) ∷ [])
            (
              Change-account t b old v found
                  (rw written (KeepsIdentity-current old (num (m -ℤ a.amount)))),
              (
                Change-merchant t a.merchant_id mold w mfound
                    (rw mwritten (KeepsIdentity-payable mold (num (n +ℤ a.amount)))),
                (
                  Change-put t _ p0 fresh.0 refl (entry_not_meta "0") refl,
                  (
                    Change-put t _ p1 fresh.1.0 refl (entry_not_meta "1") refl,
                    (
                      closed.change,
                      (Change-idempotency t rt (sound_rows sound) key none response at pr, tt),
                    ),
                  ),
                ),
              ),
            )
            (
              IsAside-merchant a.merchant_id,
              (
                IsAside-entry (account_pk b) now id "0",
                (IsAside-entry (merchant_pk a.merchant_id) now id "1", tt),
              ),
            )
            (IsAside-idempotency key, tt) refl placed.prefix a.amount (pos 0) closed.before
            closed.after (omega (int_laws, parts_of_eq same, parts_of_eq books.4))
            (capture-MovesHold t b old m found read (hold_key b a.sort_key) placed.prefix a.amount
              placed.amount_nonneg closed.before)
            (Conserves-captured t b a.merchant_id now id old v mold w e0 e1 m n a.amount
              ((hold_key b a.sort_key, c) ∷ (idempotency_item_key key, r) ∷ []) found mfound read
              mread written mwritten fresh.0 fresh.1.0 (Says-put t _ "DEBIT" a.amount p0 refl refl)
              (Says-put t _ "CREDIT" a.amount p1 refl refl)
              (IsOther-hold b a.sort_key placed.prefix, (IsOther-idempotency key, tt)))
