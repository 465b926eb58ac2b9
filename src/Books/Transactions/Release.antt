-- ===== src/Books/Transactions/Release.antt =====
-- The transactions that release a hold: `void_authorization` and `update_expired_holds`.
use pay_ledger.Prelude.{
  ℕ, String, ◌≡◌, refl, ◌∙◌, none, some, List, [], ◌∷◌, sym, subst, false, ◌==◌,
}
use pay_ledger.Prelude.Int.{ℤ, pos, ◌+ℤ◌, int_laws, parts_of_eq}
use pay_ledger.Store.Item.{num, Item}
use pay_ledger.Store.Key.{Key}
use pay_ledger.Store.Table.{Table}
use pay_ledger.Store.Transact.{plan, insert_all, verdict, pass, always}
use pay_ledger.Store.Transact.Inversion.{plan-Each, plus-pass, num_inj}
use pay_ledger.Domain.{Authorization, AuthorizationStatus, voided, expired, status_value, Response}
use pay_ledger.Runtime.{Runtime}
use pay_ledger.Idempotency.{record_write, idempotency_item_key}
use pay_ledger.Ledger.Accounts.{account_key}
use pay_ledger.Ledger.Authorizations.{hold_key}
use pay_ledger.Ledger.Authorizations.Items.{release, close_hold, void_items, expire_items}
use pay_ledger.Books.View.{IsSound, BalancedAt, held, IsPlaced}
use pay_ledger.Books.Rows.{AllChange}
use pay_ledger.Books.Writes.{
  IsAside-idempotency, Change-account, Change-idempotency, KeepsIdentity-available,
}
use pay_ledger.Books.Conserved.Transfers.{
  AllOther, IsOther-hold, IsOther-idempotency, Conserves-available,
}
use pay_ledger.Books.Moves.{release-MovesHold}
use pay_ledger.Books.Advance.{Advances, AllAside, advance_settle, sound_rows}
use pay_ledger.Books.Transactions.Close.{close_lem}

module _ (t : Table) (sound : IsSound t) (b sort_key : String) (amount : ℤ)
    (placed : IsPlaced b sort_key amount t) where
  -- A release gives the amount of the hold back to the available balance.
  release-Advances :
      (status : AuthorizationStatus) (now : String)
      → (status_value status == "PENDING") ≡ false
      → {v c : Item} → verdict (release b amount) t ≡ pass v
      → verdict (close_hold b sort_key status now) t ≡ pass c
      → (rest : List (Key × Item)) → AllChange t rest
      → AllAside rest
      → AllOther rest
      → Advances t (insert_all ((account_key b, v) ∷ (hold_key b sort_key, c) ∷ rest) t)
  release-Advances status now terminal {v} {c} p pc rest changes aside others =
      let (old, m, found, read, guard, written) =
        plus-pass (account_key b) "available_balance" amount always t p in
      let closed = close_lem t b sort_key amount placed status now terminal pc in
      let books : BalancedAt (some old) (held b t) =
        subst (λ o. BalancedAt o (held b t)) found (sound.balanced b) in
      let same = num_inj (sym read ∙ books.2) in
      let nonneg = placed.amount_nonneg in
      advance_settle t sound b v (m +ℤ amount) books.1 (rw written refl) (rw written books.3)
        (omega (int_laws, parts_of_eq same, books.5, nonneg)) [] (hold_key b sort_key) c rest
        (
          Change-account t b old v found
              (rw written (KeepsIdentity-available old (num (m +ℤ amount)))),
          (closed.change, changes),
        )
        tt aside refl placed.prefix amount (pos 0) closed.before closed.after
        (omega (int_laws, parts_of_eq same, parts_of_eq books.4))
        (release-MovesHold t b old books.1 found books.3 (hold_key b sort_key) placed.prefix amount
          placed.amount_nonneg closed.before)
        (Conserves-available t b old (num (m +ℤ amount)) v ((hold_key b sort_key, c) ∷ rest) found
          written (IsOther-hold b sort_key placed.prefix, others))

  -- An expiry that is committed on a sound table, of an authorization that is placed with this
  -- amount: the table stays sound (every account balanced and not overdrawn, indexed rows
  -- authorizations), its rows evolve (entries and records stay, holds only leave PENDING), and its
  -- book makes a move of the abstract ledger.
  pub expire-Advances :
      (now : String) (rows : List (Key × Item))
      → plan (expire_items b amount sort_key now) t ≡ some rows
      → Advances t (insert_all rows t)
  expire-Advances now rows h =
      plan-Each (expire_items b amount sort_key now) t (λ rs. Advances t (insert_all rs t)) rows h
        λ v p c pc. release-Advances expired now refl p pc [] tt tt tt

-- A void that is committed on a sound table, of an authorization that is placed with this amount:
-- the table stays sound (every account balanced and not overdrawn, indexed rows authorizations),
-- its rows evolve (entries and records stay, holds only leave PENDING), and its book makes a move
-- of the abstract ledger.
pub void-Advances :
    (rt : Runtime) (t : Table) (sound : IsSound t) (a : Authorization) (b : String)
    (placed : IsPlaced b a.sort_key a.amount t) (now key : String) (response : Response) (at : ℕ)
    (rows : List (Key × Item))
    → plan (void_items a b now (record_write rt key none response at)) t ≡ some rows
    → Advances t (insert_all rows t)
void-Advances rt t sound a b placed now key response at rows h =
    plan-Each (void_items a b now (record_write rt key none response at)) t
      (λ rs. Advances t (insert_all rs t)) rows h
      λ v p c pc r pr.
        release-Advances t sound b a.sort_key a.amount placed voided now refl p pc
          ((idempotency_item_key key, r) ∷ [])
          (Change-idempotency t rt (sound_rows sound) key none response at pr, tt)
          (IsAside-idempotency key, tt) (IsOther-idempotency key, tt)
