-- ===== src/Books/Transactions/Hold.antt =====
-- The transaction of `AuthorizationRepository.insert_authorization`.
use pay_ledger.Prelude.{
  ℕ, String, ◌≡◌, refl, ◌∙◌, Option, none, some, List, [], ◌∷◌, sym, subst, true,
}
use pay_ledger.Prelude.Int.{pos, ◌-ℤ◌, ◌≤ℤ◌, int_laws, parts_of_eq}
use pay_ledger.Store.Item.{num, Item}
use pay_ledger.Store.Key.{Key, is_hold}
use pay_ledger.Store.Table.{Table, lookup}
use pay_ledger.Store.Transact.{plan, insert_all, verdict, pass, always, at_least}
use pay_ledger.Store.Transact.Inversion.{plan-Each, put-pass, minus-pass, at_least-holds, num_inj}
use pay_ledger.Domain.{Authorization, Response}
use pay_ledger.Runtime.{Runtime}
use pay_ledger.Utils.{RequestModel}
use pay_ledger.Idempotency.{record_write, idempotency_item_key}
use pay_ledger.Ledger.Accounts.{account_key}
use pay_ledger.Ledger.Authorizations.{hold_key}
use pay_ledger.Ledger.Authorizations.Items.{put_authorization, authorization_item, hold_items}
use pay_ledger.Books.View.{IsSound, BalancedAt, held, IsHoldRow}
use pay_ledger.Books.Held.{pending_amount-none, pending_amount-pending}
use pay_ledger.Books.Change.{Change, created}
use pay_ledger.Books.Writes.{
  IsFresh, IsAside-idempotency, Change-account, Change-idempotency, KeepsIdentity-available,
}
use pay_ledger.Books.Conserved.Transfers.{IsOther-hold, IsOther-idempotency, Conserves-available}
use pay_ledger.Books.Moves.{place-MovesHold}
use pay_ledger.Books.Advance.{Advances, advance_settle, sound_rows}

module _ (rt : Runtime) (t : Table) (a : Authorization)
    (prefix : is_hold (hold_key a.account_id a.sort_key) ≡ true)
    (positive : pos 0 ≤ℤ a.amount) where
  -- The new row is an authorization of its account.
  pub authorization-IsHoldRow :
      IsHoldRow (hold_key a.account_id a.sort_key) (authorization_item rt a)
  authorization-IsHoldRow = record {
    account_id = a.account_id;
    amount = a.amount;
    partition = refl;
    prefix = prefix;
    sort_key = refl;
    owner = refl;
    amount_kept = refl;
    amount_nonneg = positive;
  }

  Change-authorization :
      {v : Item}
      → verdict (put_authorization rt a) t ≡ pass v
      → lookup (hold_key a.account_id a.sort_key) t ≡ none
      → Change t (hold_key a.account_id a.sort_key) v
  Change-authorization p fresh =
      subst (λ (x : Item). Change t (hold_key a.account_id a.sort_key) x)
        (sym (put-pass (authorization_item rt a) always t p).1)
        (created fresh refl (λ i. authorization-IsHoldRow))

  -- A hold that is committed on a sound table, of a nonnegative amount, at a sort key of an
  -- authorization and with a fresh key: the table stays sound (every account balanced and not
  -- overdrawn, indexed rows authorizations), its rows evolve (entries and records stay, holds only
  -- leave PENDING), and its book makes a move of the abstract ledger.
  pub hold-Advances :
      IsSound t
      → (key : String) (request : Option RequestModel) (response : Response) (at : ℕ)
      → (rows : List (Key × Item))
      → plan (hold_items rt a (record_write rt key request response at)) t ≡ some rows
      → IsFresh (hold_items rt a (record_write rt key request response at)) t
      → Advances t (insert_all rows t)
  hold-Advances sound key request response at rows h fresh =
      plan-Each (hold_items rt a (record_write rt key request response at)) t
        (λ rs. Advances t (insert_all rs t)) rows h
        λ v p e pe r pr.
          let (old, m, found, read, guard, written) =
            minus-pass (account_key a.account_id) "available_balance" a.amount
              (at_least "available_balance" a.amount) t p in
          let enough = at_least-holds "available_balance" a.amount m old read guard in
          let books : BalancedAt (some old) (held a.account_id t) =
            subst (λ o. BalancedAt o (held a.account_id t)) found (sound.balanced a.account_id) in
          let same = num_inj (sym read ∙ books.2) in
          advance_settle t sound a.account_id v (m -ℤ a.amount) books.1 (rw written refl)
            (rw written books.3) (omega int_laws) [] (hold_key a.account_id a.sort_key) e
            ((idempotency_item_key key, r) ∷ [])
            (
              Change-account t a.account_id old v found
                  (rw written (KeepsIdentity-available old (num (m -ℤ a.amount)))),
              (
                Change-authorization pe fresh.0,
                (Change-idempotency t rt (sound_rows sound) key request response at pr, tt),
              ),
            )
            tt (IsAside-idempotency key, tt) refl prefix (pos 0) a.amount
            (rw fresh.0 pending_amount-none)
            (rw (put-pass (authorization_item rt a) always t pe).1
              (pending_amount-pending (authorization_item rt a) a.amount refl refl))
            (omega (int_laws, parts_of_eq same, parts_of_eq books.4))
            (place-MovesHold t a.account_id old books.1 found books.3
              (hold_key a.account_id a.sort_key) prefix a.amount positive
              (rw fresh.0 pending_amount-none)
              (omega (int_laws, parts_of_eq same, parts_of_eq books.4, enough)))
            (Conserves-available t a.account_id old (num (m -ℤ a.amount)) v
              ((hold_key a.account_id a.sort_key, e) ∷ (idempotency_item_key key, r) ∷ []) found
              written (IsOther-hold a.account_id a.sort_key prefix, (IsOther-idempotency key, tt)))
