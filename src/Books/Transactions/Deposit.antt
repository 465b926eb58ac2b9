-- ===== src/Books/Transactions/Deposit.antt =====
-- The transaction of `AccountRepository.deposit`.
use pay_ledger.Prelude.{
  ℕ, String, ◌≡◌, refl, ◌∙◌, ap, Option, some, List, [], ◌∷◌, sym, subst, some_inj,
}
use pay_ledger.Prelude.Int.{ℤ, pos, ◌+ℤ◌, ◌≤ℤ◌, int_laws, parts_of_eq}
use pay_ledger.Store.Item.{num, Item, assign}
use pay_ledger.Store.Key.{Key, account_pk, funding_pk}
use pay_ledger.Store.Table.{Table, lookup}
use pay_ledger.Store.Transact.{plan, insert_all, verdict, pass, or_new, both, equals}
use pay_ledger.Store.Transact.Inversion.{
  plan-Each, constants-pass, equals-holds, both-holds, num_inj,
}
use pay_ledger.Domain.{Account, Response}
use pay_ledger.Runtime.{Runtime}
use pay_ledger.Utils.{RequestModel}
use pay_ledger.Idempotency.{record_write, idempotency_item_key}
use pay_ledger.Ledger.Accounts.{account_key, balance_swap, deposit_items}
use pay_ledger.Books.View.{IsSound, BalancedAt, held}
use pay_ledger.Books.Change.{KeepsIdentity}
use pay_ledger.Books.Writes.{
  IsFresh, entry_not_meta, entry_key, IsAside-entry, IsAside-idempotency, Change-account,
  Change-put, Change-idempotency,
}
use pay_ledger.Books.Conserved.Transfers.{IsOther-idempotency}
use pay_ledger.Books.Conserved.Entries.{Conserves-deposited, Says-put}
use pay_ledger.Books.Moves.{deposit-MovesAccount}
use pay_ledger.Books.Advance.{Advances, advance_credit, sound_rows}

module _ (t : Table) (sound : IsSound t) (b : String) (account : Account) (amount : ℤ) where
  -- The row of the account, as the swap found it and as it leaves it.
  swap-pass :
      {v : Item}
      → verdict (balance_swap b account amount) t ≡ pass v
      → (old : Item) × (lookup (account_key b) t ≡ some old)
        × (old "available_balance" ≡ some (num account.available_balance))
        × (old "current_balance" ≡ some (num account.current_balance))
        × (v
            ≡ assign "current_balance"
                (num (account.current_balance +ℤ amount))
                (assign "available_balance" (num (account.available_balance +ℤ amount)) old))
  swap-pass p =
      let available = equals "available_balance" (num account.available_balance) in
      let current = equals "current_balance" (num account.current_balance) in
      let (h, e) =
        constants-pass (account_key b) (both available current) "available_balance"
          (num (account.available_balance +ℤ amount)) "current_balance"
          (num (account.current_balance +ℤ amount)) t p in
      let (h1, h2) = both-holds available current (lookup (account_key b) t) h in
      let (old, at, e1) =
        equals-holds "available_balance" (num account.available_balance) (lookup (account_key b) t)
          h1 in
      let (old', at', e2) =
        equals-holds "current_balance" (num account.current_balance) (lookup (account_key b) t)
          h2 in
      (
        old,
        at,
        e1,
        rw (some_inj (sym at ∙ at')) e2,
        e
            ∙ ap
                (λ o. assign "current_balance" (num (account.current_balance +ℤ amount)) (
                  assign "available_balance" (num (account.available_balance +ℤ amount))
                    (or_new (account_key b) o)))
                at,
      )

  swap_keeps :
      (old : Item) (v : Item)
      → v
        ≡ assign "current_balance"
            (num (account.current_balance +ℤ amount))
            (assign "available_balance" (num (account.available_balance +ℤ amount)) old)
      → KeepsIdentity old v
  swap_keeps old v e = record {
    pk = rw e refl;
    sk = rw e refl;
    gsi1_sk = rw e refl;
    expires_at = rw e refl;
    account_id = rw e refl;
    amount = rw e refl;
  }

  -- The balances that the swap compared are those of sound books.
  swap_adds_up :
      (old : Item)
      → lookup (account_key b) t ≡ some old
      → old "available_balance" ≡ some (num account.available_balance)
      → old "current_balance" ≡ some (num account.current_balance)
      → (account.available_balance +ℤ held b t ≡ account.current_balance)
        × (pos 0 ≤ℤ account.available_balance)
  swap_adds_up old e e1 e2 =
      let books : BalancedAt (some old) (held b t) =
        subst (λ o. BalancedAt o (held b t)) e (sound.balanced b) in
      rw (num_inj (sym e1 ∙ books.2), num_inj (sym e2 ∙ books.3)) (books.4, books.5)

module _ (rt : Runtime) (t : Table) (sound : IsSound t) (b : String) (account : Account)
    (amount : ℤ) (positive : pos 0 ≤ℤ amount) (now id key : String) (request : Option RequestModel)
    (response : Response) (at : ℕ) where
  -- A deposit that is committed on a sound table, of a nonnegative amount and with fresh entries:
  -- the table stays sound (every account balanced and not overdrawn, indexed rows authorizations),
  -- its rows evolve (entries and records stay, holds only leave PENDING), and its book makes a move
  -- of the abstract ledger.
  pub deposit-Advances :
      (rows : List (Key × Item))
      → plan (deposit_items b account amount now id (record_write rt key request response at)) t
        ≡ some rows
      → IsFresh (deposit_items b account amount now id (record_write rt key request response at)) t
      → Advances t (insert_all rows t)
  deposit-Advances rows h fresh =
      plan-Each (deposit_items b account amount now id (record_write rt key request response at)) t
        (λ rs. Advances t (insert_all rs t)) rows h
        λ v p e0 p0 e1 p1 r pr.
          let (old, found, a1, c1, written) = swap-pass t sound b account amount p in
          let (sum, covered) = swap_adds_up t sound b account amount old found a1 c1 in
          advance_credit t sound b v (account.available_balance +ℤ amount)
            (account.current_balance +ℤ amount) (rw written refl) (rw written refl) (omega int_laws)
            ((entry_key (account_pk b) now id "0", e0)
              ∷ (entry_key funding_pk now id "1", e1)
              ∷ (idempotency_item_key key, r)
              ∷ [])
            (
              Change-account t b old v found (swap_keeps t sound b account amount old v written),
              (
                Change-put t _ p0 fresh.0 refl (entry_not_meta "0") refl,
                (
                  Change-put t _ p1 fresh.1.0 refl (entry_not_meta "1") refl,
                  (Change-idempotency t rt (sound_rows sound) key request response at pr, tt),
                ),
              ),
            )
            (
              IsAside-entry (account_pk b) now id "0",
              (IsAside-entry funding_pk now id "1", (IsAside-idempotency key, tt)),
            )
            (omega (int_laws, parts_of_eq sum))
            (deposit-MovesAccount t b old account.current_balance found c1 amount positive)
            (Conserves-deposited t b now id old v e0 e1 account.current_balance amount
              (num (account.available_balance +ℤ amount)) ((idempotency_item_key key, r) ∷ []) found
              c1 written fresh.0 fresh.1.0 (Says-put t _ "DEBIT" amount p0 refl refl)
              (Says-put t _ "CREDIT" amount p1 refl refl) (IsOther-idempotency key, tt))
