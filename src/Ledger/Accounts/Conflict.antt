-- ===== src/Ledger/Accounts/Conflict.antt =====
-- A deposit whose compare-and-swap meets other balances than it has read.
use pay_ledger.Prelude.{
  ℕ, String, ◌≡◌, refl, some_inj, Option, none, some, [], ◌∷◌, true, inl, inr, Bool-cases,
}
use pay_ledger.Prelude.Int.{ℤ}
use pay_ledger.Store.Item.{num, Item}
use pay_ledger.Store.Table.{Table, lookup}
use pay_ledger.Store.Transact.{
  plan, reasons, verdict, verdict_on, pass, condition_failed, holds, both, equals,
}
use pay_ledger.Store.Transact.Inversion.{both-holds, equals-holds}
use pay_ledger.Store.Transact.Refusal.{refused-plan}
use pay_ledger.Domain.{Account, Response}
use pay_ledger.Program.{pure, transaction_canceled}
use pay_ledger.Runtime.{Runtime}
use pay_ledger.Utils.{RequestModel}
use pay_ledger.Idempotency.{record_write, record_item, idempotency_item_key, resolve_conflict}
use pay_ledger.Ledger.Accounts.{account_key, balance_swap, deposit_items, deposit_canceled}

-- The row has the balances that were read.
abbrev pub IsCurrent : Account → Item → Type 0
IsCurrent account row =
    (row "available_balance" ≡ some (num account.available_balance))
    × (row "current_balance" ≡ some (num account.current_balance))

holds-IsCurrent :
    (account : Account) (row : Item)
    → holds
        (both
          (equals "available_balance" (num account.available_balance))
          (equals "current_balance" (num account.current_balance)))
        (some row)
      ≡ true
    → IsCurrent account row
holds-IsCurrent account row h =
    let (a, c) = both-holds _ _ (some row) h in
    let (x, ex, ax) =
      equals-holds "available_balance" (num account.available_balance) (some row) a in
    let (y, ey, cy) = equals-holds "current_balance" (num account.current_balance) (some row) c in
    (rw (some_inj ex) ax, rw (some_inj ey) cy)

swap_failed :
    (t : Table) (b : String) (account : Account) (amount : ℤ) (row : Item)
    → lookup (account_key b) t ≡ some row
    → ¬ IsCurrent account row
    → verdict (balance_swap b account amount) t ≡ condition_failed
unfolding verdict verdict_on
swap_failed t b account amount row found moved =
    elim (Bool-cases (
      holds
        (both (equals "available_balance" (num account.available_balance))
          (equals "current_balance" (num account.current_balance)))
        (some row))) [
          | inl e ↦ absurd (moved (holds-IsCurrent account row e))
          | inr e ↦ rw (found, e) refl
        ]

record_passes :
    (rt : Runtime) (key : String) (request : Option RequestModel) (response : Response) (at : ℕ)
    (t : Table)
    → lookup (idempotency_item_key key) t ≡ none
    → verdict (record_write rt key request response at) t
      ≡ pass (record_item rt key request response at)
unfolding verdict verdict_on holds
record_passes rt key request response at t absent = rw absent refl

-- Where the account's row no longer has the balances that the deposit has read, and the key has no
-- record, the transaction writes nothing, and the handling of its cancellation goes on with the next
-- round of the loop: it neither replays nor raises.
pub deposit_canceled-moved :
    (rt : Runtime) (t : Table) (b : String) (account : Account) (amount : ℤ) (row : Item)
    (now id key : String) (request : Option RequestModel) (response : Response) (at : ℕ)
    → lookup (account_key b) t ≡ some row
    → ¬ IsCurrent account row
    → lookup (idempotency_item_key key) t ≡ none
    → let ws = deposit_items b account amount now id (record_write rt key request response at) in
      (plan ws t ≡ none)
      × (deposit_canceled rt key (transaction_canceled (reasons ws t)) ≡ pure none)
unfolding reasons deposit_canceled resolve_conflict
deposit_canceled-moved rt t b account amount row now id key request response at found moved absent =
    let failed = swap_failed t b account amount row found moved in
    (
      (refused-plan [] _ (_ ∷ _ ∷ _ ∷ []) t failed).0,
      rw (failed, record_passes rt key request response at t absent) refl,
    )
