-- ===== src/Books/View.antt =====
-- What the table says of the accounts: the balances of each, and the holds placed against it.
use pay_ledger.Prelude.{
  String, ◌≡◌, ◌≢◌, ◌⊎◌, true, false, ◌&&◌, ◌==◌, Option, none, some, if◌then◌else◌,
}
use pay_ledger.Prelude.Int.{ℤ, pos, ◌+ℤ◌, ◌≤ℤ◌}
use pay_ledger.Store.Item.{str, num, Item, as_number}
use pay_ledger.Store.Key.{
  Key, account_pk, meta, ledger_pk_name, ledger_sort_key_name, ledger_gsi1_sort_key_name,
  ledger_expired_hold_pk_name, is_hold, is_record,
}
use pay_ledger.Store.Table.{Table, lookup, total}
use pay_ledger.Ledger.Accounts.{account_key}
use pay_ledger.Ledger.Authorizations.{hold_key}

-- The amount of a hold that is still pending.
unfoldable pub pending_amount : Option Item → ℤ
pending_amount none = pos 0
pending_amount (some item) = elim (item "status") [
  | some (str s) ↦
      if s == "PENDING"
      then elim (as_number (item "amount")) [ some n ↦ n | none ↦ pos 0 ]
      else pos 0
  | _ ↦ pos 0
]

-- What a row holds back from the account `a`.
unfoldable pub hold_weight : String → Key → Option Item → ℤ
hold_weight a k o = if k.pk == account_pk a && is_hold k then pending_amount o else pos 0

-- The sum of the active holds of an account.
unfoldable pub held : String → Table → ℤ
held a t = total (hold_weight a) t

-- available_balance = current_balance - sum(active_holds), and no account is overdrawn.
abbrev pub BalancedAt : Option Item → ℤ → Type 0
BalancedAt none h = h ≡ pos 0
BalancedAt (some item) h =
    (available current : ℤ) × (item "available_balance" ≡ some (num available))
    × (item "current_balance" ≡ some (num current))
    × (available +ℤ h ≡ current)
    × (pos 0 ≤ℤ available)

-- An authorization in its account's partition.
pub record IsHoldRow (k : Key) (item : Item) : Type 0 where
  pub account_id : String
  pub amount : ℤ
  pub partition : k.pk ≡ account_pk account_id
  pub prefix : is_hold k ≡ true
  pub sort_key : item ledger_sort_key_name ≡ some (str k.sk)
  pub owner : item "account_id" ≡ some (str account_id)
  pub amount_kept : item "amount" ≡ some (num amount)
  pub amount_nonneg : pos 0 ≤ℤ amount

-- The item is in GSI1 as an authorization would be, or in the index of expiry dates.
abbrev pub IsIndexed : Item → Type 0
IsIndexed item =
    (item ledger_gsi1_sort_key_name ≡ some (str meta)) ⊎ (item ledger_expired_hold_pk_name ≢ none)

pub record IsSound (t : Table) : Type 0 where
  pub balanced : (a : String) → BalancedAt (lookup (account_key a) t) (held a t)
  pub indexed : (k : Key) (item : Item) → lookup k t ≡ some item → IsIndexed item → IsHoldRow k item
  pub keyed :
      (k : Key) (item : Item) → lookup k t ≡ some item → item ledger_pk_name ≡ some (str k.pk)

-- What may happen to an authorization: its status leaves PENDING, and `updated_at` changes.
pub record KeepsHold (old new : Item) : Type 0 where
  pub kept :
      (name : String)
      → ("status" == name) ≡ false
      → ("updated_at" == name) ≡ false
      → new name ≡ old name
  pub closed : (old "status" ≡ some (str "PENDING")) ⊎ (new "status" ≡ old "status")

-- What may happen to the rows of a table: authorizations stay and change as above, and entries and
-- idempotency records stay as they are.
pub record Evolves (t u : Table) : Type 0 where
  pub holds :
      (k : Key) (old : Item)
      → is_hold k ≡ true
      → lookup k t ≡ some old
      → (new : Item) × (lookup k u ≡ some new) × KeepsHold old new
  pub records :
      (k : Key) (item : Item) → is_record k ≡ true → lookup k t ≡ some item → lookup k u ≡ some item

-- The table has this authorization, with this amount, whatever its status.
pub record IsPlaced (account_id sort_key : String) (amount : ℤ) (t : Table) : Type 0 where
  pub row : Item
  pub found : lookup (hold_key account_id sort_key) t ≡ some row
  pub prefix : is_hold (hold_key account_id sort_key) ≡ true
  pub amount_kept : row "amount" ≡ some (num amount)
  pub amount_nonneg : pos 0 ≤ℤ amount
