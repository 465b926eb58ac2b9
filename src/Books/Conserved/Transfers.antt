-- ===== src/Books/Conserved/Transfers.antt =====
-- The rows of the program's transactions conserve the money and the double entry.
use pay_ledger.Prelude.{ℕ, String, ◌≡◌, refl, true, false, none, some, List, [], ◌∷◌}
use pay_ledger.Store.Item.{Value, Item, assign}
use pay_ledger.Store.Key.{Key, is_hold, has_prefix-txn_meta, has_prefix-txn_auth}
use pay_ledger.Store.Table.{Table, lookup}
use pay_ledger.Store.Transact.{insert_all}
use pay_ledger.Domain.{Merchant}
use pay_ledger.Runtime.{Runtime}
use pay_ledger.Ledger.Accounts.{account_key, account_item}
use pay_ledger.Ledger.Merchants.{merchant_key, merchant_item}
use pay_ledger.Ledger.Authorizations.{hold_key}
use pay_ledger.Idempotency.{idempotency_item_key}
use pay_ledger.Books.Money.{
  IsUncounted, AllUncounted, number, worth-kept, has_balance, balances, has_balance-account,
  has_balance-merchant,
}
use pay_ledger.Books.Money.Transfers.{IsUncounted-hold, IsUncounted-idempotency, balances-available}
use pay_ledger.Books.Postings.{is_entry, NoEntries, postings-insert_all}
use pay_ledger.Books.Conserved.{Conserves}

-- A row that is neither counted nor an entry.
pub record IsOther (k : Key) : Type 0 where
  pub uncounted : IsUncounted k
  pub no_entry : is_entry k ≡ false

abbrev pub AllOther : List (Key × Item) → Type 0
AllOther [] = Unit
AllOther ((k, v) ∷ rows) = IsOther k × AllOther rows

pub AllOther-AllUncounted : (rows : List (Key × Item)) → AllOther rows → AllUncounted rows
AllOther-AllUncounted [] o = tt
AllOther-AllUncounted ((k, v) ∷ rows) o = (o.0.uncounted, AllOther-AllUncounted rows o.1)

pub AllOther-NoEntries : (rows : List (Key × Item)) → AllOther rows → NoEntries rows
AllOther-NoEntries [] o = tt
AllOther-NoEntries ((k, v) ∷ rows) o = (o.0.no_entry, AllOther-NoEntries rows o.1)

pub IsOther-hold :
    (b sort_key : String) → is_hold (hold_key b sort_key) ≡ true → IsOther (hold_key b sort_key)
IsOther-hold b sort_key h = record {
  uncounted = IsUncounted-hold b sort_key h;
  no_entry = has_prefix-txn_auth sort_key h;
}

pub IsOther-idempotency : (key : String) → IsOther (idempotency_item_key key)
IsOther-idempotency key = record {
  uncounted = IsUncounted-idempotency key;
  no_entry = has_prefix-txn_meta;
}

-- A row of a balance that stays as it is, with rows that do not matter.
Conserves-kept :
    (t : Table) (k : Key) (v : Item) (rows : List (Key × Item))
    → has_balance k ≡ true
    → is_entry k ≡ false
    → balances (some v) ≡ balances (lookup k t)
    → AllOther rows
    → Conserves t (insert_all ((k, v) ∷ rows) t)
Conserves-kept t k v rows h e same other = record {
  money_kept = worth-kept k v rows t h same (AllOther-AllUncounted rows other);
  postings_kept = postings-insert_all ((k, v) ∷ rows) t (e, AllOther-NoEntries rows other);
}

-- The transactions that write an available balance.
pub Conserves-available :
    (t : Table) (b : String) (old : Item) (x : Value) (v : Item) (rows : List (Key × Item))
    → lookup (account_key b) t ≡ some old
    → v ≡ assign "available_balance" x old
    → AllOther rows
    → Conserves t (insert_all ((account_key b, v) ∷ rows) t)
Conserves-available t b old x v rows found written other =
    Conserves-kept t (account_key b) v rows (has_balance-account b) has_prefix-txn_meta
      (rw (written, found) (balances-available old x)) other

pub Conserves-opened :
    (t : Table) (b : String)
    → lookup (account_key b) t ≡ none
    → Conserves t (insert_all ((account_key b, account_item b) ∷ []) t)
unfolding number
Conserves-opened t b none_there =
    Conserves-kept t (account_key b) (account_item b) [] (has_balance-account b) has_prefix-txn_meta
      (rw none_there refl) tt

pub Conserves-merchant :
    (rt : Runtime) (t : Table) (m : Merchant) (now : ℕ)
    → lookup (merchant_key m.merchant_id) t ≡ none
    → Conserves t (insert_all ((merchant_key m.merchant_id, merchant_item rt m now) ∷ []) t)
unfolding number
Conserves-merchant rt t m now none_there =
    Conserves-kept t (merchant_key m.merchant_id) (merchant_item rt m now) []
      (has_balance-merchant m.merchant_id) has_prefix-txn_meta (rw none_there refl) tt
