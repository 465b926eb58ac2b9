-- ===== src/Books/Money.antt =====
-- The money in the table: what accounts have and merchants are owed, less what came in from outside.
pub mod Transfers
use pay_ledger.Prelude.{
  String, ◌≡◌, refl, sym, ap, ◌∙◌, true, false, Bool, ◌&&◌, not, ◌==◌, Option, none, some, List, [],
  ◌∷◌, arith, if◌then◌else◌, eq_iff,
}
use pay_ledger.Prelude.Int.{ℤ, pos, ◌+ℤ◌, ◌-ℤ◌, int_laws, parts_of_eq}
use pay_ledger.Store.Item.{num, Item, as_number, assign}
use pay_ledger.Store.Key.{
  Key, meta, funding_pk, is_hold, account_pk, merchant_pk, has_prefix, has_prefix-idem_account_pk,
  has_prefix-idem_merchant_pk, initial, initial-account_pk, initial-merchant_pk, initial-funding_pk,
}
use pay_ledger.Store.Table.{Table, lookup, insert, total, total-insert}
use pay_ledger.Store.Transact.{insert_all}
use pay_ledger.Ledger.Accounts.{account_key}
use pay_ledger.Ledger.Merchants.{merchant_key}

-- A number of an item; a missing one is nothing.
unfoldable pub number : String → Option Item → ℤ
number name none = pos 0
number name (some item) = elim (as_number (item name)) [ some n ↦ n | none ↦ pos 0 ]

pub number-read :
    (name : String) (item : Item) {n : ℤ} → item name ≡ some (num n) → number name (some item) ≡ n
unfolding number
number-read name item e = rw (number, e) refl

-- The row of an account or of a merchant.
abbrev pub has_balance : Key → Bool
has_balance k = k.sk == meta && not (has_prefix "IDEM#" k.pk)

-- An entry of the external funding.
abbrev pub is_funding : Key → Bool
is_funding k = k.pk == funding_pk

abbrev pub balances : Option Item → ℤ
balances o = number "current_balance" o +ℤ number "payable_balance" o

unfoldable pub money : Key → Option Item → ℤ
money k o =
    if has_balance k then balances o else if is_funding k then pos 0 -ℤ number "amount" o else pos 0

-- The sum of the accounts' current balances and the merchants' payable balances, less the sum of
-- the entries of the external funding.
unfoldable pub worth : Table → ℤ
worth t = total money t

money-none : (k : Key) → money k none ≡ pos 0
unfolding money number ◌+ℤ◌ ◌-ℤ◌
money-none k = ground arith

-- A row that is not counted.
pub record IsUncounted (k : Key) : Type 0 where
  pub no_balance : has_balance k ≡ false
  pub no_funding : is_funding k ≡ false

abbrev pub AllUncounted : List (Key × Item) → Type 0
AllUncounted [] = Unit
AllUncounted ((k, v) ∷ rows) = IsUncounted k × AllUncounted rows

worth-insert :
    (k : Key) (v : Item) (t : Table)
    → worth (insert k v t) +ℤ money k (lookup k t) ≡ worth t +ℤ money k (some v)
unfolding worth
worth-insert k v t = total-insert money k v t (money-none k)

money-uncounted : (k : Key) (o : Option Item) → IsUncounted k → money k o ≡ pos 0
unfolding money
money-uncounted k o u = rw (u.no_balance, u.no_funding) refl

money-balance : (k : Key) (o : Option Item) → has_balance k ≡ true → money k o ≡ balances o
unfolding money
money-balance k o h = rw h refl

money-funding :
    (k : Key) (o : Option Item)
    → has_balance k ≡ false
    → is_funding k ≡ true
    → money k o ≡ pos 0 -ℤ number "amount" o
unfolding money
money-funding k o h f = rw (h, f) refl

pub worth-insert_uncounted :
    (k : Key) (v : Item) (t : Table) → IsUncounted k → worth (insert k v t) ≡ worth t
worth-insert_uncounted k v t u = omega (
  int_laws,
  parts_of_eq (worth-insert k v t),
  parts_of_eq (money-uncounted k (lookup k t) u),
  parts_of_eq (money-uncounted k (some v) u),
)

pub worth-insert_balance :
    (k : Key) (v : Item) (t : Table)
    → has_balance k ≡ true
    → worth (insert k v t) +ℤ balances (lookup k t) ≡ worth t +ℤ balances (some v)
worth-insert_balance k v t h =
    rw (sym (money-balance k (lookup k t) h), sym (money-balance k (some v) h)) (worth-insert k v t)

pub worth-insert_funding :
    (k : Key) (v : Item) (t : Table)
    → has_balance k ≡ false
    → is_funding k ≡ true
    → lookup k t ≡ none
    → worth (insert k v t) +ℤ number "amount" (some v) ≡ worth t
worth-insert_funding k v t h f fresh =
    let gone : money k (lookup k t) ≡ pos 0 = ap (money k) fresh ∙ money-none k in
    omega (
      int_laws,
      parts_of_eq (worth-insert k v t),
      parts_of_eq gone,
      parts_of_eq (money-funding k (some v) h f),
    )

pub worth-insert_all :
    (rows : List (Key × Item)) (t : Table) → AllUncounted rows → worth (insert_all rows t) ≡ worth t
unfolding insert_all
worth-insert_all [] t u = refl
worth-insert_all ((k, v) ∷ rows) t u =
    worth-insert_all rows (insert k v t) u.1 ∙ worth-insert_uncounted k v t u.0

-- One row of a balance, which stays, and rows that are not counted.
pub worth-kept :
    (k : Key) (v : Item) (rows : List (Key × Item)) (t : Table)
    → has_balance k ≡ true
    → balances (some v) ≡ balances (lookup k t)
    → AllUncounted rows
    → worth (insert_all ((k, v) ∷ rows) t) ≡ worth t
unfolding insert_all
worth-kept k v rows t h same u =
    worth-insert_all rows (insert k v t) u
    ∙ omega (int_laws, parts_of_eq (worth-insert_balance k v t h), parts_of_eq same)

pub has_balance-account : (b : String) → has_balance (account_key b) ≡ true
has_balance-account b = rw (has_prefix-idem_account_pk b) refl

pub has_balance-merchant : (m : String) → has_balance (merchant_key m) ≡ true
has_balance-merchant m = rw (has_prefix-idem_merchant_pk m) refl
