-- ===== src/Books/Money/Transfers.antt =====
-- The rows of the program's transactions, and the money that they move.
use pay_ledger.Prelude.{
  String, ◌≡◌, ◌≢◌, refl, ap, ◌∙◌, subst, true, false, ◌==◌, Option, none, some, List, ◌∷◌, arith,
  inl, inr, Bool-cases, eq_iff,
}
use pay_ledger.Prelude.Int.{ℤ, ◌+ℤ◌, ◌-ℤ◌, int_laws, parts_of_eq}
use pay_ledger.Store.Item.{Value, num, Item, assign}
use pay_ledger.Store.Key.{
  Key, key_eqb, key_eqb_self, key_eqb-entry, key_eqb-initial, meta, funding_pk, is_hold, account_pk,
  merchant_pk, entry_sort_key, idempotency_pk, has_prefix, has_prefix-meta,
  has_prefix-idempotency_pk, initial, initial-account_pk, initial-merchant_pk, initial-funding_pk,
  initial-idempotency_pk,
}
use pay_ledger.Store.Table.{Table, lookup, insert, lookup-insert}
use pay_ledger.Store.Transact.{insert_all}
use pay_ledger.Ledger.Accounts.{account_key}
use pay_ledger.Ledger.Merchants.{merchant_key}
use pay_ledger.Ledger.Authorizations.{hold_key}
use pay_ledger.Idempotency.{idempotency_item_key}
use pay_ledger.Books.Writes.{entry_key}
use pay_ledger.Books.Money.{
  number-read, IsUncounted, AllUncounted, number, balances, has_balance, worth, worth-insert_all,
  worth-insert_uncounted, worth-insert_balance, worth-insert_funding, has_balance-account,
  has_balance-merchant,
}

apart : (p q : String) → initial p ≢ initial q → (p == q) ≡ false
apart p q h = elim (Bool-cases (p == q)) [
  | inl e ↦ absurd (h (ap initial ((eq_iff p q).0 e)))
  | inr e ↦ e
]

hold_not_meta : (s : String) → has_prefix "AUTH#" s ≡ true → (s == meta) ≡ false
hold_not_meta s h = elim (Bool-cases (s == meta)) [
  | inl e ↦
      let same = subst (λ x. has_prefix "AUTH#" x ≡ true) ((eq_iff s meta).0 e) h in
      cc (same, has_prefix-meta)
  | inr e ↦ e
]

account_not_funding : (b : String) → (account_pk b == funding_pk) ≡ false
account_not_funding b =
    apart (account_pk b) funding_pk (omega (arith, initial-account_pk b, initial-funding_pk))

merchant_not_funding : (m : String) → (merchant_pk m == funding_pk) ≡ false
merchant_not_funding m =
    apart (merchant_pk m) funding_pk (omega (arith, initial-merchant_pk m, initial-funding_pk))

pub IsUncounted-hold :
    (b sort_key : String) → is_hold (hold_key b sort_key) ≡ true → IsUncounted (hold_key b sort_key)
IsUncounted-hold b sort_key h = record {
  no_balance = rw (hold_not_meta sort_key h) refl;
  no_funding = account_not_funding b;
}

pub IsUncounted-idempotency : (key : String) → IsUncounted (idempotency_item_key key)
IsUncounted-idempotency key = record {
  no_balance = rw (has_prefix-idempotency_pk key) refl;
  no_funding =
      apart (idempotency_pk key) funding_pk
        (omega (arith, initial-idempotency_pk key, initial-funding_pk));
}

module _ (now id n : String) where
  entry_no_balance : (pk : String) → has_balance (entry_key pk now id n) ≡ false
  entry_no_balance pk = elim (Bool-cases (entry_sort_key now id n == meta)) [
    | inl e ↦
        let there : Key = record { pk = pk; sk = meta } in
        let false_there =
          subst (λ s. key_eqb (record { pk = pk; sk = s }) there ≡ false)
            ((eq_iff (entry_sort_key now id n) meta).0 e) (key_eqb-entry id pk now n pk) in
        cc (false_there, key_eqb_self there)
    | inr e ↦ rw e refl
  ]

  pub IsUncounted-account_entry : (b : String) → IsUncounted (entry_key (account_pk b) now id n)
  IsUncounted-account_entry b = record {
    no_balance = entry_no_balance (account_pk b);
    no_funding = account_not_funding b;
  }

  pub IsUncounted-merchant_entry : (m : String) → IsUncounted (entry_key (merchant_pk m) now id n)
  IsUncounted-merchant_entry m = record {
    no_balance = entry_no_balance (merchant_pk m);
    no_funding = merchant_not_funding m;
  }

worth-row :
    (k : Key) (v : Item) (t : Table) {o : Option Item}
    → has_balance k ≡ true
    → lookup k t ≡ o
    → worth (insert k v t) +ℤ balances o ≡ worth t +ℤ balances (some v)
worth-row k v t h found =
    subst (λ o. worth (insert k v t) +ℤ balances o ≡ worth t +ℤ balances (some v)) found
      (worth-insert_balance k v t h)

pub lookup-apart :
    (k j : Key) (v : Item) (t : Table) → key_eqb k j ≡ false → lookup j (insert k v t) ≡ lookup j t
lookup-apart k j v t h = lookup-insert k j v t ∙ rw h refl

-- What a capture takes from the account goes to the merchant.
pub worth-captured :
    (b m : String) (old v mold w : Item) (amount : ℤ) (rows : List (Key × Item)) (t : Table)
    → lookup (account_key b) t ≡ some old
    → lookup (merchant_key m) t ≡ some mold
    → balances (some v) ≡ balances (some old) -ℤ amount
    → balances (some w) ≡ balances (some mold) +ℤ amount
    → AllUncounted rows
    → worth (insert_all ((account_key b, v) ∷ (merchant_key m, w) ∷ rows) t) ≡ worth t
unfolding insert_all
worth-captured b m old v mold w amount rows t found mfound debited credited u =
    let ak = account_key b in
    let mk = merchant_key m in
    let one = insert ak v t in
    let apart_keys =
      key_eqb-initial ak mk (omega (arith, initial-account_pk b, initial-merchant_pk m)) in
    worth-insert_all rows (insert mk w one) u
    ∙ omega (
      int_laws,
      parts_of_eq (worth-row ak v t (has_balance-account b) found),
      parts_of_eq (
          worth-row mk w one (has_balance-merchant m) (lookup-apart ak mk v t apart_keys ∙ mfound)),
      parts_of_eq debited,
      parts_of_eq credited,
    )

-- What a deposit adds to the account is in the entry of the external funding.
pub worth-deposited :
    (b : String) (old v e0 e1 : Item) (amount : ℤ) (now id : String) (rows : List (Key × Item))
    (t : Table)
    → lookup (account_key b) t ≡ some old
    → lookup (entry_key funding_pk now id "1") t ≡ none
    → balances (some v) ≡ balances (some old) +ℤ amount
    → number "amount" (some e1) ≡ amount
    → AllUncounted rows
    → worth (
        insert_all
          ((account_key b, v)
            ∷ (entry_key (account_pk b) now id "0", e0)
            ∷ (entry_key funding_pk now id "1", e1)
            ∷ rows)
          t)
      ≡ worth t
unfolding insert_all
worth-deposited b old v e0 e1 amount now id rows t found fresh credited funded u =
    let ak = account_key b in
    let ek = entry_key (account_pk b) now id "0" in
    let fk = entry_key funding_pk now id "1" in
    let one = insert ak v t in
    let two = insert ek e0 one in
    let absent =
      lookup-apart ek fk e0 one
        (key_eqb-initial ek fk (omega (arith, initial-account_pk b, initial-funding_pk)))
      ∙ lookup-apart ak fk v t
          (key_eqb-initial ak fk (omega (arith, initial-account_pk b, initial-funding_pk)))
      ∙ fresh in
    worth-insert_all rows (insert fk e1 two) u
    ∙ omega (
      int_laws,
      parts_of_eq (worth-row ak v t (has_balance-account b) found),
      parts_of_eq (worth-insert_uncounted ek e0 one (IsUncounted-account_entry now id "0" b)),
      parts_of_eq
          (worth-insert_funding fk e1 two (entry_no_balance now id "1" funding_pk) refl absent),
      parts_of_eq credited,
      parts_of_eq funded,
    )

number-assign :
    (name other : String) (x : Value) (item : Item)
    → (name == other) ≡ false
    → number other (some (assign name x item)) ≡ number other (some item)
unfolding number
number-assign name other x item h = rw (number, h) refl

-- A written balance, in the sum of both.
pub balances-available :
    (old : Item) (x : Value)
    → balances (some (assign "available_balance" x old)) ≡ balances (some old)
unfolding number
balances-available old x = refl

pub balances-current :
    (old : Item) (m n : ℤ)
    → old "current_balance" ≡ some (num m)
    → balances (some (assign "current_balance" (num n) old)) +ℤ m ≡ balances (some old) +ℤ n
balances-current old m n read = omega (
  int_laws,
  parts_of_eq (number-read "current_balance" old read),
  parts_of_eq (number-read "current_balance" (assign "current_balance" (num n) old) refl),
  parts_of_eq (number-assign "current_balance" "payable_balance" (num n) old refl),
)

pub balances-payable :
    (old : Item) (m n : ℤ)
    → old "payable_balance" ≡ some (num m)
    → balances (some (assign "payable_balance" (num n) old)) +ℤ m ≡ balances (some old) +ℤ n
balances-payable old m n read = omega (
  int_laws,
  parts_of_eq (number-read "payable_balance" old read),
  parts_of_eq (number-read "payable_balance" (assign "payable_balance" (num n) old) refl),
  parts_of_eq (number-assign "payable_balance" "current_balance" (num n) old refl),
)
