-- ===== src/Books/Conserved/Entries.antt =====
-- A capture and a deposit: the money that they move, and their two entries.
use pay_ledger.Prelude.{
  String, ◌≡◌, sym, subst, ◌∙◌, false, none, some, List, ◌∷◌, arith, inl, inr, Bool-cases,
}
use pay_ledger.Prelude.Int.{ℤ, ◌+ℤ◌, ◌-ℤ◌, int_laws, parts_of_eq}
use pay_ledger.Store.Item.{Value, str, num, Item, assign}
use pay_ledger.Store.Key.{
  Key, key_eqb, key_eqb_iff, key_eqb-entry, key_eqb-initial, funding_pk, account_pk, merchant_pk,
  has_prefix-txn_meta, has_prefix-txn_entry, initial-account_pk, initial-merchant_pk,
  initial-funding_pk,
}
use pay_ledger.Store.Table.{Table, lookup, insert}
use pay_ledger.Store.Transact.{insert_all, put, always, verdict, pass}
use pay_ledger.Store.Transact.Inversion.{put-pass}
use pay_ledger.Ledger.Accounts.{account_key}
use pay_ledger.Ledger.Merchants.{merchant_key}
use pay_ledger.Books.Writes.{entry_key}
use pay_ledger.Books.Money.{number-read}
use pay_ledger.Books.Money.Transfers.{
  IsUncounted-account_entry, IsUncounted-merchant_entry, worth-captured, worth-deposited,
  balances-available, balances-current, balances-payable, lookup-apart,
}
use pay_ledger.Books.Postings.{
  Says, postings, postings-insert_other, postings-insert_all, postings-posted,
}
use pay_ledger.Books.Conserved.{Conserves}
use pay_ledger.Books.Conserved.Transfers.{AllOther, AllOther-AllUncounted, AllOther-NoEntries}

-- The row of a balance is not that of an entry.
module _ (t : Table) (pk now id n other : String) (v : Item) where
  absent_still :
      lookup (entry_key pk now id n) t ≡ none
      → lookup (entry_key pk now id n) (insert (record { pk = other; sk = "META" }) v t) ≡ none
  absent_still absent =
      let k : Key = record { pk = other; sk = "META" } in
      let e = entry_key pk now id n in
      lookup-apart k e v t (elim (Bool-cases (key_eqb k e)) [
        | inl same ↦
            let there = (key_eqb_iff e k).1 (sym ((key_eqb_iff k e).0 same)) in
            cc (there, key_eqb-entry id pk now n other)
        | inr apart ↦ apart
      ])
      ∙ absent

-- The two entries of a capture or a deposit, over rows of balances, and then rows that do not matter.
postings-transferred :
    (u : Table) (p q now id : String) (e0 e1 : Item) (amount : ℤ) (rows : List (Key × Item))
    → key_eqb (entry_key p now id "0") (entry_key q now id "1") ≡ false
    → lookup (entry_key p now id "0") u ≡ none
    → lookup (entry_key q now id "1") u ≡ none
    → Says e0 "DEBIT" amount
    → Says e1 "CREDIT" amount
    → AllOther rows
    → postings (insert_all ((entry_key p now id "0", e0) ∷ (entry_key q now id "1", e1) ∷ rows) u)
      ≡ postings u
unfolding insert_all
postings-transferred u p q now id e0 e1 amount rows apart absent absent' debit credit other =
    postings-insert_all rows _ (AllOther-NoEntries rows other)
    ∙ postings-posted (entry_key p now id "0") (entry_key q now id "1") e0 e1 amount u
        (has_prefix-txn_entry id now "0") (has_prefix-txn_entry id now "1") apart absent absent'
        debit credit

-- An entry that is put says what its item says.
pub Says-put :
    (t : Table) (item : Item) {new : Item} (entry_type : String) (amount : ℤ)
    → verdict (put item always) t ≡ pass new
    → item "entry_type" ≡ some (str entry_type)
    → item "amount" ≡ some (num amount)
    → Says new entry_type amount
Says-put t item entry_type amount p says pays =
    subst (λ i. Says i entry_type amount) (sym (put-pass item always t p).1)
      (record { says_type = says; says_amount = pays })

pub Conserves-captured :
    (t : Table) (b merchant_id now id : String) (old v mold w e0 e1 : Item) (m n amount : ℤ)
    (rows : List (Key × Item))
    → lookup (account_key b) t ≡ some old
    → lookup (merchant_key merchant_id) t ≡ some mold
    → old "current_balance" ≡ some (num m)
    → mold "payable_balance" ≡ some (num n)
    → v ≡ assign "current_balance" (num (m -ℤ amount)) old
    → w ≡ assign "payable_balance" (num (n +ℤ amount)) mold
    → lookup (entry_key (account_pk b) now id "0") t ≡ none
    → lookup (entry_key (merchant_pk merchant_id) now id "1") t ≡ none
    → Says e0 "DEBIT" amount
    → Says e1 "CREDIT" amount
    → AllOther rows
    → Conserves t (
        insert_all
          ((account_key b, v)
            ∷ (merchant_key merchant_id, w)
            ∷ (entry_key (account_pk b) now id "0", e0)
            ∷ (entry_key (merchant_pk merchant_id) now id "1", e1)
            ∷ rows)
          t)
unfolding insert_all
Conserves-captured t b merchant_id now id old v mold w e0 e1 m n amount rows found mfound read mread
      written mwritten absent absent' debit credit other =
    let one = insert (account_key b) v t in
    let two = insert (merchant_key merchant_id) w one in
    let still = λ (pk n : String) (h : lookup (entry_key pk now id n) t ≡ none).
      absent_still one pk now id n (merchant_pk merchant_id) w
        (absent_still t pk now id n (account_pk b) v h) in
    record {
      money_kept =
          worth-captured b merchant_id old v mold w amount
            ((entry_key (account_pk b) now id "0", e0)
              ∷ (entry_key (merchant_pk merchant_id) now id "1", e1)
              ∷ rows)
            t found mfound
            (rw written (omega (int_laws, parts_of_eq (balances-current old m (m -ℤ amount) read))))
            (rw mwritten
              (omega (int_laws, parts_of_eq (balances-payable mold n (n +ℤ amount) mread))))
            (
              IsUncounted-account_entry now id "0" b,
              (IsUncounted-merchant_entry now id "1" merchant_id, AllOther-AllUncounted rows other),
            );
      postings_kept =
          postings-transferred two (account_pk b) (merchant_pk merchant_id) now id e0 e1 amount rows
            (key_eqb-initial _ _
              (omega (arith, initial-account_pk b, initial-merchant_pk merchant_id)))
            (still (account_pk b) "0" absent) (still (merchant_pk merchant_id) "1" absent') debit
            credit other
          ∙ postings-insert_other (merchant_key merchant_id) w one has_prefix-txn_meta
          ∙ postings-insert_other (account_key b) v t has_prefix-txn_meta;
    }

pub Conserves-deposited :
    (t : Table) (b now id : String) (old v e0 e1 : Item) (m amount : ℤ) (x : Value)
    (rows : List (Key × Item))
    → lookup (account_key b) t ≡ some old
    → old "current_balance" ≡ some (num m)
    → v ≡ assign "current_balance" (num (m +ℤ amount)) (assign "available_balance" x old)
    → lookup (entry_key (account_pk b) now id "0") t ≡ none
    → lookup (entry_key funding_pk now id "1") t ≡ none
    → Says e0 "DEBIT" amount
    → Says e1 "CREDIT" amount
    → AllOther rows
    → Conserves t (
        insert_all
          ((account_key b, v)
            ∷ (entry_key (account_pk b) now id "0", e0)
            ∷ (entry_key funding_pk now id "1", e1)
            ∷ rows)
          t)
unfolding insert_all
Conserves-deposited t b now id old v e0 e1 m amount x rows found read written absent absent' debit
      credit other =
    record {
      money_kept =
          worth-deposited b old v e0 e1 amount now id rows t found absent'
            (rw written (
              omega (
                int_laws,
                parts_of_eq
                    (balances-current (assign "available_balance" x old) m (m +ℤ amount) read),
                parts_of_eq (balances-available old x),
              )))
            (number-read "amount" e1 credit.says_amount) (AllOther-AllUncounted rows other);
      postings_kept =
          postings-transferred (insert (account_key b) v t) (account_pk b) funding_pk now id e0 e1
            amount rows
            (key_eqb-initial _ _ (omega (arith, initial-account_pk b, initial-funding_pk)))
            (absent_still t (account_pk b) now id "0" (account_pk b) v absent)
            (absent_still t funding_pk now id "1" (account_pk b) v absent') debit credit other
          ∙ postings-insert_other (account_key b) v t has_prefix-txn_meta;
    }
