-- ===== src/Books/Abstraction.antt =====
-- The book that a table stands for, and what the writes of a transaction are in it.
use pay_ledger.Prelude.{
  String, ◌≡◌, ◌≢◌, refl, arith, Option, none, some, true, false, if◌then◌else◌, inl, inr,
  Bool-cases, ◌==◌, eq_iff,
}
use pay_ledger.Prelude.Int.{ℤ, pos}
use pay_ledger.Store.Item.{num, Item, as_number}
use pay_ledger.Store.Key.{Key, account_pk, account_pk_injective, is_hold, key_eqb, key_eqb_iff}
use pay_ledger.Store.Table.{Table, lookup}
use pay_ledger.Ledger.Accounts.{account_key}
use pay_ledger.Books.View.{held, pending_amount}
use pay_ledger.Books.Settle.{SameBooks, Wrote, WroteHold}
use pay_ledger.Books.Spec.{Balance, Book, Sets, Marks, KeepsHolds, Move, idle}

-- The balance of an account's row, with the sum of its pending holds.
unfoldable pub balance_of : Option Item → ℤ → Option Balance
balance_of none reserved = none
balance_of (some item) reserved = elim (as_number (item "current_balance")) [
  | none ↦ none
  | some n ↦ some (record { current = n; reserved = reserved })
]

unfoldable pub pending_at : Key → Table → ℤ
pending_at k t = if is_hold k then pending_amount (lookup k t) else pos 0

abbrev pub book : Table → Book
book t = record {
  accounts = λ a. balance_of (lookup (account_key a) t) (held a t);
  pending = λ k. pending_at k t;
}

balance_of-some :
    (item : Item) (n reserved : ℤ)
    → item "current_balance" ≡ some (num n)
    → balance_of (some item) reserved ≡ some (record { current = n; reserved = reserved })
unfolding balance_of
balance_of-some item n reserved e = ground arith

pub account_of_book :
    (t : Table) (b : String) (item : Item) (n : ℤ)
    → lookup (account_key b) t ≡ some item
    → item "current_balance" ≡ some (num n)
    → (book t).accounts b ≡ some (record { current = n; reserved = held b t })
account_of_book t b item n found e = rw found (balance_of-some item n (held b t) e)

pub no_account_of_book :
    (t : Table) (b : String) → lookup (account_key b) t ≡ none → (book t).accounts b ≡ none
unfolding balance_of
no_account_of_book t b missing = rw missing refl

pub pending_of_book :
    (t : Table) (k : Key) (n : ℤ)
    → is_hold k ≡ true
    → pending_amount (lookup k t) ≡ n
    → (book t).pending k ≡ n
unfolding pending_at
pending_of_book t k n h e = rw h e

apart : (a b : String) → b ≢ a → (account_pk b == account_pk a) ≡ false
apart a b n = elim (Bool-cases (account_pk b == account_pk a)) [
  | inl e ↦ absurd (n (account_pk_injective b a ((eq_iff (account_pk b) (account_pk a)).0 e)))
  | inr e ↦ e
]

apart_keys : (k j : Key) → k ≢ j → key_eqb k j ≡ false
apart_keys k j n = elim (Bool-cases (key_eqb k j)) [
  | inl e ↦ absurd (n ((key_eqb_iff k j).0 e))
  | inr e ↦ e
]

pub Wrote-Sets :
    (t x : Table) (b : String) (v : Item) (n reserved : ℤ)
    → Wrote b v reserved t x
    → v "current_balance" ≡ some (num n)
    → Sets b (record { current = n; reserved = reserved }) (book t) (book x)
Wrote-Sets t x b v n reserved w e = record {
  own = rw (w.row, w.sum) (balance_of-some v n reserved e);
  others = λ a ne. rw (w.other_rows a (apart a b ne), w.other_sums a (apart a b ne)) refl;
}

pub WroteHold-Marks :
    (t x : Table) (k : Key) (hold : Item) (n : ℤ)
    → is_hold k ≡ true
    → WroteHold k hold t x
    → pending_amount (some hold) ≡ n
    → Marks k n (book t) (book x)
unfolding pending_at
WroteHold-Marks t x k hold n h w e = record {
  own = rw (h, w.row) e;
  others = λ j ne. elim (Bool-cases (is_hold j)) [
    | inl hj ↦ rw (hj, w.other_rows j hj (apart_keys k j ne)) refl
    | inr nj ↦ rw nj refl
  ];
}

pub holds-KeepsHolds :
    (t x : Table)
    → ((j : Key) → is_hold j ≡ true → lookup j x ≡ lookup j t)
    → KeepsHolds (book t) (book x)
unfolding pending_at
holds-KeepsHolds t x same = record {
  same =
      λ j. elim (Bool-cases (is_hold j)) [ inl hj ↦ rw (hj, same j hj) refl | inr nj ↦ rw nj refl ];
}

pub SameBooks-Move : (t x : Table) → SameBooks t x → Move (book t) (book x)
SameBooks-Move t x s = idle (λ a. rw (s.accounts a, s.sums a) refl) (holds-KeepsHolds t x s.holds)
