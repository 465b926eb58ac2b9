-- ===== src/Books/Settle.antt =====
-- What a transaction as a whole does to the balances: the row of one account, the row of one of its
-- holds, and rows that are neither.
use pay_ledger.Prelude.{
  String, ◌≡◌, refl, ◌∙◌, subst, true, false, ◌==◌, some, inl, inr, Bool-cases, eq_iff,
}
use pay_ledger.Prelude.Int.{ℤ, pos, ◌+ℤ◌, ◌-ℤ◌, ◌≤ℤ◌}
use pay_ledger.Store.Item.{num, Item}
use pay_ledger.Store.Key.{
  Key, account_pk, account_pk_injective, is_hold, key_eqb, key_eqb_self, key_eqb-is_hold,
  key_eqb-hold_right, key_eqb-pk, has_prefix-meta,
}
use pay_ledger.Store.Table.{Table, lookup, insert, lookup-insert}
use pay_ledger.Ledger.Accounts.{account_key}
use pay_ledger.Books.View.{pending_amount, held, BalancedAt}
use pay_ledger.Books.Held.{held-insert_aside, held-insert, held-insert_elsewhere}

-- The account rows, the sums of the holds, and the holds themselves are the same.
pub record SameBooks (t u : Table) : Type 0 where
  pub accounts : (a : String) → lookup (account_key a) u ≡ lookup (account_key a) t
  pub sums : (a : String) → held a u ≡ held a t
  pub holds : (k : Key) → is_hold k ≡ true → lookup k u ≡ lookup k t

pub SameBooks-refl : (t : Table) → SameBooks t t
SameBooks-refl t = record { accounts = λ a. refl; sums = λ a. refl; holds = λ k h. refl }

-- A key of a row that is neither an account nor a hold.
pub record IsAside (k : Key) : Type 0 where
  pub no_hold : is_hold k ≡ false
  pub no_account : (a : String) → key_eqb k (account_key a) ≡ false

pub SameBooks-insert :
    (t u : Table) (k : Key) (v : Item) → IsAside k → SameBooks t u → SameBooks t (insert k v u)
SameBooks-insert t u k v aside s = record {
  accounts = λ a. lookup-insert k (account_key a) v u ∙ rw aside.no_account (s.accounts a);
  sums = λ a. held-insert_aside a k v u aside.no_hold ∙ s.sums a;
  holds = λ j h. lookup-insert k j v u ∙ rw (not_same j h) (s.holds j h);
}
  where
    not_same : (j : Key) → is_hold j ≡ true → key_eqb k j ≡ false
    not_same j h = key_eqb-hold_right k j aside.no_hold h

lookup_written :
    (b : String) (v : Item) (t : Table)
    → lookup (account_key b) (insert (account_key b) v t) ≡ some v
lookup_written b v t =
    lookup-insert (account_key b) (account_key b) v t ∙ rw (key_eqb_self (account_key b)) refl

lookup_elsewhere :
    (a b : String) (v : Item) (t : Table)
    → (account_pk b == account_pk a) ≡ false
    → lookup (account_key a) (insert (account_key b) v t) ≡ lookup (account_key a) t
lookup_elsewhere a b v t h =
    lookup-insert (account_key b) (account_key a) v t
    ∙ rw (key_eqb-pk (account_key b) (account_key a) h) refl

-- After the writes, the account `b` has the row `v` and the sum `reserved` of its holds, and the
-- other accounts are as they were.
pub record Wrote (b : String) (v : Item) (reserved : ℤ) (t x : Table) : Type 0 where
  pub row : lookup (account_key b) x ≡ some v
  pub sum : held b x ≡ reserved
  pub other_rows :
      (a : String)
      → (account_pk b == account_pk a) ≡ false
      → lookup (account_key a) x ≡ lookup (account_key a) t
  pub other_sums : (a : String) → (account_pk b == account_pk a) ≡ false → held a x ≡ held a t

-- After the writes, the authorization at `k` is `hold`, and the others are as they were.
pub record WroteHold (k : Key) (hold : Item) (t x : Table) : Type 0 where
  pub row : lookup k x ≡ some hold
  pub other_rows : (j : Key) → is_hold j ≡ true → key_eqb k j ≡ false → lookup j x ≡ lookup j t

-- Balances that add up keep every account balanced.
pub Wrote-BalancedAt :
    (t x : Table) (b : String) (v : Item) (available current reserved : ℤ)
    → Wrote b v reserved t x
    → ((a : String) → BalancedAt (lookup (account_key a) t) (held a t))
    → v "available_balance" ≡ some (num available)
    → v "current_balance" ≡ some (num current)
    → available +ℤ reserved ≡ current
    → pos 0 ≤ℤ available
    → (a : String) → BalancedAt (lookup (account_key a) x) (held a x)
Wrote-BalancedAt t x b v available current reserved w balanced at_available at_current adds_up
      covered a =
    elim (Bool-cases (account_pk b == account_pk a)) [
      | inl e ↦
          subst (λ (c : String). BalancedAt (lookup (account_key c) x) (held c x))
            (account_pk_injective b a ((eq_iff (account_pk b) (account_pk a)).0 e))
            (rw (w.row, w.sum) (available, current, at_available, at_current, adds_up, covered))
      | inr e ↦ rw (w.other_rows a e, w.other_sums a e) (balanced a)
    ]

-- Only the row of the account `b` is written, besides rows that are neither.
module _ (t x : Table) (b : String) (v : Item)
    (after : SameBooks (insert (account_key b) v t) x) where
  pub Wrote-credit : Wrote b v (held b t) t x
  Wrote-credit = record {
    row = after.accounts b ∙ lookup_written b v t;
    sum = after.sums b ∙ held-insert_aside b (account_key b) v t has_prefix-meta;
    other_rows = λ a e. after.accounts a ∙ lookup_elsewhere a b v t e;
    other_sums = λ a e. after.sums a ∙ held-insert_aside a (account_key b) v t has_prefix-meta;
  }

  pub credit-holds : (j : Key) → is_hold j ≡ true → lookup j x ≡ lookup j t
  credit-holds j h =
      after.holds j h
      ∙ lookup-insert (account_key b) j v t
      ∙ rw (key_eqb-hold_right (account_key b) j has_prefix-meta h) refl

-- The row of the account `b` and the row of one of its holds are written.
module _ (t u x : Table) (b : String) (v : Item) (hk : Key) (hold : Item)
    (before : SameBooks (insert (account_key b) v t) u) (after : SameBooks (insert hk hold u) x)
    (partition : hk.pk ≡ account_pk b) (prefix : is_hold hk ≡ true) where
  account_kept : (a : String) → lookup (account_key a) (insert hk hold u) ≡ lookup (account_key a) u
  account_kept a =
      lookup-insert hk (account_key a) hold u
      ∙ rw (key_eqb-is_hold (account_key a) hk has_prefix-meta prefix) refl

  sum_before : (a : String) → held a u ≡ held a t
  sum_before a = before.sums a ∙ held-insert_aside a (account_key b) v t has_prefix-meta

  pub Wrote-settle :
      (old_pending new_pending : ℤ)
      → pending_amount (lookup hk t) ≡ old_pending
      → pending_amount (some hold) ≡ new_pending
      → Wrote b v (held b t +ℤ new_pending -ℤ old_pending) t x
  Wrote-settle old_pending new_pending was is = record {
    row = after.accounts b ∙ account_kept b ∙ before.accounts b ∙ lookup_written b v t;
    sum =
        after.sums b
        ∙ held-insert b hk hold u partition prefix
        ∙ rw (sum_before b, credit-holds t u b v before hk prefix, was, is) refl;
    other_rows =
        λ a e. after.accounts a ∙ account_kept a ∙ before.accounts a ∙ lookup_elsewhere a b v t e;
    other_sums =
        λ a e. after.sums a ∙ held-insert_elsewhere a hk hold u (rw partition e) ∙ sum_before a;
  }

  pub WroteHold-settle : WroteHold hk hold t x
  WroteHold-settle = record {
    row = after.holds hk prefix ∙ lookup-insert hk hk hold u ∙ rw (key_eqb_self hk) refl;
    other_rows = λ j h e.
        after.holds j h ∙ lookup-insert hk j hold u ∙ rw e (credit-holds t u b v before j h);
  }
